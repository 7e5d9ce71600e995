-- ===== src/Routes/ProcessesPage/Offline.antt =====
-- What the page of the processes shows of an agent that goes offline.
use instace_metric_collector.Common.{
  ℕ, Str, Bool, Bool-clash, true, false, some, List, In, Option, ◌≡◌, ◌≢◌, refl,
}
use instace_metric_collector.Common.Floats.{Floats}
use instace_metric_collector.Api.Types.{MetricsSnapshot}
use instace_metric_collector.Api.Metrics.{MetricsState}
use instace_metric_collector.Api.HistorySamples.{HistoryState}
use instace_metric_collector.Domain.AgentStatus.{is_agent_offline}
use instace_metric_collector.Components.ServiceView.{page}
use instace_metric_collector.Components.ProcessSplit.{TableState, TableView}
use instace_metric_collector.Routes.Layout.{
  live_view, history_view, HistoryView, LayoutState, render, choose, same_status,
}
use instace_metric_collector.Routes.Layout.Switch.{
  LayoutEvent, happen_all, again, KeepsHistory, offline_switches, live_kept,
}
use instace_metric_collector.Routes.Snapshot.{Selection}
use instace_metric_collector.Routes.HistoryWorkbench.{
  Contexts, within_provider, page_context, content_context, use_metrics_context,
}
use instace_metric_collector.Routes.Query.{Query}
use instace_metric_collector.Routes.Workbench.{selected_pid}
use instace_metric_collector.Routes.PageView.{waiting_view, follows_history}
use instace_metric_collector.Routes.PageView.Following.{ShowsContent, In-followed}
use instace_metric_collector.Routes.ProcessesPage.{processes_content, processes_page}
use instace_metric_collector.Routes.ProcessesPage.Shown.{processes_page_lem}

pub follows_in_history :
    (view : HistoryView) → view.view_mode ≡ history_view → follows_history page view ≡ true
follows_in_history view e = rw e refl

pub follows_live :
    (view : HistoryView) → view.view_mode ≡ live_view → follows_history page view ≡ false
follows_live view e = rw e refl

module _ {F : Type 0} ⦃fl : Floats F⦄ (lower encode t : Str → Str) (name_le : Str → Str → Bool)
    (q : Query) (number date_ms : Str → Option ℕ) (count_text : ℕ → Str) where
  -- When the status of an agent becomes offline or stale, in whatever state its page is, then
  -- whatever happens next, the return of the agent too, unless the user chooses the live mode: the
  -- page of its processes does not wait, each table that it shows is that of a sample delivered by
  -- the history, and it shows one if there is a sample. And when the user does choose the live mode,
  -- the page shows the live snapshot, if there is one, however many renders follow that bring no new
  -- status.
  pub offline_shows_history :
      (start : LayoutState) (status : Option Str) (later : List LayoutEvent) (n : ℕ)
      (show_title : Bool) (ctx page_own content_own : MetricsState F) (h : HistoryState F)
      (sel : Selection) (params : q.Params) (s : TableState)
      → is_agent_offline status ≡ true
      → same_status start.seen status ≡ false
      → KeepsHistory later
      → let after : LayoutState = happen_all later (render status start) in
        let back : LayoutState = happen_all (again n after.seen) (choose live_view after) in
        let shown =
          processes_page lower encode t name_le q number date_ms count_text page show_title
            after.view
            (within_provider ctx page_own content_own)
            h
            sel
            params
            s in
        let draw =
          processes_content {F = F} lower encode t name_le page (selected_pid q number params) s in
        (shown ≢ waiting_view)
        × ((x : TableView)
            → ShowsContent shown x
            → (snap : MetricsSnapshot F) × In snap h.samples × (x ≡ draw snap))
        × ((y : MetricsSnapshot F) → In y h.samples → (x : TableView) × ShowsContent shown x)
        × ((snap : MetricsSnapshot F)
            → ctx.snapshot ≡ some snap
            → ShowsContent
                (processes_page lower encode t name_le q number date_ms count_text page show_title
                  back.view
                  (within_provider ctx page_own content_own)
                  h
                  sel
                  params
                  s)
                (draw snap))
  unfolding within_provider page_context content_context use_metrics_context
  offline_shows_history start status later n show_title ctx page_own content_own h sel params s off
        fresh keeps =
      let after : LayoutState = happen_all later (render status start) in
      let back : LayoutState = happen_all (again n after.seen) (choose live_view after) in
      let follows : follows_history page after.view ≡ true =
        follows_in_history after.view (offline_switches start status later off fresh keeps) in
      let cs : Contexts F = within_provider ctx page_own content_own in
      let (waits, source, live, old) =
        processes_page_lem lower encode t name_le q number date_ms count_text page show_title
          after.view cs h sel params s in
      let (_, _, shows, _) =
        processes_page_lem lower encode t name_le q number date_ms count_text page show_title
          back.view cs h sel params s in
      (
        (λ e. Bool-clash follows (waits.0 e).0),
        (λ x m.
            let (snap, e, w) = source x m in
            (snap, In-followed date_ms h.samples page after.view _ snap follows w, e)),
        (λ y m. old y follows m),
        λ snap e. shows snap snap (follows_live back.view (live_kept after n)) e e,
      )
