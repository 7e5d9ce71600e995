-- ===== src/Routes/ProcessesPage/Shown.antt =====
-- Which processes the page shows, and what a click on one of them opens.
use instace_metric_collector.Common.{
  ℕ, ◌==◌, Str, Bool, true, false, [], map, In, Option, none, some, ◌≡◌, ◌⊎◌, ◌↔◌,
}
use instace_metric_collector.Common.Floats.{Floats}
use instace_metric_collector.Api.Types.{ProcessInfo, MetricsSnapshot}
use instace_metric_collector.Api.HistorySamples.{HistoryState}
use instace_metric_collector.Components.ServiceView.{SplitSurface}
use instace_metric_collector.Components.DetailPanels.{process_detail, default_service_prefix}
use instace_metric_collector.Components.ProcessView.{ProcessRow, process_matches}
use instace_metric_collector.Components.ProcessSplit.{TableState, TableView}
use instace_metric_collector.Components.ProcessSplit.Opening.{unmarked, row_opens}
use instace_metric_collector.Routes.Layout.{HistoryView}
use instace_metric_collector.Routes.Snapshot.{Selection}
use instace_metric_collector.Routes.HistoryWorkbench.{Contexts, page_context, content_context}
use instace_metric_collector.Routes.Query.{Query, IsQuery}
use instace_metric_collector.Routes.Workbench.{selected_pid, on_select_pid}
use instace_metric_collector.Routes.Workbench.Selecting.{ReadsNumbers, selection_read_back}
use instace_metric_collector.Routes.PageView.{waiting_view, follows_history}
use instace_metric_collector.Routes.PageView.Following.{
  ShowsContent, BarAt, content_source, page_waits, page_shows,
}
use instace_metric_collector.Routes.ProcessesPage.{processes_content, processes_page}

module _ {F : Type 0} ⦃fl : Floats F⦄ (lower encode t : Str → Str) (name_le : Str → Str → Bool)
    (q : Query) (number date_ms : Str → Option ℕ) (count_text : ℕ → Str) where
  -- The page waits exactly if it does not follow the history, which it does on its own surface in
  -- the history mode, and its own context has no snapshot. A table that it shows is that of one
  -- snapshot: that of the content's context if it does not follow the history, and else a delivered
  -- sample, at whose place in the order of the samples the slider stands with its date above. The two
  -- contexts are the provider's value if there is one, and else the states of a hook of each. If the
  -- page does not follow the history, it shows a table once both contexts have a snapshot, and else
  -- once there is a sample.
  pub processes_page_lem :
      (surface : SplitSurface) (show_title : Bool) (view : HistoryView) (cs : Contexts F)
      (h : HistoryState F) (sel : Selection) (params : q.Params) (s : TableState)
      → let shown =
          processes_page lower encode t name_le q number date_ms count_text surface show_title view
            cs h sel params s in
        let draw =
          processes_content {F = F} lower encode t name_le surface
            (selected_pid q number params)
            s in
        ((shown ≡ waiting_view)
          ↔ ((follows_history surface view ≡ false) × ((page_context cs).snapshot ≡ none)))
        × ((v : TableView)
            → ShowsContent shown v
            → (snap : MetricsSnapshot F) × (v ≡ draw snap)
              × (((follows_history surface view ≡ false)
                    × ((content_context cs).snapshot ≡ some snap))
                  ⊎ ((follows_history surface view ≡ true) × BarAt date_ms h.samples shown snap)))
        × ((own snap : MetricsSnapshot F)
            → follows_history surface view ≡ false
            → (page_context cs).snapshot ≡ some own
            → (content_context cs).snapshot ≡ some snap
            → ShowsContent shown (draw snap))
        × ((y : MetricsSnapshot F)
            → follows_history surface view ≡ true
            → In y h.samples
            → (v : TableView) × ShowsContent shown v)
  unfolding processes_page
  processes_page_lem surface show_title view cs h sel params s = (
    page_waits date_ms t count_text _ surface show_title _ view cs h sel,
    (λ v. content_source date_ms t count_text _ surface show_title _ view cs h sel v),
    (page_shows date_ms t count_text _ surface show_title _ view cs h sel).0,
    (page_shows date_ms t count_text _ surface show_title _ view cs h sel).1,
  )

module _ {F : Type 0} ⦃fl : Floats F⦄ (lower encode t : Str → Str) (name_le : Str → Str → Bool)
    (q : Query) (law : IsQuery q encode) (number : Str → Option ℕ)
    (reads : ReadsNumbers number) where
  -- Whatever snapshot the page shows, search, order and selection it has, a click on a row puts its
  -- pid into the URL, and with it the panel shows a process of the snapshot that has this pid and
  -- matches the search; the rows with this pid are marked and no other, and but for the marks the
  -- table is as before.
  pub click_opens :
      (surface : SplitSurface) (snap : MetricsSnapshot F) (params : q.Params) (s : TableState)
      (r : ProcessRow)
      → let before =
          processes_content lower encode t name_le surface (selected_pid q number params) s snap in
        let after =
          processes_content lower encode t name_le surface
            (selected_pid q number (on_select_pid q params r.pid))
            s
            snap in
        In r before.rows
        → ((p : ProcessInfo F) × In p snap.payload.process_infos
            × (p.pid ≡ r.pid)
            × (process_matches lower s.search p ≡ true)
            × (after.detail
                ≡ some (
                    process_detail lower encode t default_service_prefix p
                      snap.payload.service_infos)))
          × ((x : ProcessRow) → In x after.rows → x.is_selected ≡ (x.pid == r.pid))
          × (map unmarked after.rows ≡ map unmarked before.rows)
  unfolding processes_content
  click_opens surface snap params s r m =
      rw ((selection_read_back q law number reads params r.pid []).0) (
        row_opens lower encode t name_le surface default_service_prefix snap.payload.process_infos
          snap.payload.service_infos s (selected_pid q number params) r m)
