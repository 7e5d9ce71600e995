-- ===== src/Routes/ProcessesPage/Agents.antt =====
-- The page of the processes under an agent of the hub, whose context is that of `useHubAgentMetrics`
-- as routes/hub/HubAgentLayout.tsx provides it.
use instace_metric_collector.Common.{
  ℕ, Str, is_empty, Bool, true, false, [], Option, some, ◌≡◌, refl,
}
use instace_metric_collector.Common.Floats.{Floats}
use instace_metric_collector.Api.Types.{MetricsSnapshot}
use instace_metric_collector.Api.HistorySamples.{HistoryState}
use instace_metric_collector.Api.Metrics.{MetricsState}
use instace_metric_collector.Api.Metrics.Agents.{System, Reach, other_agent_shown}
use instace_metric_collector.Components.ServiceView.{page}
use instace_metric_collector.Components.ProcessSplit.{TableState}
use instace_metric_collector.Routes.Layout.{HistoryView, live_view}
use instace_metric_collector.Routes.Snapshot.{Selection}
use instace_metric_collector.Routes.HistoryWorkbench.{
  within_provider, page_context, content_context, use_metrics_context,
}
use instace_metric_collector.Routes.Query.{Query}
use instace_metric_collector.Routes.Workbench.{selected_pid}
use instace_metric_collector.Routes.PageView.{follows_history}
use instace_metric_collector.Routes.PageView.Following.{ShowsContent}
use instace_metric_collector.Routes.ProcessesPage.{processes_content, processes_page}
use instace_metric_collector.Routes.ProcessesPage.Shown.{processes_page_lem}

module _ {F : Type 0} ⦃fl : Floats F⦄ (lower encode t : Str → Str) (name_le : Str → Str → Bool)
    (q : Query) (number date_ms : Str → Option ℕ) (count_text : ℕ → Str) where
  -- For any two agents whose ids are not empty, and any snapshots of theirs, a state of the hook can
  -- be reached in which the page is the second agent's, every request has been answered, and in the
  -- live mode the page of the processes shows the table of the first agent's snapshot, as live.
  pub other_agent_listed :
      (a b : Str) (snap_a snap_b : MetricsSnapshot F) (page_own content_own : MetricsState F)
      (view : HistoryView) (show_title : Bool) (h : HistoryState F) (sel : Selection)
      (params : q.Params) (table : TableState)
      → is_empty a ≡ false
      → is_empty b ≡ false
      → view.view_mode ≡ live_view
      → (s : System F) × Reach date_ms s
        × (s.agent ≡ some b)
        × (s.asked ≡ [])
        × (s.origin ≡ some a)
        × (s.ui.live ≡ true)
        × ShowsContent
            (processes_page lower encode t name_le q number date_ms count_text page show_title view
              (within_provider s.ui page_own content_own)
              h
              sel
              params
              table)
            (processes_content lower encode t name_le page
              (selected_pid q number params)
              table
              snap_a)
  unfolding within_provider page_context content_context use_metrics_context
  other_agent_listed a b snap_a snap_b page_own content_own view show_title h sel params table p n
        live =
      let (s, r, agent, asked, origin, is_live, shown) =
        other_agent_shown date_ms a b snap_a snap_b p n in
      let (_, _, draws, _) =
        processes_page_lem lower encode t name_le q number date_ms count_text page show_title view
          (within_provider s.ui page_own content_own) h sel params table in
      (
        s,
        r,
        agent,
        asked,
        origin,
        is_live,
        draws snap_a snap_a (follows_live view live) shown shown,
      )
    where
      follows_live :
          (view : HistoryView) → view.view_mode ≡ live_view → follows_history page view ≡ false
      follows_live view e = rw e refl
