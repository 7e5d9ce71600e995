-- ===== src/Routes/ContainerMetrics/Contents/Following.antt =====
-- Whose processes stand in the tab of a container.
use instace_metric_collector.Common.{
  ℕ, Str, same, Bool, true, false, [], ◌∷◌, In, Option, some, ◌≡◌, refl,
}
use instace_metric_collector.Common.Floats.{Floats}
use instace_metric_collector.Api.Types.{MetricsSnapshot}
use instace_metric_collector.Api.Polling.{ContainerState}
use instace_metric_collector.Components.ServiceView.{page, container_detail}
use instace_metric_collector.Components.ProcessSplit.{TableView}
use instace_metric_collector.Routes.Layout.{live_view, history_view, HistoryView}
use instace_metric_collector.Routes.Query.{Query}
use instace_metric_collector.Routes.Workbench.{selected_pid}
use instace_metric_collector.Routes.HistoryWorkbench.{
  within_provider, use_metrics_context, page_context, content_context,
}
use instace_metric_collector.Routes.PageView.{follows_history}
use instace_metric_collector.Routes.PageView.Following.{ShowsContent, In-followed}
use instace_metric_collector.Routes.ProcessesPage.{processes_content}
use instace_metric_collector.Routes.ProcessesPage.Shown.{processes_page_lem}
use instace_metric_collector.Routes.ProcessesPage.Offline.{follows_in_history}
use instace_metric_collector.Routes.ContainerPanel.{OwnMetrics, own_metrics, processes_body}
use instace_metric_collector.Routes.ContainerMetrics.{
  processes_part, processes_name, tab_parts, tab_parts_of,
}
use instace_metric_collector.Routes.ContainerMetrics.Contents.{
  PageInputs, TabContent, processes_tab_content, PanelContent, processes_panel, context_of,
  processes_within, tab_content, panel_content,
}

-- The table is in the tab, or in the panel.
abbrev pub InTab : {F : Type 0} → TabContent F → TableView → Type 0
InTab (processes_tab_content shown) v = ShowsContent shown v
InTab _ v = ⊥

abbrev pub InPanel : {F : Type 0} → PanelContent F → TableView → Type 0
InPanel (processes_panel shown) v = ShowsContent shown v
InPanel _ v = ⊥

not_following :
    (view : HistoryView) → view.view_mode ≡ live_view → follows_history page view ≡ false
not_following view e = rw e refl

module _ {F : Type 0} ⦃fl : Floats F⦄ (lower encode t : Str → Str) (name_le : Str → Str → Bool)
    (q : Query) (number date_ms : Str → Option ℕ) (count_text : ℕ → Str) where
  -- A container with metrics of its own, on its page in the tab of the processes: in the live mode
  -- the table is that of the container's own snapshot. In the history mode each table is that of a
  -- sample of the history that the page has, whatever the own snapshot is, and there is one if there
  -- is a sample. The panel of the list of containers shows the table of the
  -- own snapshot in both modes.
  pub container_processes_lem :
      (i : PageInputs F q) (own : ContainerState F) (m : OwnMetrics F)
      → own_metrics date_ms own ≡ some m
      → let tab = tab_content lower encode t name_le q number date_ms count_text i in
        let panel = panel_content lower encode t name_le q number date_ms count_text i in
        let pid = selected_pid q number i.params in
        (tab_parts date_ms processes_name own ≡ processes_part m ∷ [])
        × (i.view.view_mode ≡ live_view
            → InTab
                (tab (processes_part m))
                (processes_content lower encode t name_le page pid i.table m.snapshot))
        × (i.view.view_mode ≡ history_view
            → (v : TableView) → InTab (tab (processes_part m)) v
            → (snap : MetricsSnapshot F) × In snap i.history.samples
              × (v ≡ processes_content lower encode t name_le page pid i.table snap))
        × (i.view.view_mode ≡ history_view
            → (y : MetricsSnapshot F) → In y i.history.samples
            → (v : TableView) × InTab (tab (processes_part m)) v)
        × InPanel
            (panel (processes_body m))
            (processes_content lower encode t name_le container_detail pid i.table m.snapshot)
  unfolding tab_content panel_content processes_within context_of within_provider page_context
      content_context use_metrics_context tab_parts tab_parts_of same
  container_processes_lem i own m e =
      let (_, source, live, old) =
        processes_page_lem lower encode t name_le q number date_ms count_text page false i.view
          (within_provider (context_of m) i.page_own i.content_own) i.history i.selection i.params
          i.table in
      let (_, _, always, _) =
        processes_page_lem lower encode t name_le q number date_ms count_text container_detail true
          i.view (within_provider (context_of m) i.page_own i.content_own) i.history i.selection
          i.params i.table in
      (
        rw e refl,
        (λ l. live m.snapshot m.snapshot (not_following i.view l) refl refl),
        (λ h v k.
            let (snap, d, w) = source v k in
            (
              snap,
              In-followed date_ms i.history.samples page i.view _ snap (follows_in_history i.view h)
                  w,
              d,
            )),
        (λ h y k. old y (follows_in_history i.view h) k),
        always m.snapshot m.snapshot refl refl refl,
      )
