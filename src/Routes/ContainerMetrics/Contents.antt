-- ===== src/Routes/ContainerMetrics/Contents.antt =====
-- What the pages of the processes and of the services show in the tabs of a container:
-- go/web/frontend/src/routes/container-metrics/ContainerMetricsPage.tsx, which has them as pages, and
-- the panel of routes/containers/ContainersPage.tsx, which has them in its own surface. `number`
-- reads a number, and the other parameters are those of the pages.
pub mod Following
use instace_metric_collector.Common.{ℕ, Str, Bool, true, false, Option, none, some}
use instace_metric_collector.Common.Floats.{Floats}
use instace_metric_collector.Api.Metrics.{MetricsState}
use instace_metric_collector.Api.HistorySamples.{HistoryState}
use instace_metric_collector.Components.ServiceView.{SplitSurface, page, container_detail}
use instace_metric_collector.Components.ServiceSplit.{SplitState, SplitView}
use instace_metric_collector.Components.ProcessSplit.{TableState, TableView}
use instace_metric_collector.Routes.Layout.{HistoryView}
use instace_metric_collector.Routes.Snapshot.{Selection}
use instace_metric_collector.Routes.Query.{Query}
use instace_metric_collector.Routes.HistoryWorkbench.{within_provider}
use instace_metric_collector.Routes.PageView.{PageView}
use instace_metric_collector.Routes.ProcessesPage.{processes_page}
use instace_metric_collector.Routes.ServicesPage.{services_page}
use instace_metric_collector.Routes.ContainerPanel.{
  OwnMetrics, PanelBody, overview_body, processes_body, services_body, no_agent_metrics,
  OverviewView,
}
use instace_metric_collector.Routes.ContainerMetrics.{
  TabPart, overview_part, processes_part, services_part, waiting_part, MetricsOverview,
  metrics_overview,
}

-- `metricsCtx` as the value of a provider.
unfoldable pub context_of : {F : Type 0} → OwnMetrics F → MetricsState F
context_of m = record {
  snapshot = some m.snapshot;
  live = m.is_live;
  last_update = some m.last_update;
}

-- What the pages read besides the provider: the states of their own hooks, the mode, the history with the sample chosen, the
-- parameters of the URL, and their own states.
pub record PageInputs (F : Type 0) (q : Query) : Type 0 where
  pub page_own : MetricsState F
  pub content_own : MetricsState F
  pub view : HistoryView
  pub history : HistoryState F
  pub selection : Selection
  pub params : q.Params
  pub table : TableState
  pub split : SplitState

-- What a tab shows.
pub data TabContent (F : Type 0) : Type 0 where
  overview_content : MetricsOverview F → TabContent F
  processes_tab_content : PageView TableView → TabContent F
  services_tab_content : PageView SplitView → TabContent F
  waiting_content : TabContent F

-- What the panel of a container shows under its tabs.
pub data PanelContent (F : Type 0) : Type 0 where
  overview_panel : OverviewView F → PanelContent F
  processes_panel : PageView TableView → PanelContent F
  services_panel : PageView SplitView → PanelContent F
  notice_panel : PanelContent F

module _ {F : Type 0} ⦃fl : Floats F⦄ (lower encode t : Str → Str) (name_le : Str → Str → Bool)
    (q : Query) (number date_ms : Str → Option ℕ) (count_text : ℕ → Str) where
  -- A page in the provider of a container's metrics.
  unfoldable pub processes_within :
      SplitSurface → Bool → PageInputs F q → OwnMetrics F → PageView TableView
  processes_within surface show_title i m =
      processes_page lower encode t name_le q number date_ms count_text surface show_title i.view
        (within_provider (context_of m) i.page_own i.content_own) i.history i.selection i.params
        i.table

  unfoldable pub services_within :
      SplitSurface → Bool → PageInputs F q → OwnMetrics F → PageView SplitView
  services_within surface show_title i m =
      services_page lower t name_le q date_ms count_text surface show_title i.view
        (within_provider (context_of m) i.page_own i.content_own) i.history i.selection i.params
        i.split

  -- The tabs of the container's page.
  unfoldable pub tab_content : PageInputs F q → TabPart F → TabContent F
  unfolding processes_within services_within
  tab_content i (overview_part m) =
      overview_content (metrics_overview lower encode t m.snapshot.payload)
  tab_content i (processes_part m) = processes_tab_content (processes_within page false i m)
  tab_content i (services_part m) = services_tab_content (services_within page false i m)
  tab_content i waiting_part = waiting_content

  -- The panel of the list of containers.
  unfoldable pub panel_content : PageInputs F q → PanelBody F → PanelContent F
  unfolding processes_within services_within
  panel_content i (overview_body v) = overview_panel v
  panel_content i (processes_body m) = processes_panel (processes_within container_detail true i m)
  panel_content i (services_body m) = services_panel (services_within container_detail true i m)
  panel_content i no_agent_metrics = notice_panel
