-- ===== src/Routes/ProcessesPage.antt =====
-- go/web/frontend/src/routes/processes/ProcessesPage.tsx as a whole: the selection in the URL, the
-- snapshot of the context or of the history, and the table with its panel. `lower` is
-- `toLowerCase`, `encode` is `encodeURIComponent`, `t` translates a key, `number` reads a number,
-- `count_text` prints the number of the samples, and `name_le a b` says that `a.localeCompare(b)` is
-- not positive.
pub mod Shown
pub mod Offline
pub mod Agents
use instace_metric_collector.Common.{ℕ, Str, codes, Bool, Option}
use instace_metric_collector.Common.Floats.{Floats}
use instace_metric_collector.Api.Types.{MetricsSnapshot}
use instace_metric_collector.Api.HistorySamples.{HistoryState}
use instace_metric_collector.Components.ServiceView.{SplitSurface}
use instace_metric_collector.Components.DetailPanels.{default_service_prefix}
use instace_metric_collector.Components.ProcessSplit.{TableState, TableView, process_split}
use instace_metric_collector.Routes.Layout.{HistoryView}
use instace_metric_collector.Routes.Snapshot.{Selection}
use instace_metric_collector.Routes.HistoryWorkbench.{Contexts}
use instace_metric_collector.Routes.Query.{Query}
use instace_metric_collector.Routes.Workbench.{selected_pid, on_select_pid}
use instace_metric_collector.Routes.PageView.{PageView, page_view}

module _ {F : Type 0} ⦃fl : Floats F⦄ (lower encode t : Str → Str)
    (name_le : Str → Str → Bool) where
  -- What `ProcessesContent` draws of a snapshot.
  unfoldable pub processes_content :
      SplitSurface → Option ℕ → TableState → MetricsSnapshot F → TableView
  processes_content surface pid s snap =
      process_split lower encode t name_le surface default_service_prefix snap.payload.process_infos
        snap.payload.service_infos pid s

  unfoldable pub processes_page :
      (q : Query)
      → (Str → Option ℕ)
      → (Str → Option ℕ)
      → (ℕ → Str)
      → SplitSurface
      → Bool
      → HistoryView
      → Contexts F
      → HistoryState F
      → Selection
      → q.Params
      → TableState
      → PageView TableView
  processes_page q number date_ms count_text surface show_title view cs h sel params s =
      page_view date_ms t count_text (processes_content surface (selected_pid q number params) s)
        surface show_title (t (codes "processes.pageTitle")) view cs h sel
