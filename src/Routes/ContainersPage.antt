-- ===== src/Routes/ContainersPage.antt =====
-- `ContainersPage` of go/web/frontend/src/routes/containers/ContainersPage.tsx as a whole: the
-- containers of the context or of the history, in the frame of the pages with a history. `lower` is
-- `toLowerCase`, `t` translates a key, and `count_text` prints the number of the samples.
pub mod Shown
use instace_metric_collector.Common.{ℕ, Str, codes, Bool, true, Option, some}
use instace_metric_collector.Api.Types.{MetricsSnapshot}
use instace_metric_collector.Api.HistorySamples.{HistoryState}
use instace_metric_collector.Routes.Layout.{HistoryView}
use instace_metric_collector.Routes.Snapshot.{Selection}
use instace_metric_collector.Routes.HistoryWorkbench.{Contexts, page_context}
use instace_metric_collector.Routes.Workbench.{WorkbenchPage}
use instace_metric_collector.Routes.PageView.{PageView, page_of}
use instace_metric_collector.Routes.Containers.{
  WorkbenchState, WorkbenchView, containers_view, containers_page,
}

-- What `ContainersWorkbench` draws of a snapshot.
unfoldable pub containers_content :
    {F : Type 0} → (Str → Str) → WorkbenchState → MetricsSnapshot F → WorkbenchView
containers_content lower s snap = containers_view lower snap.payload.containers s

module _ {F : Type 0} (lower t : Str → Str) (date_ms : Str → Option ℕ) (count_text : ℕ → Str) where
  unfoldable pub containers_shown :
      HistoryView
      → Contexts F
      → HistoryState F
      → Selection
      → WorkbenchState
      → PageView WorkbenchView
  containers_shown view cs h sel s =
      page_of date_ms t count_text (containers_content lower s)
        (containers_page view.view_mode (page_context cs).snapshot)
        (t (codes "containers.pageTitle")) view cs h sel
