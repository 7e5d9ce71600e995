-- ===== src/Routes/ServicesPage.antt =====
-- go/web/frontend/src/routes/services/ServicesPage.tsx as a whole: the selection in the URL, the
-- snapshot of the context or of the history, and the services with the panel. `lower` is
-- `toLowerCase`, `t` translates a key, `count_text` prints the number of the samples, and
-- `name_le a b` says that `a.localeCompare(b)` is not positive.
pub mod Shown
use instace_metric_collector.Common.{ℕ, Str, codes, Bool, Option}
use instace_metric_collector.Common.Floats.{Floats}
use instace_metric_collector.Api.Types.{MetricsSnapshot}
use instace_metric_collector.Api.HistorySamples.{HistoryState}
use instace_metric_collector.Components.ServiceView.{SplitSurface}
use instace_metric_collector.Components.DetailPanels.{default_process_prefix}
use instace_metric_collector.Components.ServiceSplit.{SplitState, SplitView, service_split}
use instace_metric_collector.Routes.Layout.{HistoryView}
use instace_metric_collector.Routes.Snapshot.{Selection}
use instace_metric_collector.Routes.HistoryWorkbench.{Contexts}
use instace_metric_collector.Routes.Query.{Query}
use instace_metric_collector.Routes.Workbench.{selected_name}
use instace_metric_collector.Routes.PageView.{PageView, page_view}

module _ {F : Type 0} ⦃fl : Floats F⦄ (lower t : Str → Str) (name_le : Str → Str → Bool) where
  -- What `ServicesContent` draws of a snapshot.
  unfoldable pub services_content : Option Str → SplitState → MetricsSnapshot F → SplitView
  services_content name s snap =
      service_split lower t name_le default_process_prefix snap.payload.service_infos
        snap.payload.process_infos name s

  unfoldable pub services_page :
      (q : Query)
      → (Str → Option ℕ)
      → (ℕ → Str)
      → SplitSurface
      → Bool
      → HistoryView
      → Contexts F
      → HistoryState F
      → Selection
      → q.Params
      → SplitState
      → PageView SplitView
  services_page q date_ms count_text surface show_title view cs h sel params s =
      page_view date_ms t count_text (services_content (selected_name q params) s) surface
        show_title (t (codes "services.pageTitle")) view cs h sel
