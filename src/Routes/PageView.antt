-- ===== src/Routes/PageView.antt =====
-- What the pages of the processes and of the services, go/web/frontend/src/routes/processes and
-- routes/services, have in common: their early returns, and their content in the history workbench.
pub mod Following
use instace_metric_collector.Common.{ℕ, Str, Bool, true, false, ◌&&◌, Option, none, some}
use instace_metric_collector.Api.Types.{MetricsSnapshot}
use instace_metric_collector.Api.HistorySamples.{HistoryState}
use instace_metric_collector.Components.ServiceView.{SplitSurface}
use instace_metric_collector.Routes.Layout.{HistoryView}
use instace_metric_collector.Routes.Snapshot.{Selection}
use instace_metric_collector.Routes.HistoryWorkbench.{
  BenchView, Contexts, page_context, content_context, history_workbench,
}
use instace_metric_collector.Routes.Workbench.{
  is_page, is_history, WorkbenchPage, waiting_page, plain_content, in_workbench, workbench_page,
}

-- That the page waits, its content, or its content in the frame; `none` is a content that is empty.
pub data PageView (C : Type 0) : Type 0 where
  waiting_view : PageView C
  bare_view : Option C → PageView C
  bench_view : BenchView (Option C) → PageView C

-- `if (!snapshot) return null`, and else what is drawn of it.
unfoldable pub page_content :
    {F C : Type 0} → (MetricsSnapshot F → C) → Option (MetricsSnapshot F) → Option C
page_content draw none = none
page_content draw (some snap) = some (draw snap)

-- `showTitle ? t(…) : undefined`.
abbrev title_if : Bool → Str → Option Str
title_if true title = some title
title_if false title = none

-- Whether the page follows the history.
abbrev pub follows_history : SplitSurface → HistoryView → Bool
follows_history surface view = is_page surface && is_history view.view_mode

module _ {F C : Type 0} (date_ms : Str → Option ℕ) (t : Str → Str) (count_text : ℕ → Str)
    (draw : MetricsSnapshot F → C) where
  unfoldable pub page_of :
      WorkbenchPage → Str → HistoryView → Contexts F → HistoryState F → Selection → PageView C
  page_of waiting_page title view cs h sel = waiting_view
  page_of plain_content title view cs h sel =
      bare_view (page_content draw (content_context cs).snapshot)
  page_of (in_workbench has_title) title view cs h sel = bench_view (
      history_workbench date_ms t count_text (λ c. page_content draw c.snapshot)
        (title_if has_title title) view (content_context cs) h sel)

  unfoldable pub page_view :
      SplitSurface → Bool → Str → HistoryView → Contexts F → HistoryState F → Selection → PageView C
  unfolding page_of
  page_view surface show_title title view cs =
      page_of (workbench_page surface show_title view.view_mode (page_context cs).snapshot) title
        view cs
