-- ===== src/Routes/HistoryWorkbench.antt =====
-- The frame that the pages with a history share: go/web/frontend/src/components/HistoryWorkbench.tsx
-- in components/layout/PageShell.tsx, with the result of hooks/useSelectedHistorySnapshot.ts and the
-- context of context/MetricsContext.tsx. `t` translates a key, `count_text` prints the number of the
-- samples, and `date_ms` reads a date.
pub mod Source
use instace_metric_collector.Common.{
  ℕ, Str, nonempty, Bool, false, List, [], ◌∷◌, Option, none, some, or_else, length, if◌then◌else◌,
}
use instace_metric_collector.Api.Types.{MetricsSnapshot}
use instace_metric_collector.Api.Metrics.{MetricsState}
use instace_metric_collector.Api.HistorySamples.{HistoryState}
use instace_metric_collector.Domain.HistorySeries.{HistoryTimeRange, sort_samples_asc}
use instace_metric_collector.Components.TimeBar.{TimeBarView, time_bar}
use instace_metric_collector.Routes.Layout.{ViewMode, live_view, history_view, HistoryView}
use instace_metric_collector.Routes.Snapshot.{Selection, safe_index, snapshot}
use instace_metric_collector.Routes.History.{Part, content, workbench}

-- `useMetricsContext`: the value of the nearest provider, or that of the hook of the component that
-- calls it.
unfoldable pub use_metrics_context :
    {F : Type 0} → Option (MetricsState F) → MetricsState F → MetricsState F
use_metrics_context ctx fallback = or_else ctx fallback

-- What a page and its content read: the nearest provider above the page, if there is one, and the
-- states of the `useMetrics` of their own that each of the two runs.
pub record Contexts (F : Type 0) : Type 0 where
  pub provider : Option (MetricsState F)
  pub page_own : MetricsState F
  pub content_own : MetricsState F

unfoldable pub page_context : {F : Type 0} → Contexts F → MetricsState F
unfolding use_metrics_context
page_context cs = use_metrics_context cs.provider cs.page_own

-- That of the content, where the frame provides nothing.
unfoldable pub content_context : {F : Type 0} → Contexts F → MetricsState F
unfolding use_metrics_context
content_context cs = use_metrics_context cs.provider cs.content_own

-- A page and its content below a provider of that value.
unfoldable pub within_provider :
    {F : Type 0} → MetricsState F → MetricsState F → MetricsState F → Contexts F
within_provider ctx page_own content_own = record {
  provider = some ctx;
  page_own = page_own;
  content_own = content_own;
}

-- What `useSelectedHistorySnapshot` returns, but for the setters.
pub record SelectedHistory (F : Type 0) : Type 0 where
  pub time_range : HistoryTimeRange
  pub samples : List (MetricsSnapshot F)
  pub sample_index : ℕ
  pub shown : Option (MetricsSnapshot F)
  pub loading : Bool
  pub error : Option Str

-- `title && <h1>…`.
abbrev heading : Option Str → Option Str
heading none = none
heading (some title) = if nonempty title then some title else none

-- The frame: its heading, the bar above a history, and what stands below.
pub record BenchView (C : Type 0) : Type 0 where
  pub title : Option Str
  pub bar : Option TimeBarView
  pub body : List (Part C)

abbrev date_of : {F : Type 0} → Option (MetricsSnapshot F) → Option Str
date_of none = none
date_of (some snap) = some snap.collected_at

module _ {F : Type 0} (date_ms : Str → Option ℕ) where
  unfoldable pub selected_history :
      HistoryTimeRange → HistoryState F → Selection → SelectedHistory F
  selected_history range h sel =
      let sorted = sort_samples_asc date_ms h.samples in
      record {
        time_range = range;
        samples = sorted;
        sample_index = safe_index (length sorted) sel.sample_index;
        shown = snapshot date_ms h.samples sel;
        loading = h.loading;
        error = h.error;
      }

  -- The context of the children: a provider is there if a sample is shown.
  unfoldable pub provided : Option (MetricsSnapshot F) → Option (MetricsState F)
  provided none = none
  provided (some snap) = some (record {
    snapshot = some snap;
    live = false;
    last_update = some (date_ms snap.collected_at);
  })

  -- `C` is what the children draw in a context, which is `outer`, theirs outside the frame, unless
  -- the frame provides one.
  module _ {C : Type 0} (t : Str → Str) (count_text : ℕ → Str) (draw : MetricsState F → C) where
    bench_in :
        ViewMode
        → Option Str
        → HistoryTimeRange
        → MetricsState F
        → HistoryState F
        → Selection
        → BenchView C
    unfolding selected_history provided use_metrics_context
    bench_in live_view title range outer h sel = record {
      title = heading title;
      bar = none;
      body = content (draw outer) ∷ [];
    }
    bench_in history_view title range outer h sel =
        let history = selected_history range h sel in
        record {
          title = heading title;
          bar = some (
              time_bar t count_text history.time_range history.sample_index (length history.samples)
                (date_of history.shown));
          body =
              workbench (draw (use_metrics_context (provided history.shown) outer)) h history.shown;
        }

    unfoldable pub history_workbench :
        Option Str → HistoryView → MetricsState F → HistoryState F → Selection → BenchView C
    unfolding bench_in
    history_workbench title view = bench_in view.view_mode title view.time_range
