-- ===== src/Routes/History.antt =====
-- go/web/frontend/src/routes/dashboard/DashboardHistoryView.tsx and components/HistoryWorkbench.tsx:
-- what the pages show of a history, with the scale of components/MetricTrendChart.tsx. `t`
-- translates a key.
pub mod Parts
pub mod Content
use instace_metric_collector.Common.{
  ℕ, Str, String, codes, is_empty, nonempty, Bool, true, false, not, ◌&&◌, List, [], ◌∷◌, ◌++◌, map,
  any, Option, none, some, if◌then◌else◌,
}
use instace_metric_collector.Common.Floats.{Floats}
use instace_metric_collector.Api.Types.{MetricsSnapshot}
use instace_metric_collector.Api.HistorySamples.{HistoryState}
use instace_metric_collector.Domain.HistorySeries.{
  HistoryPoint, maximum, cpu_series, memory_series, disk_series, container_series,
}

-- A chart: its points and the largest value of its scale.
pub record Chart (F : Type 0) : Type 0 where
  pub label : Str
  pub points : List (HistoryPoint F)
  pub y_max : F

abbrev pub no_samples : {A : Type 0} → List A → Bool
no_samples [] = true
no_samples (x ∷ xs) = false

-- `if (error)`: an empty message counts as none.
abbrev pub has_error : Option Str → Bool
has_error none = false
has_error (some message) = nonempty message

-- `Math.max(max, ...values, 1)`.
unfoldable pub scale_max : {F : Type 0} ⦃fl : Floats F⦄ → F → List (HistoryPoint F) → F
scale_max ⦃fl⦄ max points = maximum max (map (λ p. p.value) points ++ fl.of_nat 1 ∷ [])

module _ {F : Type 0} ⦃fl : Floats F⦄ (t : Str → Str) where
  chart : String → F → List (HistoryPoint F) → Chart F
  unfolding scale_max
  chart label max points = record {
    label = t (codes label);
    points = points;
    y_max = scale_max max points;
  }

  unfoldable pub history_charts : List (MetricsSnapshot F) → List (Chart F)
  unfolding chart
  history_charts samples =
      let cpu = chart "card.cpu" (fl.of_nat 100) (cpu_series samples) in
      let memory = chart "card.memory" (fl.of_nat 100) (memory_series samples) in
      let disk = chart "section.disk" (fl.of_nat 100) (disk_series samples) ∷ [] in
      let containers =
        chart "card.containers" (scale_max (fl.of_nat 1) (container_series samples))
          (container_series samples)
        ∷ [] in
      cpu
      ∷ memory
      ∷ ((if no_samples (disk_series samples) then [] else disk)
          ++ (if any (λ p. fl.lt (fl.of_nat 0) p.value) (container_series samples)
              then containers
              else []))

-- What stands below the choice of the range; `C` is what is drawn of the samples.
pub data Part (C : Type 0) : Type 0 where
  error_part loading_part empty_part : Part C
  content : C → Part C

abbrev when : {A : Type 0} → Bool → A → List A → List A
when true x rest = x ∷ rest
when false x rest = rest

-- The four conditions, in the order of the page.
unfoldable pub parts : {F C : Type 0} → C → HistoryState F → List (Part C)
parts drawn s = when (has_error s.error) error_part (
    when (s.loading && no_samples s.samples) loading_part (
      when (not s.loading && (no_samples s.samples && not (has_error s.error))) empty_part
        (when (not (no_samples s.samples)) (content drawn) [])))

unfoldable pub history_page :
    {F : Type 0} ⦃fl : Floats F⦄ → (Str → Str) → HistoryState F → List (Part (List (Chart F)))
history_page t s = parts (history_charts t s.samples) s

-- The workbench has the same conditions on its snapshot, which it has exactly if there is a sample.
unfoldable pub workbench :
    {F C : Type 0} → C → HistoryState F → Option (MetricsSnapshot F) → List (Part C)
workbench drawn s none =
    when (has_error s.error) error_part
      (when s.loading loading_part (when (not s.loading && not (has_error s.error)) empty_part []))
workbench drawn s (some snap) = when (has_error s.error) error_part (content drawn ∷ [])
