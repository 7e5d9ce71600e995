-- ===== src/Routes/Snapshot.antt =====
-- go/web/frontend/src/hooks/useSelectedHistorySnapshot.ts: which sample of a history is shown.
-- The samples come from the hook `useHistorySamples`. `setSampleIndex` gets the value of a range
-- input whose least value is 0, so an index is a natural number, and `Math.max(i, 0)` is `i`.
pub mod Chosen
use instace_metric_collector.Common.{
  ℕ, ◌-◌, ◌==◌, min, Str, Bool, true, false, not, ◌||◌, List, [], ◌∷◌, Option, length, get_elem?,
  if◌then◌else◌,
}
use instace_metric_collector.Api.Types.{MetricsSnapshot}
use instace_metric_collector.Domain.HistorySeries.{
  HistoryTimeRange, one_hour, six_hours, day, week, sort_samples_asc,
}

-- The index, and what the effect that resets it depends on, as of its last run.
pub record Selection : Type 0 where
  pub sample_index : ℕ
  pub seen_range : HistoryTimeRange
  pub seen_length : ℕ

abbrev range_eq : HistoryTimeRange → HistoryTimeRange → Bool
range_eq one_hour one_hour = true
range_eq six_hours six_hours = true
range_eq day day = true
range_eq week week = true
range_eq _ _ = false

-- After a render the effect runs if the range or the number of samples has changed.
unfoldable pub reset_effect : HistoryTimeRange → ℕ → Selection → Selection
reset_effect range n s =
    if not (range_eq s.seen_range range) || not (s.seen_length == n)
    then record { sample_index = 0; seen_range = range; seen_length = n }
    else s

unfoldable pub set_sample_index : ℕ → Selection → Selection
set_sample_index i s = record s { sample_index = i }

unfoldable pub safe_index : ℕ → ℕ → ℕ
safe_index n index = if n == 0 then 0 else min index (n - 1)

module _ {F : Type 0} (date_ms : Str → Option ℕ) where
  unfoldable pub snapshot : List (MetricsSnapshot F) → Selection → Option (MetricsSnapshot F)
  snapshot samples s =
      let sorted = sort_samples_asc date_ms samples in
      get_elem? sorted (safe_index (length sorted) s.sample_index)
