-- ===== src/Domain/HistorySeries.antt =====
-- go/web/frontend/src/lib/historySeries.ts and the ranges of context/HistoryViewContext.tsx.
-- `new Date(s).getTime()` is the parameter `date_ms`, `none` for an invalid date (NaN); instants
-- count from 1970 on, so a range that would begin earlier begins at 0, which cuts off no sample.
pub mod Laws
use instace_metric_collector.Common.{
  ℕ, ◌-◌, ◌*◌, Str, String, codes, leb, Bool, true, false, ◌&&◌, List, [], ◌∷◌, map, Option, none,
  some, length, keep, if◌then◌else◌,
}
use instace_metric_collector.Common.Sort.{sort_by}
use instace_metric_collector.Common.Floats.{Floats}
use instace_metric_collector.Api.Types.{MetricsSnapshot, DiskUsageInfo}

pub data HistoryTimeRange : Type 0 where
  one_hour six_hours day week : HistoryTimeRange

abbrev pub range_hours : HistoryTimeRange → ℕ
range_hours one_hour = 1
range_hours six_hours = 6
range_hours day = 24
range_hours week = 24 * 7

-- The clock's reading is an argument.
unfoldable pub history_range_bounds : ℕ → HistoryTimeRange → ℕ × ℕ
history_range_bounds now range = (now - range_hours range * 60 * 60 * 1000, now)

unfoldable pub resolution_for_range : HistoryTimeRange → Str
resolution_for_range week = codes "hourly"
resolution_for_range _ = codes "raw"

pub record HistoryPoint (F : Type 0) : Type 0 where
  pub at : Str
  pub value : F

module _ {F : Type 0} ⦃fl : Floats F⦄ where
  abbrev larger : F → F → F
  larger a b = if fl.lt a b then b else a

  -- `Math.max(x, ...xs)`.
  unfoldable pub maximum : F → List F → F
  maximum x [] = x
  maximum x (y ∷ ys) = larger x (maximum y ys)

  max_of_disks : List (DiskUsageInfo F) → F
  max_of_disks [] = fl.of_nat 0
  max_of_disks (d ∷ ds) = maximum d.use_percent (map (λ e. e.use_percent) ds)

  unfoldable pub max_disk_percent : MetricsSnapshot F → F
  unfolding max_of_disks maximum
  max_disk_percent snap = max_of_disks snap.payload.disk_usage

  -- `total > 0 ? (used / total) * 100 : 0`, which several pages write out.
  unfoldable pub ratio_percent : ℕ → ℕ → F
  ratio_percent used total =
      if leb total 0
      then fl.of_nat 0
      else fl.mul (fl.div (fl.of_nat used) (fl.of_nat total)) (fl.of_nat 100)

  unfoldable pub memory_percent : MetricsSnapshot F → F
  unfolding ratio_percent
  memory_percent snap = ratio_percent snap.payload.used_memory snap.payload.total_memory

  unfoldable pub cpu_series : List (MetricsSnapshot F) → List (HistoryPoint F)
  cpu_series = map (λ s. record { at = s.collected_at; value = s.payload.cpu_load })

  unfoldable pub memory_series : List (MetricsSnapshot F) → List (HistoryPoint F)
  unfolding memory_percent
  memory_series = map (λ s. record { at = s.collected_at; value = memory_percent s })

  unfoldable pub disk_series : List (MetricsSnapshot F) → List (HistoryPoint F)
  disk_series samples =
      keep (λ p. fl.lt (fl.of_nat 0) p.value)
        (map (λ s. record { at = s.collected_at; value = max_disk_percent s }) samples)

  unfoldable pub container_series : List (MetricsSnapshot F) → List (HistoryPoint F)
  container_series =
      map (λ s. record { at = s.collected_at; value = fl.of_nat (length s.payload.containers) })

-- The comparison of two instants is not positive; that with an invalid date is NaN, read as 0.
abbrev pub not_after : Option ℕ → Option ℕ → Bool
not_after (some a) (some b) = leb a b
not_after (some a) none = true
not_after none b = true

abbrev within : ℕ × ℕ → Option ℕ → Bool
within (from, to) none = false
within (from, to) (some t) = leb from t && leb t to

module _ {F : Type 0} (date_ms : Str → Option ℕ) where
  unfoldable pub sort_samples_asc : List (MetricsSnapshot F) → List (MetricsSnapshot F)
  sort_samples_asc = sort_by (λ a b. not_after (date_ms a.collected_at) (date_ms b.collected_at))

  unfoldable pub filter_samples_by_range :
      ℕ → List (MetricsSnapshot F) → HistoryTimeRange → List (MetricsSnapshot F)
  filter_samples_by_range now samples range =
      keep (λ s. within (history_range_bounds now range) (date_ms s.collected_at)) samples
