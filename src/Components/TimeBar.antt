-- ===== src/Components/TimeBar.antt =====
-- go/web/frontend/src/components: TimeRangePicker.tsx and HistoryTimeBar.tsx. `t` translates a key,
-- and `count_text` the number of the samples.
pub mod Choosing
use instace_metric_collector.Common.{
  ℕ, ◌-◌, ltb, leb, Str, codes, nonempty, Bool, List, [], ◌∷◌, ◌++◌, map, Option, none, some,
  if◌then◌else◌,
}
use instace_metric_collector.Domain.HistorySeries.{HistoryTimeRange, one_hour, six_hours, day, week}
use instace_metric_collector.Components.Tabs.{Tab, TabRow, segmented_control}

abbrev pub range_id : HistoryTimeRange → Str
range_id one_hour = codes "1h"
range_id six_hours = codes "6h"
range_id day = codes "24h"
range_id week = codes "7d"

abbrev pub ranges : List HistoryTimeRange
ranges = one_hour ∷ six_hours ∷ day ∷ week ∷ []

module _ (t : Str → Str) where
  unfoldable pub range_options : List Tab
  range_options =
      map (λ r. record { id = range_id r; label = t (codes "history.range." ++ range_id r) }) ranges

  unfoldable pub time_range_picker : HistoryTimeRange → TabRow
  unfolding range_options
  time_range_picker value = segmented_control range_options (range_id value)

-- The slider, and the date of the sample above it.
pub record Slider : Type 0 where
  pub maximum : ℕ
  pub value : ℕ
  pub is_disabled : Bool
  pub collected_at : Option Str

pub record TimeBarView : Type 0 where
  pub picker : TabRow
  pub count : Str
  pub slider : Option Slider

-- `Math.max(sampleCount - 1, 0)`: the subtraction on ℕ stops at 0.
unfoldable pub max_index : ℕ → ℕ
max_index sample_count = sample_count - 1

abbrev given_text : Option Str → Option Str
given_text none = none
given_text (some s) = if nonempty s then some s else none

unfoldable pub slider : ℕ → ℕ → Option Str → Option Slider
slider sample_index sample_count collected_at =
    if ltb 0 sample_count
    then some (record {
      maximum = max_index sample_count;
      value = sample_index;
      is_disabled = leb sample_count 1;
      collected_at = given_text collected_at;
    })
    else none

unfoldable pub time_bar :
    (Str → Str) → (ℕ → Str) → HistoryTimeRange → ℕ → ℕ → Option Str → TimeBarView
time_bar t count_text range sample_index sample_count collected_at = record {
  picker = time_range_picker t range;
  count = count_text sample_count;
  slider = slider sample_index sample_count collected_at;
}
