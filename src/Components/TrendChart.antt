-- ===== src/Components/TrendChart.antt =====
-- go/web/frontend/src/components/MetricTrendChart.tsx: the coordinates, the paths and the texts of
-- a chart. `date_text` is what `toLocaleString` prints of a date, `none` for an invalid one.
pub mod Plot
use instace_metric_collector.Common.{
  ℕ, zero, suc, ◌+◌, ◌-◌, max, Str, codes, join, length, Bool, List, [], ◌∷◌, ◌++◌, map, Option,
  none, some,
}
use instace_metric_collector.Common.Floats.{Floats}
use instace_metric_collector.Domain.HistorySeries.{HistoryPoint}
use instace_metric_collector.Routes.History.{scale_max}

abbrev pub width : ℕ
width = 640

abbrev pub height : ℕ
height = 140

-- `PAD`.
abbrev pub pad_top : ℕ
pad_top = 12

abbrev pub pad_right : ℕ
pad_right = 12

abbrev pub pad_bottom : ℕ
pad_bottom = 28

abbrev pub pad_left : ℕ
pad_left = 44

abbrev pub inner_w : ℕ
inner_w = width - pad_left - pad_right

abbrev pub inner_h : ℕ
inner_h = height - pad_top - pad_bottom

-- `isNaN(d.getTime()) ? iso : d.toLocaleString(…)`.
unfoldable pub format_axis_time : (Str → Option Str) → Str → Str
format_axis_time date_text iso = or_iso (date_text iso)
  where
    or_iso : Option Str → Str
    or_iso none = iso
    or_iso (some text) = text

module _ {F : Type 0} ⦃fl : Floats F⦄ where
  unfoldable pub x_at : ℕ → ℕ → F
  x_at count i =
      fl.add (fl.of_nat pad_left)
        (fl.mul (fl.div (fl.of_nat i) (fl.of_nat (max (count - 1) 1))) (fl.of_nat inner_w))

  unfoldable pub y_at : F → F → F
  y_at y_max v =
      fl.sub (fl.of_nat (pad_top + inner_h)) (fl.mul (fl.div v y_max) (fl.of_nat inner_h))

  -- The coordinates of the points from the place `i` on.
  unfoldable pub plot_from : ℕ → F → ℕ → List (HistoryPoint F) → List (F × F)
  unfolding x_at y_at
  plot_from count y_max i [] = []
  plot_from count y_max i (p ∷ points) =
      (x_at count i, y_at y_max p.value) ∷ plot_from count y_max (suc i) points

  unfoldable pub plot : F → List (HistoryPoint F) → List (F × F)
  unfolding plot_from
  plot top points = plot_from (length points) (scale_max top points) 0 points

  command : Str → F × F → Str
  command letter (x, y) = letter ++ codes " " ++ fl.to_fixed x 1 ++ codes " " ++ fl.to_fixed y 1

  commands : List (F × F) → List Str
  unfolding command
  commands [] = []
  commands (q ∷ qs) = command (codes "M") q ∷ map (command (codes "L")) qs

  unfoldable pub line_path : List (F × F) → Str
  unfolding commands
  line_path qs = join (codes " ") (commands qs)

  unfoldable pub area_path : F → F → Str → Str
  area_path first_x last_x line =
      line
      ++ codes " L "
      ++ fl.to_fixed last_x 1
      ++ codes " "
      ++ fl.to_fixed (fl.of_nat (pad_top + inner_h)) 1
      ++ codes " L "
      ++ fl.to_fixed first_x 1
      ++ codes " "
      ++ fl.to_fixed (fl.of_nat (pad_top + inner_h)) 1
      ++ codes " Z"

-- What is drawn: the paths, the value of the last point, the scale's texts and where they stand,
-- and the dates below.
pub record TrendView (F : Type 0) : Type 0 where
  pub line : Str
  pub area : Str
  pub value : Str
  pub top_text : Str
  pub top_y : F
  pub middle_text : Str
  pub middle_y : F
  pub first_label : Str
  pub last_label : Str

abbrev last_of : {A : Type 0} → A → List A → A
last_of x [] = x
last_of x (y ∷ ys) = last_of y ys

-- Without a point there is no chart, and a dash is shown.
unfoldable pub trend_chart :
    {F : Type 0} ⦃fl : Floats F⦄
    → (Str → Option Str)
    → (F → Str)
    → F
    → List (HistoryPoint F)
    → Option (TrendView F)
trend_chart date_text format_value top [] = none
trend_chart {F} ⦃fl⦄ date_text format_value top (p ∷ points) =
    let y_max = scale_max top (p ∷ points) in
    let line = line_path (plot top (p ∷ points)) in
    let count = length (p ∷ points) in
    let first_x : F = x_at count 0 in
    let last_x : F = x_at count (count - 1) in
    let middle = fl.div y_max (fl.of_nat 2) in
    some (record {
      line = line;
      area = area_path first_x last_x line;
      value = format_value (last_of p points).value;
      top_text = format_value y_max;
      top_y = fl.add (y_at y_max y_max) (fl.of_nat 4);
      middle_text = format_value middle;
      middle_y = fl.add (y_at y_max middle) (fl.of_nat 4);
      first_label = format_axis_time date_text p.at;
      last_label = format_axis_time date_text (last_of p points).at;
    })
