-- ===== src/Examples/Shell.antt =====
-- The shell, the side bar and the components of the history on examples.
use native.Mathlib.Nat.{div-le_of_le-mul}
use instace_metric_collector.Common.{
  In, there, ℕ, zero, suc, leb, ◌<◌, ◌/◌, ◌≤◌, ◌+◌, ◌*◌, Str, codes, none, some, List, [], ◌∷◌,
  length, All, here, true, false, ◌≡◌, refl, arith,
}
use instace_metric_collector.Common.Floats.{nat_floats}
use instace_metric_collector.Api.Types.{MetaResponse, MetricsSnapshot}
use instace_metric_collector.Api.Client.{Fetched, response, json, api_get}
use instace_metric_collector.Domain.HistorySeries.{sort_samples_asc, HistoryPoint, day}
use instace_metric_collector.Components.CopyButton.{CopyState, button_label, Step, click, written}
use instace_metric_collector.Components.CopyButton.Settling.{
  Reach, start, next, Run, stay, go, IsQuiet, copy_settles,
}
use instace_metric_collector.Components.TimeBar.{Slider, slider}
use instace_metric_collector.Components.TimeBar.Choosing.{slider_reaches}
use instace_metric_collector.Components.TrendChart.{plot, pad_left, pad_top, inner_w, inner_h}
use instace_metric_collector.Components.TrendChart.Plot.{Within, IsRounded, plot_in_frame}
use instace_metric_collector.Navigation.Shell.{Instant, ShellState, AppView}
use instace_metric_collector.Navigation.Shell.Stages.{
  IsShell, IsNotice, Gives, page, app_after_answer,
}
use instace_metric_collector.Routes.Snapshot.{Selection, set_sample_index, safe_index, snapshot}
use instace_metric_collector.Examples.Lists.{nat_IsOrdered}
use instace_metric_collector.Examples.Data.{plain, dates, snap_a, snap_b, hub_meta}

abbrev code_x : Str → Str
code_x s = codes "x"

abbrev clock : Instant → Str → Str
clock i language = codes "12:00"

abbrev state : ShellState
state = record { global_search = []; language = codes "en"; stored_locale = none }

abbrev meta_answer : Fetched MetaResponse
meta_answer = response 200 (json (some hub_meta))

abbrev first_page : AppView
first_page =
    page plain clock state (codes "/hub") [] false none (api_get (codes "/api/meta") meta_answer)

app_after_answer_example :
    ((m : MetaResponse)
      → Gives plain clock state (codes "/hub") [] false none meta_answer m
      → IsShell plain clock state (codes "/hub") [] false none m first_page)
    × (((m : MetaResponse) → Gives plain clock state (codes "/hub") [] false none meta_answer m → ⊥)
        → IsNotice plain clock state (codes "/hub") [] false none first_page)
app_after_answer_example =
    app_after_answer plain clock state (codes "/hub") [] false none meta_answer tt

abbrev after_click : CopyState
after_click = record { copied = false; writes = 1; timers = 0 }

abbrev after_write : CopyState
after_write = record { copied = true; writes = 0; timers = 1 }

clicked : Reach after_click
clicked = next start (click false 0 0)

wrote : Run after_click 1 after_write
wrote = go stay (written false 0 0) tt

copy_settles_example :
    (1 ≤ 2)
    × (((u : CopyState) (st : Step after_write u) → IsQuiet st → ⊥)
        → button_label plain none after_write ≡ codes "containers.detail.copyId")
copy_settles_example = copy_settles plain none clicked wrote

abbrev at_start : Selection
at_start = record { sample_index = 0; seen_range = day; seen_length = 2 }

abbrev two : List (MetricsSnapshot ℕ)
two = snap_b ∷ snap_a ∷ []

all_dated : (x : MetricsSnapshot ℕ) → In x two → (t : ℕ) × (dates x.collected_at ≡ some t)
all_dated x (here e) = rw e (_, refl)
all_dated x (there (here e)) = rw e (_, refl)
all_dated x (there (there m)) = elim m [ ]

slider_reaches_example :
    (v : Slider) × (slider
        (safe_index (length (sort_samples_asc dates two)) 0)
        (length (sort_samples_asc dates two))
        none
      ≡ some v)
    × ((i : ℕ)
        → i ≤ v.maximum
        → (x : MetricsSnapshot ℕ) × In x two
          × (snapshot dates two (set_sample_index i at_start) ≡ some x))
    × ((i : ℕ) × (i ≤ v.maximum) × (snapshot dates two (set_sample_index i at_start) ≡ some snap_b))
    × ((i j : ℕ) (a b : MetricsSnapshot ℕ) (p q : ℕ)
        → i < j
        → j ≤ v.maximum
        → snapshot dates two (set_sample_index i at_start) ≡ some a
        → snapshot dates two (set_sample_index j at_start) ≡ some b
        → dates a.collected_at ≡ some p
        → dates b.collected_at ≡ some q
        → p ≤ q)
slider_reaches_example = slider_reaches dates two at_start none snap_b (here refl) all_dated

unit_mul : (q h : ℕ) → q ≤ 1 → (leb 0 (q * h) ≡ true) × (leb (q * h) h ≡ true)
unit_mul zero h l = (ground arith, ground arith)
unit_mul (suc zero) h l = (ground arith, ground arith)
unit_mul (suc (suc q)) h l = absurd (omega arith)

unit_div : (a b : ℕ) → a ≤ b → 0 < b → leb (a / b) 1 ≡ true
unit_div a b l p = let h : a / b ≤ 1 = div-le_of_le-mul b (omega arith) in ground arith

nat_IsRounded : IsRounded nat_floats
nat_IsRounded = record {
  of_nat_le = λ m n h. ground arith;
  one_positive = refl;
  div_unit = λ a b low high pos. (ground arith, unit_div a b (ground arith) (ground arith));
  mul_unit = λ q h k (low, high). unit_mul q h (ground arith);
  add_within = λ d a h k (low, high). (ground arith, ground arith);
  sub_within = λ d a h k (low, high). (ground arith, ground arith);
}

abbrev cpu_points : List (HistoryPoint ℕ)
cpu_points = record { at = codes "a"; value = 20 } ∷ record { at = codes "b"; value = 100 } ∷ []

plot_in_frame_example :
    (length (plot 100 cpu_points) ≡ 2)
    × All
        (λ q.
          Within nat_floats q.0 pad_left (pad_left + inner_w)
          × Within nat_floats q.1 pad_top (pad_top + inner_h))
        (plot 100 cpu_points)
plot_in_frame_example = plot_in_frame nat_IsOrdered nat_IsRounded 100 cpu_points (refl, (refl, tt))
