-- ===== src/Components/TimeBar/Choosing.antt =====
-- What the time bar marks, and which samples its slider can choose.
use instace_metric_collector.Common.{
  ℕ, zero, suc, ◌≤◌, ◌<◌, ltb, leb, Str, same, Bool, true, List, [], ◌∷◌, length, get_elem?, In,
  here, there, Option, some, or_else, leb→le, All-of_In, ◌≡◌, refl, sym, ap, ◌∙◌, arith,
}
use instace_metric_collector.Common.Sort.{
  In-sort_by, sort_by, sort_by-In, sort_by_congr, sorted_at, sort_by-IsSorted, elem-In,
}
use instace_metric_collector.Api.Types.{MetricsSnapshot}
use instace_metric_collector.Domain.HistorySeries.{
  HistoryTimeRange, one_hour, six_hours, day, week, sort_samples_asc,
}
use instace_metric_collector.Domain.HistorySeries.Laws.{leb-IsPreorder}
use instace_metric_collector.Components.Tabs.{
  Tab, TabRow, marker, marker_index, find_index, pill_tabs, segmented_control,
}
use instace_metric_collector.Components.TimeBar.{
  range_id, range_options, time_range_picker, Slider, max_index, given_text, slider,
}
use instace_metric_collector.Routes.Snapshot.{Selection, set_sample_index, safe_index, snapshot}

-- The button at the marker.
abbrev marked : TabRow → Option (Tab × Bool)
marked row = get_elem? row.buttons row.marker.index

position : HistoryTimeRange → ℕ
position one_hour = 0
position six_hours = 1
position day = 2
position week = 3

range_at : ℕ → HistoryTimeRange
range_at zero = one_hour
range_at (suc zero) = six_hours
range_at (suc (suc zero)) = day
range_at (suc (suc (suc n))) = week

at_position : (range : HistoryTimeRange) → range_at (position range) ≡ range
unfolding range_at position
at_position one_hour = refl
at_position six_hours = refl
at_position day = refl
at_position week = refl

picker_index :
    (t : Str → Str) (range : HistoryTimeRange)
    → (time_range_picker t range).marker.index ≡ position range
unfolding time_range_picker range_options segmented_control pill_tabs marker marker_index find_index
    same position
picker_index t one_hour = refl
picker_index t six_hours = refl
picker_index t day = refl
picker_index t week = refl

picker_marked :
    (t : Str → Str) (range : HistoryTimeRange)
    → (tab : Tab) × (marked (time_range_picker t range) ≡ some (tab, true))
      × (tab.id ≡ range_id range)
unfolding time_range_picker range_options segmented_control pill_tabs marker marker_index find_index
    same
picker_marked t one_hour = (_, refl, refl)
picker_marked t six_hours = (_, refl, refl)
picker_marked t day = (_, refl, refl)
picker_marked t week = (_, refl, refl)

-- For each range the marker of the picker stands behind the button of that range, which is the
-- active one, and no other range has its marker there.
pub time_range_picker_lem :
    (t : Str → Str) (range : HistoryTimeRange)
    → ((tab : Tab) × (marked (time_range_picker t range) ≡ some (tab, true))
        × (tab.id ≡ range_id range))
      × ((other : HistoryTimeRange)
          → (time_range_picker t other).marker.index ≡ (time_range_picker t range).marker.index
          → other ≡ range)
time_range_picker_lem t range = (
  picker_marked t range,
  λ other e.
      sym (at_position other)
      ∙ (ap range_at (sym (picker_index t other) ∙ (e ∙ picker_index t range)) ∙ at_position range),
)

index_of {ℓ} :
    {A : Type ℓ} (xs : List A) {y : A}
    → In y xs
    → (i : ℕ) × (i < length xs) × (get_elem? xs i ≡ some y)
index_of [] m = elim m [ ]
index_of (x ∷ xs) (here e) = (0, omega arith, ap some (sym e))
index_of (x ∷ xs) (there m) = let (i, l, e) = index_of xs m in (suc i, omega arith, e)

at_index {ℓ} :
    {A : Type ℓ} (xs : List A) (i : ℕ) → i < length xs → (x : A) × (get_elem? xs i ≡ some x)
at_index [] i h = absurd (omega (arith, h))
at_index (x ∷ xs) zero h = (x, refl)
at_index (x ∷ xs) (suc i) h = at_index xs i (omega (arith, h))

in_range : (n i : ℕ) → i < n → safe_index n i ≡ i
unfolding safe_index
in_range n i h = ground arith

sorted_empty :
    {F : Type 0} (date_ms : Str → Option ℕ) (samples : List (MetricsSnapshot F))
    {y : MetricsSnapshot F}
    → In y samples
    → 0 < length (sort_samples_asc date_ms samples)
unfolding sort_samples_asc
sorted_empty date_ms samples m =
    let (i, l, e) = index_of (sort_samples_asc date_ms samples) (In-sort_by _ samples m) in
    omega (arith, l)

module _ {F : Type 0} (date_ms : Str → Option ℕ) (samples : List (MetricsSnapshot F))
    (s : Selection) where
  abbrev sorted : List (MetricsSnapshot F)
  sorted = sort_samples_asc date_ms samples

  chosen_at :
      (i : ℕ)
      → i < length sorted
      → snapshot date_ms samples (set_sample_index i s) ≡ get_elem? sorted i
  unfolding snapshot set_sample_index
  chosen_at i h = ap (get_elem? sorted) (in_range _ i h)

  chosen_of :
      {y : MetricsSnapshot F}
      → In y samples
      → (i : ℕ) × (i < length sorted) × (snapshot date_ms samples (set_sample_index i s) ≡ some y)
  unfolding sort_samples_asc
  chosen_of m =
      let (i, l, e) = index_of sorted (In-sort_by _ samples m) in (i, l, chosen_at i l ∙ e)

  sorted-In : {x : MetricsSnapshot F} → In x sorted → In x samples
  unfolding sort_samples_asc
  sorted-In m = sort_by-In _ samples m

  date_or_zero : MetricsSnapshot F → ℕ
  date_or_zero x = or_else (date_ms x.collected_at) 0

  -- With dates that can be read the samples are in the order of their instants.
  sorted_by_date :
      ((x : MetricsSnapshot F) → In x samples → (t : ℕ) × (date_ms x.collected_at ≡ some t))
      → sorted ≡ sort_by (λ a b. leb (date_or_zero a) (date_or_zero b)) samples
  unfolding sort_samples_asc date_or_zero
  sorted_by_date valid =
      sort_by_congr _ _ (λ x. (t : ℕ) × (date_ms x.collected_at ≡ some t))
        (λ a b (t, e) (u, k). rw (e, k) refl) samples (All-of_In _ samples valid)

  not_later :
      ((x : MetricsSnapshot F) → In x samples → (t : ℕ) × (date_ms x.collected_at ≡ some t))
      → (i j : ℕ) (a b : MetricsSnapshot F) (p q : ℕ) → i < j
      → get_elem? sorted i ≡ some a
      → get_elem? sorted j ≡ some b
      → date_ms a.collected_at ≡ some p
      → date_ms b.collected_at ≡ some q
      → p ≤ q
  unfolding date_or_zero
  not_later valid i j a b p q l g k u w =
      let e = sorted_by_date valid in
      let h =
        sorted_at (λ a b. leb (date_or_zero a) (date_or_zero b)) _
          (sort_by-IsSorted _ (leb-IsPreorder date_or_zero) samples) i j l
          (ap (λ xs. get_elem? xs i) (sym e) ∙ g) (ap (λ xs. get_elem? xs j) (sym e) ∙ k) in
      leb→le p q (rw (u, w) at h)

  -- For a history with a sample `y`, whose samples all have dates that can be read, there is a
  -- slider; each of its places shows a sample, one of them shows `y`, and of two places the left one
  -- shows a sample that is not later than that of the right one.
  pub slider_reaches :
      (given : Option Str) (y : MetricsSnapshot F)
      → In y samples
      → ((x : MetricsSnapshot F) → In x samples → (t : ℕ) × (date_ms x.collected_at ≡ some t))
      → (v : Slider) × (slider (safe_index (length sorted) s.sample_index) (length sorted) given
          ≡ some v)
        × ((i : ℕ)
            → i ≤ v.maximum
            → (x : MetricsSnapshot F) × In x samples
              × (snapshot date_ms samples (set_sample_index i s) ≡ some x))
        × ((i : ℕ) × (i ≤ v.maximum) × (snapshot date_ms samples (set_sample_index i s) ≡ some y))
        × ((i j : ℕ) (a b : MetricsSnapshot F) (p q : ℕ)
            → i < j
            → j ≤ v.maximum
            → snapshot date_ms samples (set_sample_index i s) ≡ some a
            → snapshot date_ms samples (set_sample_index j s) ≡ some b
            → date_ms a.collected_at ≡ some p
            → date_ms b.collected_at ≡ some q
            → p ≤ q)
  unfolding slider max_index
  slider_reaches given y m valid =
      let n = sorted_empty date_ms samples m in
      let e : ltb 0 (length sorted) ≡ true = ground arith in
      let (i, l, f) = chosen_of m in
      (
        record {
          maximum = max_index (length sorted);
          value = safe_index (length sorted) s.sample_index;
          is_disabled = leb (length sorted) 1;
          collected_at = given_text given;
        },
        rw e refl,
        (λ j h.
            let (x, g) = at_index sorted j (omega (arith, n, h)) in
            (x, sorted-In (elem-In sorted j g), chosen_at j (omega (arith, n, h)) ∙ g)),
        (i, omega (arith, l), f),
        λ i j a b p q l h g k u w.
            not_later valid i j a b p q l (sym (chosen_at i (omega (arith, n, l, h))) ∙ g)
              (sym (chosen_at j (omega (arith, n, h))) ∙ k) u w,
      )
