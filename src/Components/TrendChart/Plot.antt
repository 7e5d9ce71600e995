-- ===== src/Components/TrendChart/Plot.antt =====
-- The points of a chart lie in its frame.
use instace_metric_collector.Common.{
  ℕ, suc, ◌+◌, ◌-◌, ◌≤◌, ◌<◌, max, true, List, [], ◌∷◌, ◌++◌, map, length, Bool-cases, inl, inr,
  All, here, In_All, In-append_right, ◌≡◌, refl, arith,
}
use instace_metric_collector.Common.Floats.{Floats}
use instace_metric_collector.Domain.HistorySeries.{HistoryPoint}
use instace_metric_collector.Domain.HistorySeries.Laws.{IsOrdered, maximum_lem}
use instace_metric_collector.Routes.History.{scale_max}
use instace_metric_collector.Components.TrendChart.{
  pad_top, pad_left, inner_w, inner_h, x_at, y_at, plot_from, plot,
}

abbrev pub Within : {F : Type 0} → Floats F → F → ℕ → ℕ → Type 0
Within fl x low high = (fl.le (fl.of_nat low) x ≡ true) × (fl.le x (fl.of_nat high) ≡ true)

-- What rounding keeps: the order of natural numbers, a quotient of a number by one that is not
-- smaller lies in the unit interval, and products, sums and differences with small natural numbers
-- stay between the bounds that they have without rounding.
pub record IsRounded {F : Type 0} (fl : Floats F) : Type 0 where
  pub of_nat_le : (m n : ℕ) → m ≤ n → fl.le (fl.of_nat m) (fl.of_nat n) ≡ true
  pub one_positive : fl.lt (fl.of_nat 0) (fl.of_nat 1) ≡ true
  pub div_unit :
      (a b : F)
      → fl.le (fl.of_nat 0) a ≡ true
      → fl.le a b ≡ true
      → fl.lt (fl.of_nat 0) b ≡ true
      → Within fl (fl.div a b) 0 1
  pub mul_unit :
      (q : F) (h : ℕ) → h ≤ 1024 → Within fl q 0 1 → Within fl (fl.mul q (fl.of_nat h)) 0 h
  pub add_within :
      (d : F) (a h : ℕ)
      → a + h ≤ 1024
      → Within fl d 0 h
      → Within fl (fl.add (fl.of_nat a) d) a (a + h)
  pub sub_within :
      (d : F) (a h : ℕ)
      → a + h ≤ 1024
      → Within fl d 0 h
      → Within fl (fl.sub (fl.of_nat (a + h)) d) a (a + h)

module _ {F : Type 0} ⦃fl : Floats F⦄ (o : IsOrdered fl) (r : IsRounded fl) where
  positive : (x : F) → fl.le (fl.of_nat 1) x ≡ true → fl.lt (fl.of_nat 0) x ≡ true
  positive x h = elim (Bool-cases (fl.le x (fl.of_nat 0))) [
    | inl e ↦
        ground
          (arith, o.preorder.trans _ _ _ h e, r.one_positive, o.lt_le (fl.of_nat 0) (fl.of_nat 1))
    | inr e ↦ ground (arith, o.lt_le (fl.of_nat 0) x)
  ]

  abbrev IsIn : F × F → Type 0
  IsIn q = Within fl q.0 pad_left (pad_left + inner_w) × Within fl q.1 pad_top (pad_top + inner_h)

  x_at-Within : (count i : ℕ) → i < count → Within fl (x_at count i) pad_left (pad_left + inner_w)
  unfolding x_at
  x_at-Within count i h = r.add_within _ pad_left inner_w (omega arith) (
      r.mul_unit _ inner_w (omega arith) (
        r.div_unit _ _ (r.of_nat_le 0 i (omega arith))
          (r.of_nat_le i (max (count - 1) 1) (omega arith))
          (positive _ (r.of_nat_le 1 (max (count - 1) 1) (omega arith)))))

  y_at-Within :
      (y_max v : F)
      → fl.le (fl.of_nat 1) y_max ≡ true
      → fl.le (fl.of_nat 0) v ≡ true
      → fl.le v y_max ≡ true
      → Within fl (y_at y_max v) pad_top (pad_top + inner_h)
  unfolding y_at
  y_at-Within y_max v one low high =
      r.sub_within _ pad_top inner_h (omega arith)
        (r.mul_unit _ inner_h (omega arith) (r.div_unit v y_max low high (positive y_max one)))

  -- The value of a point, from 0 to the top of the scale.
  abbrev IsPlotted : F → HistoryPoint F → Type 0
  IsPlotted y_max p = (fl.le (fl.of_nat 0) p.value ≡ true) × (fl.le p.value y_max ≡ true)

  plot_from-IsIn :
      (count i : ℕ) (y_max : F) (points : List (HistoryPoint F))
      → fl.le (fl.of_nat 1) y_max ≡ true
      → i + length points ≤ count
      → All (IsPlotted y_max) points
      → All IsIn (plot_from count y_max i points)
  unfolding plot_from
  plot_from-IsIn count i y_max [] one n h = tt
  plot_from-IsIn count i y_max (p ∷ points) one n ((low, high), h) = (
    (x_at-Within count i (omega arith), y_at-Within y_max p.value one low high),
    plot_from-IsIn count (suc i) y_max points one (omega arith) h,
  )

  length-plot_from :
      (count i : ℕ) (y_max : F) (points : List (HistoryPoint F))
      → length (plot_from count y_max i points) ≡ length points
  unfolding plot_from
  length-plot_from count i y_max [] = refl
  length-plot_from count i y_max (p ∷ points) =
      omega (arith, length-plot_from count (suc i) y_max points)

  values_below :
      (m : F) (points : List (HistoryPoint F)) (ys : List F)
      → All (λ y. fl.le y m ≡ true) (map (λ p. p.value) points ++ ys)
      → All (λ p. fl.le p.value m ≡ true) points
  values_below m [] ys h = tt
  values_below m (p ∷ points) ys (q, h) = (q, values_below m points ys h)

  scale_bounds :
      (top : F) (points : List (HistoryPoint F))
      → (fl.le (fl.of_nat 1) (scale_max top points) ≡ true)
        × All (λ p. fl.le p.value (scale_max top points) ≡ true) points
  unfolding scale_max
  scale_bounds top points =
      let values : List F = map (λ p. p.value) points in
      let (_, all) = (maximum_lem o top (values ++ fl.of_nat 1 ∷ [])).0 in
      (In_All _ _ all (In-append_right values _ (here refl)), values_below _ points _ all)

  plotted :
      (m : F) (points : List (HistoryPoint F))
      → All (λ p. fl.le (fl.of_nat 0) p.value ≡ true) points
      → All (λ p. fl.le p.value m ≡ true) points
      → All (IsPlotted m) points
  plotted m [] h k = tt
  plotted m (p ∷ points) (a, h) (b, k) = ((a, b), plotted m points h k)

  -- For numbers ordered and rounded as `IsOrdered` and `IsRounded` say, and points whose values are
  -- not negative: the chart has a point for each of them, and all are drawn within its frame.
  pub plot_in_frame :
      (top : F) (points : List (HistoryPoint F))
      → All (λ p. fl.le (fl.of_nat 0) p.value ≡ true) points
      → (length (plot top points) ≡ length points)
        × All
            (λ q.
              Within fl q.0 pad_left (pad_left + inner_w)
              × Within fl q.1 pad_top (pad_top + inner_h))
            (plot top points)
  unfolding plot
  plot_in_frame top points h =
      let (one, below) = scale_bounds top points in
      (
        length-plot_from (length points) 0 _ points,
        plot_from-IsIn (length points) 0 _ points one (omega arith) (plotted _ points h below),
      )
