-- ===== src/Routes/HistoryWorkbench/Source.antt =====
-- Where what the frame shows comes from.
use instace_metric_collector.Common.{
  ℕ, ◌<◌, ltb, leb, Str, nonempty, true, List, [], ◌∷◌, Option, none, some, length, get_elem?, In,
  here, there, ◌≡◌, ◌⊎◌, refl, sym, ◌∙◌, inl, inr, arith, if◌then◌else◌,
}
use instace_metric_collector.Api.Types.{MetricsSnapshot}
use instace_metric_collector.Api.Metrics.{MetricsState}
use instace_metric_collector.Api.HistorySamples.{HistoryState}
use instace_metric_collector.Domain.HistorySeries.{HistoryTimeRange, sort_samples_asc}
use instace_metric_collector.Components.TimeBar.{TimeBarView, Slider, max_index, time_bar, slider}
use instace_metric_collector.Routes.Layout.{ViewMode, live_view, history_view, HistoryView}
use instace_metric_collector.Routes.Snapshot.{Selection, safe_index, snapshot}
use instace_metric_collector.Routes.Snapshot.Chosen.{snapshot_shown}
use instace_metric_collector.Routes.History.{content}
use instace_metric_collector.Routes.History.Content.{In-workbench, In-workbench_intro}
use instace_metric_collector.Routes.HistoryWorkbench.{
  selected_history, provided, use_metrics_context, history_workbench, bench_in,
}

within {ℓ} : {A : Type ℓ} (xs : List A) (i : ℕ) {x : A} → get_elem? xs i ≡ some x → 0 < length xs
within [] i e = cc
within (y ∷ ys) i e = omega arith

slider_at :
    (index n : ℕ) (date : Str)
    → 0 < n
    → (s : Slider) × (slider index n (some date) ≡ some s)
      × (s.value ≡ index)
      × (s.collected_at ≡ (if nonempty date then some date else none))
unfolding slider
slider_at index n date h =
    let e : ltb 0 n ≡ true = ground arith in
    (
      record {
        maximum = max_index n;
        value = index;
        is_disabled = leb n 1;
        collected_at = if nonempty date then some date else none;
      },
      rw e refl,
      refl,
      refl,
    )

module _ {F : Type 0} (date_ms : Str → Option ℕ) where
  -- The bar stands at a sample: the sample was delivered, the slider is at its place in the order
  -- of time, and its date is above the slider.
  abbrev pub IsAt : List (MetricsSnapshot F) → Option TimeBarView → MetricsSnapshot F → Type 0
  IsAt samples bar x =
      In x samples
      × ((b : TimeBarView) × (bar ≡ some b)
          × ((s : Slider) × (b.slider ≡ some s)
              × (get_elem? (sort_samples_asc date_ms samples) s.value ≡ some x)
              × (s.collected_at ≡ (if nonempty x.collected_at then some x.collected_at else none))))

  shown-In :
      (samples : List (MetricsSnapshot F)) (sel : Selection) {x : MetricsSnapshot F}
      → snapshot date_ms samples sel ≡ some x
      → In x samples
  shown-In [] sel e = absurd (clash (sym (snapshot_shown date_ms [] sel).1 ∙ e))
    where
      clash : {y : MetricsSnapshot F} → none ≡ some y → ⊥
      clash e = cc
  shown-In (y ∷ ys) sel {x} e =
      let (z, f, m) = (snapshot_shown date_ms (y ∷ ys) sel).0 y (here refl) in
      let k : z ≡ x = same_elem (sym f ∙ e) in rw (← k) m
    where
      same_elem : {a b : MetricsSnapshot F} → some a ≡ some b → a ≡ b
      same_elem e = cc

  snapshot-IsAt :
      (t : Str → Str) (count_text : ℕ → Str) (range : HistoryTimeRange)
      (samples : List (MetricsSnapshot F)) (sel : Selection) (x : MetricsSnapshot F)
      → snapshot date_ms samples sel ≡ some x
      → let sorted = sort_samples_asc date_ms samples in
        IsAt samples
          (some (
            time_bar t count_text range
              (safe_index (length sorted) sel.sample_index)
              (length sorted)
              (some x.collected_at)))
          x
  unfolding snapshot time_bar
  snapshot-IsAt t count_text range samples sel x e =
      let sorted = sort_samples_asc date_ms samples in
      let index = safe_index (length sorted) sel.sample_index in
      let (s, f, v, d) = slider_at index (length sorted) x.collected_at (within sorted index e) in
      (shown-In samples sel e, (_, refl, (s, f, rw v e, d)))

module _ {F C : Type 0} (date_ms : Str → Option ℕ) (t : Str → Str) (count_text : ℕ → Str)
    (draw : MetricsState F → C) where
  provided_snapshot :
      (outer : MetricsState F) (shown : Option (MetricsSnapshot F)) (x : MetricsSnapshot F)
      → shown ≡ some x
      → (use_metrics_context (provided date_ms shown) outer).snapshot ≡ some x
  unfolding provided use_metrics_context
  provided_snapshot outer none x e = cc
  provided_snapshot outer (some y) x e = e

  in_mode :
      (mode : ViewMode) (title : Option Str) (range : HistoryTimeRange) (outer : MetricsState F)
      (h : HistoryState F) (sel : Selection) (c : C)
      → let bench = bench_in date_ms t count_text draw mode title range outer h sel in
        In (content c) bench.body
        → ((mode ≡ live_view) × (c ≡ draw outer))
          ⊎ ((mode ≡ history_view)
              × ((ctx : MetricsState F) × (c ≡ draw ctx)
                  × ((x : MetricsSnapshot F) × (ctx.snapshot ≡ some x)
                      × IsAt date_ms h.samples bench.bar x)))
  unfolding bench_in selected_history
  in_mode live_view title range outer h sel c (here e) = inl (refl, content_inj e)
    where
      content_inj : {a b : C} → content a ≡ content b → a ≡ b
      content_inj e = cc
  in_mode live_view title range outer h sel c (there k) = elim k [ ]
  in_mode history_view title range outer h sel c m =
      let (x, e, k) = In-workbench _ h (snapshot date_ms h.samples sel) m in
      inr (
        refl,
        (
          use_metrics_context (provided date_ms (snapshot date_ms h.samples sel)) outer,
          k,
          (
            x,
            provided_snapshot outer _ x e,
            rw e (snapshot-IsAt date_ms t count_text range h.samples sel x e),
          ),
        ),
      )

  -- What the frame shows as its content is drawn in the context that it has outside the frame in the
  -- live mode, and in the history mode in a context with the sample that the bar stands at.
  pub bench_source :
      (title : Option Str) (view : HistoryView) (outer : MetricsState F) (h : HistoryState F)
      (sel : Selection) (c : C)
      → let bench = history_workbench date_ms t count_text draw title view outer h sel in
        In (content c) bench.body
        → ((view.view_mode ≡ live_view) × (c ≡ draw outer))
          ⊎ ((view.view_mode ≡ history_view)
              × ((ctx : MetricsState F) × (c ≡ draw ctx)
                  × ((x : MetricsSnapshot F) × (ctx.snapshot ≡ some x)
                      × IsAt date_ms h.samples bench.bar x)))
  unfolding history_workbench
  bench_source title view = in_mode view.view_mode title view.time_range

  content_in_mode :
      (mode : ViewMode) (title : Option Str) (range : HistoryTimeRange) (outer : MetricsState F)
      (h : HistoryState F) (sel : Selection)
      → let bench = bench_in date_ms t count_text draw mode title range outer h sel in
        (mode ≡ live_view → In (content (draw outer)) bench.body)
        × (mode ≡ history_view
            → (y : MetricsSnapshot F) → In y h.samples
            → (ctx : MetricsState F) × In (content (draw ctx)) bench.body
              × ((x : MetricsSnapshot F) × (ctx.snapshot ≡ some x)))
  unfolding bench_in selected_history
  content_in_mode live_view title range outer h sel = ((λ e. here refl), λ e y m. cc)
  content_in_mode history_view title range outer h sel = (
    (λ e. cc),
    λ e y m.
        let (x, f, k) = (snapshot_shown date_ms h.samples sel).0 y m in
        (
          use_metrics_context (provided date_ms (snapshot date_ms h.samples sel)) outer,
          rw f (In-workbench_intro _ h x),
          (x, provided_snapshot outer _ x f),
        ),
  )

  -- The frame has its content in the live mode, and in the history mode once there is a sample.
  pub bench_content :
      (title : Option Str) (view : HistoryView) (outer : MetricsState F) (h : HistoryState F)
      (sel : Selection)
      → let bench = history_workbench date_ms t count_text draw title view outer h sel in
        (view.view_mode ≡ live_view → In (content (draw outer)) bench.body)
        × (view.view_mode ≡ history_view
            → (y : MetricsSnapshot F) → In y h.samples
            → (ctx : MetricsState F) × In (content (draw ctx)) bench.body
              × ((x : MetricsSnapshot F) × (ctx.snapshot ≡ some x)))
  unfolding history_workbench
  bench_content title view = content_in_mode view.view_mode title view.time_range
