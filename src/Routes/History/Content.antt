-- ===== src/Routes/History/Content.antt =====
-- When the workbench shows its content.
use instace_metric_collector.Common.{
  Bool, true, false, not, ◌&&◌, List, [], ◌∷◌, Option, none, some, In, here, there, ◌≡◌, ◌≢◌, refl,
  ap,
}
use instace_metric_collector.Api.Types.{MetricsSnapshot}
use instace_metric_collector.Api.HistorySamples.{HistoryState}
use instace_metric_collector.Routes.History.{
  Part, error_part, loading_part, empty_part, content, has_error, when, workbench,
}

module _ {A : Type 0} where
  In-when_intro : (b : Bool) (y : A) {x : A} {xs : List A} → In x xs → In x (when b y xs)
  In-when_intro true y m = there m
  In-when_intro false y m = m

  In-when_other : (b : Bool) (y : A) {x : A} {xs : List A} → x ≢ y → In x (when b y xs) → In x xs
  In-when_other true y n (here e) = absurd (n e)
  In-when_other true y n (there m) = m
  In-when_other false y n m = m

content_of : {C : Type 0} → C → Part C → C
content_of d (content c) = c
content_of d _ = d

module _ {F C : Type 0} where
  pub In-workbench :
      (drawn : C) (s : HistoryState F) (snap : Option (MetricsSnapshot F)) {c : C}
      → In (content c) (workbench drawn s snap)
      → (x : MetricsSnapshot F) × (snap ≡ some x) × (c ≡ drawn)
  unfolding workbench content_of
  In-workbench drawn s none m =
      elim (In-when_other (not s.loading && not (has_error s.error)) empty_part {xs = []} (λ e. cc)
        (In-when_other s.loading loading_part (λ e. cc)
          (In-when_other (has_error s.error) error_part (λ e. cc) m))) [ ]
  In-workbench drawn s (some x) {c} m =
      elim (In-when_other (has_error s.error) error_part {xs = content drawn ∷ []} (λ e. cc) m) [
        | here e ↦ (x, refl, ap (content_of drawn) e)
        | there k ↦ elim k [ ]
      ]

  pub In-workbench_intro :
      (drawn : C) (s : HistoryState F) (x : MetricsSnapshot F)
      → In (content drawn) (workbench drawn s (some x))
  unfolding workbench
  In-workbench_intro drawn s x = In-when_intro (has_error s.error) error_part (here refl)
