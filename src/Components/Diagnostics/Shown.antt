-- ===== src/Components/Diagnostics/Shown.antt =====
-- The metrics of a card are never blank.
use instace_metric_collector.Common.{
  Str, String, codes, same, is_empty, Bool, true, false, List, [], ◌∷◌, ◌++◌, Option, none, some,
  or_else, All, ◌≡◌, Bool-cases, inl, inr, if◌then◌else◌,
}
use instace_metric_collector.Common.Floats.{Floats}
use instace_metric_collector.Components.Diagnostics.{Value, DiagnosticItem, Details, field}
use instace_metric_collector.Components.Diagnostics.Text.{
  DiagnosticMetric, Arg, push, latency_metric, entry_metrics, metrics_for_item,
}

-- No metric that a card shows is blank.
abbrev pub IsShown : DiagnosticMetric → Type 0
IsShown m = is_empty m.value ≡ false

IsShown-push : (label : Str) (value : Option Str) → All IsShown (push label value)
unfolding push
IsShown-push label none = tt
IsShown-push label (some v) = elim (Bool-cases (is_empty v)) [
  | inl e ↦ rw e tt
  | inr e ↦ rw e (e, tt)
]

IsShown-append :
    (ms ns : List DiagnosticMetric) → All IsShown ms → All IsShown ns → All IsShown (ms ++ ns)
IsShown-append [] ns h k = k
IsShown-append (m ∷ ms) ns (p, h) k = (p, IsShown-append ms ns h k)

IsShown-three :
    (l m n : Str) (u v w : Option Str) → All IsShown (push l u ++ (push m v ++ push n w))
IsShown-three l m n u v w =
    IsShown-append (push l u) _ (IsShown-push l u)
      (IsShown-append (push m v) _ (IsShown-push m v) (IsShown-push n w))

module _ {F : Type 0} ⦃fl : Floats F⦄ (show_bytes : F → Str)
    (t : String → List (String × Arg F) → Str) where
  latency-IsShown : (v : Option (Value F)) → All IsShown (latency_metric show_bytes t v)
  unfolding latency_metric
  latency-IsShown none = tt
  latency-IsShown (some v) = IsShown-push _ _

  entries-IsShown : (d : Details F) → All IsShown (entry_metrics show_bytes t d)
  unfolding entry_metrics
  entries-IsShown [] = tt
  entries-IsShown ((k, v) ∷ d) = IsShown-append (push k _) _ (IsShown-push k _) (entries-IsShown d)

  All-if :
      (b : Bool) (xs ys : List DiagnosticMetric)
      → All IsShown xs
      → All IsShown ys
      → All IsShown (if b then xs else ys)
  All-if true xs ys h k = h
  All-if false xs ys h k = k

  -- Whatever the item and its details, no metric on its card is blank.
  pub metrics_for_item-IsShown :
      (item : DiagnosticItem F) → All IsShown (metrics_for_item show_bytes t item)
  unfolding metrics_for_item
  metrics_for_item-IsShown item =
      All-if (same item.type (codes "CPU_SPIKE")) _ _ (IsShown-three _ _ _ _ _ _) (
        All-if (same item.type (codes "MEMORY_PRESSURE")) _ _ (IsShown-three _ _ _ _ _ _) (
          All-if (same item.type (codes "DISK_FILLING")) _ _ (IsShown-three _ _ _ _ _ _) (
            All-if (same item.type (codes "CONTAINER_FLAP")) _ _ (IsShown-three _ _ _ _ _ _) (
              All-if (same item.type (codes "CONNECTIVITY_FAIL")) _ _
                (IsShown-append (push _ _) _ (IsShown-push _ _) (
                  IsShown-append (push _ _) _ (IsShown-push _ _)
                    (latency-IsShown (field item "latency"))))
                (entries-IsShown (or_else item.details []))))))
