-- ===== src/Routes/Snapshot/Chosen.antt =====
-- A history that is not empty always shows one of its samples.

use instace_metric_collector.Common.{
  ℕ, zero, suc, ◌<◌, Str, List, [], ◌∷◌, Option, none, some, length, get_elem?, In, here, there,
  ◌≡◌, refl, arith,
}
use instace_metric_collector.Common.Sort.{sort_by, In-sort_by, sort_by-In}
use instace_metric_collector.Api.Types.{MetricsSnapshot}
use instace_metric_collector.Domain.HistorySeries.{sort_samples_asc}
use instace_metric_collector.Routes.Snapshot.{Selection, safe_index, snapshot}

elem_at {ℓ} :
    {A : Type ℓ} (xs : List A) (i : ℕ)
    → i < length xs
    → (x : A) × (get_elem? xs i ≡ some x) × In x xs
elem_at [] i h = absurd (ground arith)
elem_at (x ∷ xs) zero h = (x, refl, here refl)
elem_at (x ∷ xs) (suc i) h = let (y, e, m) = elem_at xs i (omega arith) in (y, e, there m)

safe_index_lem {ℓ} :
    {A : Type ℓ} (x : A) (xs : List A) (i : ℕ) → safe_index (length (x ∷ xs)) i < length (x ∷ xs)
unfolding safe_index
safe_index_lem x xs i = ground arith

shown_of {ℓ} :
    {A : Type ℓ} (xs : List A) (i : ℕ) {y : A}
    → In y xs
    → (x : A) × (get_elem? xs (safe_index (length xs) i) ≡ some x) × In x xs
shown_of [] i m = elim m [ ]
shown_of (x ∷ xs) i m = elem_at (x ∷ xs) (safe_index (length (x ∷ xs)) i) (safe_index_lem x xs i)

-- Whatever index has been set and however many samples have come since, a history with a sample
-- shows one of the samples that were delivered, and an empty one shows none.
pub snapshot_shown :
    {F : Type 0} (date_ms : Str → Option ℕ) (samples : List (MetricsSnapshot F)) (s : Selection)
    → ((y : MetricsSnapshot F)
        → In y samples
        → (x : MetricsSnapshot F) × (snapshot date_ms samples s ≡ some x) × In x samples)
      × (snapshot {F = F} date_ms [] s ≡ none)
unfolding snapshot sort_samples_asc sort_by
snapshot_shown date_ms samples s = (
  (λ y m.
      let (x, e, k) =
        shown_of (sort_samples_asc date_ms samples) s.sample_index (In-sort_by _ samples m) in
      (x, e, sort_by-In _ samples k)),
  refl,
)
