-- ===== src/Common/Text/Split.antt =====
-- Where a text is split, and what the pieces are.
use mathlib.Core.Path.{◌≡◌, refl}
use mathlib.Core.Bool.{Bool, true, false}
use mathlib.Core.Logic.{inl, inr}
use mathlib.Core.List.{List, [], ◌∷◌, ◌++◌}
use mathlib.Core.Option.{some}
use Prim.Native.Nat.{ℕ}
use instace_metric_collector.Common.Tests.{Bool-cases}
use instace_metric_collector.Common.Lists.{All, In, here, there, In-keep, keep, last?}
use instace_metric_collector.Common.Text.{Str, prepend, split_on, Avoids, nonempty}

All-Avoids-prepend :
    (sep : ℕ → Bool) (c : ℕ) (ps : List Str)
    → sep c ≡ false
    → All (Avoids sep) ps
    → All (Avoids sep) (prepend c ps)
unfolding prepend
All-Avoids-prepend sep c [] e h = ((e, tt), tt)
All-Avoids-prepend sep c (p ∷ ps) e (a, h) = ((e, a), h)

-- No piece of a split holds a separator.
pub split_on-Avoids : (sep : ℕ → Bool) (s : Str) → All (Avoids sep) (split_on sep s)
unfolding split_on
split_on-Avoids sep [] = (tt, tt)
split_on-Avoids sep (c ∷ s) = elim (Bool-cases (sep c)) [
  | inl e ↦ rw e (tt, split_on-Avoids sep s)
  | inr e ↦ rw e (All-Avoids-prepend sep c (split_on sep s) e (split_on-Avoids sep s))
]

module _ (sep : ℕ → Bool) where
  prepend_some : (c : ℕ) (ps : List Str) → (p : Str) × (qs : List Str) × (prepend c ps ≡ p ∷ qs)
  unfolding prepend
  prepend_some c [] = (c ∷ [], [], refl)
  prepend_some c (p ∷ ps) = (c ∷ p, ps, refl)

  split_on_some : (s : Str) → (p : Str) × (ps : List Str) × (split_on sep s ≡ p ∷ ps)
  unfolding split_on
  split_on_some [] = ([], [], refl)
  split_on_some (c ∷ s) = elim (Bool-cases (sep c)) [
    | inl e ↦ ([], split_on sep s, rw e)
    | inr e ↦ let (p, ps, q) = prepend_some c (split_on sep s) in (p, ps, rw e q)
  ]

  -- A separator splits: the pieces before it, then the pieces after it.
  pub split_on-append :
      (s : Str) (c : ℕ) (t : Str)
      → sep c ≡ true
      → split_on sep (s ++ c ∷ t) ≡ split_on sep s ++ split_on sep t
  unfolding split_on
  split_on-append [] c t e = rw e
  split_on-append (d ∷ s) c t e =
      let (p, ps, q) = split_on_some s in
      rw (split_on-append s c t e) (elim (Bool-cases (sep d)) [ inl k ↦ rw k | inr k ↦ rw (k, q) ])

  -- A text with no separator is one piece.
  pub split_on_whole : (t : Str) → Avoids sep t → split_on sep t ≡ t ∷ []
  unfolding split_on
  split_on_whole [] h = refl
  split_on_whole (c ∷ t) (e, h) = rw (e, split_on_whole t h)

last?-cons : (x : Str) (ys : List Str) {t : Str} → last? ys ≡ some t → last? (x ∷ ys) ≡ some t
last?-cons x [] h = cc
last?-cons x (y ∷ ys) h = h

pub last_of_keep :
    (xs : List Str) (t : Str) → nonempty t ≡ true → last? (keep nonempty (xs ++ t ∷ [])) ≡ some t
last_of_keep [] t e = rw e
last_of_keep (x ∷ xs) t e = elim (Bool-cases (nonempty x)) [
  | inl k ↦ rw k (last?-cons x (keep nonempty (xs ++ t ∷ [])) (last_of_keep xs t e))
  | inr k ↦ rw k (last_of_keep xs t e)
]

last?-In : (ys : List Str) {t : Str} → last? ys ≡ some t → In t ys
last?-In [] h = cc
last?-In (y ∷ []) h = here (cc)
last?-In (y ∷ z ∷ zs) h = there (last?-In (z ∷ zs) h)

-- The last piece that is kept is one of the pieces, and not empty.
pub last_kept-In :
    (xs : List Str) {t : Str} → last? (keep nonempty xs) ≡ some t → In t xs × (nonempty t ≡ true)
last_kept-In xs e = In-keep nonempty xs (last?-In (keep nonempty xs) e)
