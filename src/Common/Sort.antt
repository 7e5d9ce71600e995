-- ===== src/Common/Sort.antt =====
-- `Array.prototype.sort`: a stable sort by a comparison, here by insertion, with its laws for a
-- comparison that is consistent (a total preorder).
use Prim.Native.Nat.{ℕ, zero, suc, ◌<◌}
use mathlib.Core.Option.{some}
use native.Mathlib.Omega.{arith}
use mathlib.Core.Path.{◌≡◌, refl, ap, ◌∙◌}
use mathlib.Core.Bool.{Bool, true, false}
use mathlib.Core.Logic.{◌⊎◌, inl, inr}
use mathlib.Core.List.{List, [], ◌∷◌, Perm}
use mathlib.Core.List.Perm
use instace_metric_collector.Common.Tests.{if◌then◌else◌, Bool-cases}
use instace_metric_collector.Common.Lists.{All, In, here, there, In_All, take, get_elem?}

-- `le a b` says that the comparison of `a` with `b` is not positive.
pub record IsPreorder {ℓ} {A : Type ℓ} (le : A → A → Bool) : Type ℓ where
  pub total : (a b : A) → le a b ≡ false → le b a ≡ true
  pub trans : (a b c : A) → le a b ≡ true → le b c ≡ true → le a c ≡ true

In_second {ℓ} :
    {A : Type ℓ} (x y : A) (ys : List A) {zs : List A} {z : A}
    → In z (x ∷ y ∷ ys)
    → (In z (x ∷ ys) → In z zs)
    → In z (y ∷ zs)
In_second x y ys (here e) f = there (f (here e))
In_second x y ys (there (here e)) f = here e
In_second x y ys (there (there m)) f = there (f (there m))

In_tail {ℓ} :
    {A : Type ℓ} (x : A) {xs ys : List A} {z : A}
    → In z (x ∷ xs)
    → (In z xs → In z ys)
    → In z (x ∷ ys)
In_tail x (here e) f = here e
In_tail x (there m) f = there (f m)

In_skip {ℓ} : {A : Type ℓ} (x y : A) (ys : List A) {z : A} → In z (x ∷ ys) → In z (x ∷ y ∷ ys)
In_skip x y ys (here e) = here e
In_skip x y ys (there m) = there (there m)

In_second' {ℓ} :
    {A : Type ℓ} (x y : A) (ys : List A) {zs : List A} {z : A}
    → In z (y ∷ zs)
    → (In z zs → In z (x ∷ ys))
    → In z (x ∷ y ∷ ys)
In_second' x y ys (here e) f = there (here e)
In_second' x y ys (there m) f = In_skip x y ys (f m)

pub elem-In {ℓ} : {A : Type ℓ} (xs : List A) (i : ℕ) {z : A} → get_elem? xs i ≡ some z → In z xs
elem-In [] i e = cc
elem-In (x ∷ xs) zero e = here cc
elem-In (x ∷ xs) (suc i) e = there (elem-In xs i e)

module _ {ℓ} {A : Type ℓ} (le : A → A → Bool) where
  -- Before the first element that does not come strictly first.
  unfoldable pub insert_by : A → List A → List A
  insert_by x [] = x ∷ []
  insert_by x (y ∷ ys) = let later = y ∷ insert_by x ys in if le x y then x ∷ y ∷ ys else later

  unfoldable pub sort_by : List A → List A
  unfolding insert_by
  sort_by [] = []
  sort_by (x ∷ xs) = insert_by x (sort_by xs)

  abbrev pub Below : A → List A → Type 0
  Below x = All (λ y. le x y ≡ true)

  -- Every element is at or below each later one.
  abbrev pub IsSorted : List A → Type 0
  IsSorted [] = Unit
  IsSorted (x ∷ xs) = Below x xs × IsSorted xs

  insert_by-perm : (x : A) (xs : List A) → Perm (insert_by x xs) (x ∷ xs)
  unfolding insert_by
  insert_by-perm x [] = Perm.rfl
  insert_by-perm x (y ∷ ys) = elim (Bool-cases (le x y)) [
    | inl e ↦ rw e Perm.rfl
    | inr e ↦ rw e (Perm.trans (Perm.cons y (insert_by-perm x ys)) (Perm.swap x y ys))
  ]

  pub sort_by-perm : (xs : List A) → Perm (sort_by xs) xs
  unfolding sort_by
  sort_by-perm [] = Perm.rfl
  sort_by-perm (x ∷ xs) = Perm.trans (insert_by-perm x (sort_by xs)) (Perm.cons x (sort_by-perm xs))

  All-insert_by : (P : A → Type 0) (x : A) (xs : List A) → P x → All P xs → All P (insert_by x xs)
  unfolding insert_by
  All-insert_by P x [] p h = (p, tt)
  All-insert_by P x (y ∷ ys) p (q, h) = elim (Bool-cases (le x y)) [
    | inl e ↦ rw e (p, (q, h))
    | inr e ↦ rw e (q, All-insert_by P x ys p h)
  ]

  pub All-sort_by : (P : A → Type 0) (xs : List A) → All P xs → All P (sort_by xs)
  unfolding sort_by
  All-sort_by P [] h = tt
  All-sort_by P (x ∷ xs) (p, h) = All-insert_by P x (sort_by xs) p (All-sort_by P xs h)

  Below-trans :
      (o : IsPreorder le) (x y : A) (ys : List A) → le x y ≡ true → Below y ys → Below x ys
  Below-trans o x y [] e h = tt
  Below-trans o x y (z ∷ zs) e (q, h) = (o.trans x y z e q, Below-trans o x y zs e h)

  insert_by-IsSorted :
      (o : IsPreorder le) (x : A) (xs : List A) → IsSorted xs → IsSorted (insert_by x xs)
  unfolding insert_by
  insert_by-IsSorted o x [] h = (tt, tt)
  insert_by-IsSorted o x (y ∷ ys) (b, h) = elim (Bool-cases (le x y)) [
    | inl e ↦ rw e ((e, Below-trans o x y ys e b), (b, h))
    | inr e ↦
        rw e
          (All-insert_by (λ z. le y z ≡ true) x ys (o.total x y e) b, insert_by-IsSorted o x ys h)
  ]

  pub sort_by-IsSorted : (o : IsPreorder le) (xs : List A) → IsSorted (sort_by xs)
  unfolding sort_by
  sort_by-IsSorted o [] = tt
  sort_by-IsSorted o (x ∷ xs) = insert_by-IsSorted o x (sort_by xs) (sort_by-IsSorted o xs)

  In-insert_by : (x : A) (xs : List A) {z : A} → In z (x ∷ xs) → In z (insert_by x xs)
  unfolding insert_by
  In-insert_by x [] m = m
  In-insert_by x (y ∷ ys) {z} m = elim (Bool-cases (le x y)) [
    | inl e ↦ rw e m
    | inr e ↦ rw e (In_second x y ys m (λ k. In-insert_by x ys k))
  ]

  -- What is sorted is still there, and nothing else is.
  pub In-sort_by : (xs : List A) {z : A} → In z xs → In z (sort_by xs)
  unfolding sort_by
  In-sort_by [] m = m
  In-sort_by (x ∷ xs) (here e) = In-insert_by x (sort_by xs) (here e)
  In-sort_by (x ∷ xs) (there m) = In-insert_by x (sort_by xs) (there (In-sort_by xs m))

  insert_by-In : (x : A) (xs : List A) {z : A} → In z (insert_by x xs) → In z (x ∷ xs)
  unfolding insert_by
  insert_by-In x [] m = m
  insert_by-In x (y ∷ ys) {z} m = elim (Bool-cases (le x y)) [
    | inl e ↦ rw e at m
    | inr e ↦ In_second' x y ys (rw e at m) (λ k. insert_by-In x ys k)
  ]

  pub sort_by-In : (xs : List A) {z : A} → In z (sort_by xs) → In z xs
  unfolding sort_by
  sort_by-In [] m = m
  sort_by-In (x ∷ xs) m = In_tail x (insert_by-In x (sort_by xs) m) (λ k. sort_by-In xs k)

  Below-In : (x : A) (xs : List A) {z : A} → Below x xs → In z xs → le x z ≡ true
  Below-In x xs b m = In_All (λ y. le x y ≡ true) xs b m

  -- Of two places in a sorted list the earlier one has what comes first.
  pub sorted_at :
      (xs : List A)
      → IsSorted xs
      → (i j : ℕ) {a b : A} → i < j
      → get_elem? xs i ≡ some a
      → get_elem? xs j ≡ some b
      → le a b ≡ true
  sorted_at [] h i j l e k = cc
  sorted_at (x ∷ xs) h i zero l e k = absurd (omega (arith, l))
  sorted_at (x ∷ xs) (b, h) zero (suc j) l e k =
      let q : x ≡ _ = same_elem e in rw (← q) (Below-In x xs b (elem-In xs j k))
    where
      same_elem : {y z : A} → some y ≡ some z → y ≡ z
      same_elem e = cc
  sorted_at (x ∷ xs) (b, h) (suc i) (suc j) l e k = sorted_at xs h i j (omega (arith, l)) e k

  -- Of a sorted list the first elements come before every other one.
  pub take_top :
      (n : ℕ) (xs : List A) {e z : A}
      → IsSorted xs
      → In e (take n xs)
      → In z xs
      → In z (take n xs) ⊎ (le e z ≡ true)
  take_top zero xs h m k = elim m [ ]
  take_top (suc n) [] h m k = elim m [ ]
  take_top (suc n) (x ∷ xs) h m (here q) = inl (here q)
  take_top (suc n) (x ∷ xs) {e} {z} (b, h) (here p) (there k) = inr (rw p (Below-In x xs b k))
  take_top (suc n) (x ∷ xs) (b, h) (there m) (there k) = elim (take_top n xs h m k) [
    | inl q ↦ inl (there q)
    | inr q ↦ inr q
  ]

  Below-take : (x : A) (n : ℕ) (xs : List A) → Below x xs → Below x (take n xs)
  Below-take x zero xs h = tt
  Below-take x (suc n) [] h = tt
  Below-take x (suc n) (y ∷ ys) (p, h) = (p, Below-take x n ys h)

  pub IsSorted-take : (n : ℕ) (xs : List A) → IsSorted xs → IsSorted (take n xs)
  IsSorted-take zero xs h = tt
  IsSorted-take (suc n) [] h = tt
  IsSorted-take (suc n) (x ∷ xs) (b, h) = (Below-take x n xs b, IsSorted-take n xs h)

module _ {ℓ} {A : Type ℓ} (le le' : A → A → Bool) (P : A → Type 0)
    (agree : (a b : A) → P a → P b → le a b ≡ le' a b) where
  insert_by_congr : (x : A) (xs : List A) → P x → All P xs → insert_by le x xs ≡ insert_by le' x xs
  unfolding insert_by
  insert_by_congr x [] p h = refl
  insert_by_congr x (y ∷ ys) p (q, h) = rw (agree x y p q, insert_by_congr x ys p h)

  -- Only the comparisons of elements of the list count.
  pub sort_by_congr : (xs : List A) → All P xs → sort_by le xs ≡ sort_by le' xs
  unfolding sort_by
  sort_by_congr [] h = refl
  sort_by_congr (x ∷ xs) (p, h) =
      insert_by_congr x (sort_by le xs) p (All-sort_by le P xs h)
      ∙ ap (insert_by le' x) (sort_by_congr xs h)

-- A symmetric relation between any two elements of a list.
module _ {ℓ} {A : Type ℓ} (R : A → A → Type 0) where
  abbrev pub Apart : List A → Type 0
  Apart [] = Unit
  Apart (x ∷ xs) = All (R x) xs × Apart xs

  module _ (symm : (a b : A) → R a b → R b a) (le : A → A → Bool) where
    insert_by-Apart : (x : A) (xs : List A) → All (R x) xs → Apart xs → Apart (insert_by le x xs)
    unfolding insert_by
    insert_by-Apart x [] h k = (tt, tt)
    insert_by-Apart x (y ∷ ys) (p, h) (q, k) = elim (Bool-cases (le x y)) [
      | inl e ↦ rw e ((p, h), (q, k))
      | inr e ↦ rw e (All-insert_by le (R y) x ys (symm x y p) q, insert_by-Apart x ys h k)
    ]

    pub sort_by-Apart : (xs : List A) → Apart xs → Apart (sort_by le xs)
    unfolding sort_by
    sort_by-Apart [] h = tt
    sort_by-Apart (x ∷ xs) (p, h) =
        insert_by-Apart x (sort_by le xs) (All-sort_by le (R x) xs p) (sort_by-Apart xs h)
