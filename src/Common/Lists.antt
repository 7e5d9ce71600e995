-- ===== src/Common/Lists.antt =====
-- Lists measured and indexed by native numbers, Boolean searches, and predicates on lists.
use Prim.Native.Nat.{ℕ, zero, suc, ◌+◌, ◌≤◌}
use mathlib.Core.Path.{◌≡◌, refl, ap, sym, subst}
use mathlib.Core.Bool.{Bool, true, false, ◌||◌}
use mathlib.Core.Logic.{◌⊎◌, inl, inr}
use mathlib.Core.List.{List, [], ◌∷◌, ◌++◌, map}
use mathlib.Core.Option.{Option, none, some}
use native.Mathlib.Omega.{arith}
use instace_metric_collector.Common.Tests.{if◌then◌else◌, Bool-cases}

module _ {ℓ} {A : Type ℓ} where
  abbrev pub length : List A → ℕ
  length [] = 0
  length (x ∷ xs) = suc (length xs)

  abbrev pub get_elem? : List A → ℕ → Option A
  get_elem? [] i = none
  get_elem? (x ∷ xs) zero = some x
  get_elem? (x ∷ xs) (suc i) = get_elem? xs i

  -- `xs.slice(0, n)`.
  abbrev pub take : ℕ → List A → List A
  take zero xs = []
  take (suc n) [] = []
  take (suc n) (x ∷ xs) = x ∷ take n xs

  -- `xs.filter(p)`.
  abbrev pub keep : (A → Bool) → List A → List A
  keep p [] = []
  keep p (x ∷ xs) = let rest = keep p xs in if p x then x ∷ rest else rest

  -- `xs.find(p)`.
  abbrev pub find : (A → Bool) → List A → Option A
  find p [] = none
  find p (x ∷ xs) = let rest = find p xs in if p x then some x else rest

  -- `xs.some(p)`.
  abbrev pub any : (A → Bool) → List A → Bool
  any p [] = false
  any p (x ∷ xs) = p x || any p xs

  -- `xs[xs.length - 1]`.
  abbrev pub last? : List A → Option A
  last? [] = none
  last? (x ∷ []) = some x
  last? (x ∷ y ∷ ys) = last? (y ∷ ys)

  abbrev pub All {κ} : (A → Type κ) → List A → Type κ
  All P [] = Unit
  All P (x ∷ xs) = P x × All P xs

  -- `x` stands somewhere in the list.
  pub data In (x : A) : List A → Type ℓ where
    here : {y : A} {xs : List A} → x ≡ y → In x (y ∷ xs)
    there : {y : A} {xs : List A} → In x xs → In x (y ∷ xs)

  pub length-append : (xs ys : List A) → length (xs ++ ys) ≡ length xs + length ys
  length-append [] ys = omega arith
  length-append (x ∷ xs) ys = omega (arith, length-append xs ys)

  pub length-take : (n : ℕ) (xs : List A) → length (take n xs) ≤ n
  length-take zero xs = omega arith
  length-take (suc n) [] = omega arith
  length-take (suc n) (x ∷ xs) = omega (arith, length-take n xs)

  In-kept :
      (p : A → Bool) (y : A) (ys : List A) {x : A}
      → p y ≡ true
      → (In x (keep p ys) → In x ys × (p x ≡ true))
      → In x (y ∷ keep p ys)
      → In x (y ∷ ys) × (p x ≡ true)
  In-kept p y ys e ih (here r) = (here r, rw r e)
  In-kept p y ys e ih (there m) = let (m', q) = ih m in (there m', q)

  pub In-append_left : (xs ys : List A) {x : A} → In x xs → In x (xs ++ ys)
  In-append_left [] ys m = elim m [ ]
  In-append_left (z ∷ xs) ys (here e) = here e
  In-append_left (z ∷ xs) ys (there m) = there (In-append_left xs ys m)

  pub In-append_right : (xs ys : List A) {x : A} → In x ys → In x (xs ++ ys)
  In-append_right [] ys m = m
  In-append_right (z ∷ xs) ys m = there (In-append_right xs ys m)

  pub In-append_cases : (xs ys : List A) {x : A} → In x (xs ++ ys) → In x xs ⊎ In x ys
  In-append_cases [] ys m = inr m
  In-append_cases (z ∷ xs) ys (here e) = inl (here e)
  In-append_cases (z ∷ xs) ys (there m) = elim (In-append_cases xs ys m) [
    | inl k ↦ inl (there k)
    | inr k ↦ inr k
  ]

  pub In-keep : (p : A → Bool) (xs : List A) {x : A} → In x (keep p xs) → In x xs × (p x ≡ true)
  In-keep p [] h = elim h [ ]
  In-keep p (y ∷ ys) {x} h = elim (Bool-cases (p y)) [
    | inl e ↦ In-kept p y ys e (λ m. In-keep p ys m) (rw e at h)
    | inr e ↦ let (m, q) = In-keep p ys (rw e at h) in (there m, q)
  ]

  pub In-keep_intro : (p : A → Bool) (xs : List A) {x : A} → In x xs → p x ≡ true → In x (keep p xs)
  In-keep_intro p [] m h = elim m [ ]
  In-keep_intro p (y ∷ ys) {x} (here e) h = let k : p y ≡ true = (rw (← e) h) in rw k (here e)
  In-keep_intro p (y ∷ ys) (there m) h = elim (Bool-cases (p y)) [
    | inl e ↦ rw e (there (In-keep_intro p ys m h))
    | inr e ↦ rw e (In-keep_intro p ys m h)
  ]

  -- What a search finds is there and passes the test; if it finds nothing, nothing passes.
  pub find-cases :
      (p : A → Bool) (xs : List A)
      → ((find p xs ≡ none) × All (λ x. p x ≡ false) xs)
        ⊎ ((x : A) × (find p xs ≡ some x) × In x xs × (p x ≡ true))
  find-cases p [] = inl (refl, tt)
  find-cases p (x ∷ xs) = elim (Bool-cases (p x)) [
    | inl e ↦ inr (x, rw e refl, here refl, e)
    | inr e ↦ elim (find-cases p xs) [
      | inl (n, h) ↦ inl (rw e n, (e, h))
      | inr (y, f, m, q) ↦ inr (y, rw e f, there m, q)
    ]
  ]

  pub In-take : (n : ℕ) (xs : List A) {x : A} → In x (take n xs) → In x xs
  In-take zero xs m = elim m [ ]
  In-take (suc n) [] m = elim m [ ]
  In-take (suc n) (y ∷ ys) (here e) = here e
  In-take (suc n) (y ∷ ys) (there m) = there (In-take n ys m)

module _ {ℓ κ} {A : Type ℓ} {B : Type κ} where
  pub In-map : (f : A → B) (xs : List A) {y : B} → In y (map f xs) → (x : A) × In x xs × (y ≡ f x)
  In-map f [] m = elim m [ ]
  In-map f (x ∷ xs) (here e) = (x, here refl, e)
  In-map f (x ∷ xs) (there m) = let (z, k, e) = In-map f xs m in (z, there k, e)

  pub In-map_intro : (f : A → B) (xs : List A) {x : A} → In x xs → In (f x) (map f xs)
  In-map_intro f [] m = elim m [ ]
  In-map_intro f (y ∷ ys) (here e) = here (ap f e)
  In-map_intro f (y ∷ ys) (there m) = there (In-map_intro f ys m)

  pub length-map : (f : A → B) (xs : List A) → length (map f xs) ≡ length xs
  length-map f [] = refl
  length-map f (x ∷ xs) = ap suc (length-map f xs)

module _ {ℓ κ ι} {A : Type ℓ} (P : A → Type κ) (Q : A → Type ι) where
  pub All-mono : ((x : A) → P x → Q x) → (xs : List A) → All P xs → All Q xs
  All-mono f [] h = tt
  All-mono f (x ∷ xs) (p, h) = (f x p, All-mono f xs h)

module _ {ℓ κ} {A : Type ℓ} (P : A → Type κ) where
  pub All-of_In : (xs : List A) → ((x : A) → In x xs → P x) → All P xs
  All-of_In [] h = tt
  All-of_In (x ∷ xs) h = (h x (here refl), All-of_In xs (λ y m. h y (there m)))

  pub In_All : (xs : List A) {x : A} → All P xs → In x xs → P x
  In_All [] h m = elim m [ ]
  In_All (y ∷ ys) (p, h) (here e) = subst P (sym e) p
  In_All (y ∷ ys) (p, h) (there m) = In_All ys h m
