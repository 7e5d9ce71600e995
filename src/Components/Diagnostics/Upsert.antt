-- ===== src/Components/Diagnostics/Upsert.antt =====
-- One round of `dedupeInsights` on the map of the items seen, by identity.
use instace_metric_collector.Common.{
  Str, same, same→eq, true, false, List, [], ◌∷◌, All, In, here, there, ◌≡◌, ◌⊎◌, inl, inr, refl,
  sym, ap, ◌∙◌, arith, Bool-cases,
}
use instace_metric_collector.Common.Sort.{Apart}
use instace_metric_collector.Components.Diagnostics.{DiagnosticItem, str_lt, upsert}

str_lt_irrefl : (a : Str) → str_lt a a ≡ false
unfolding str_lt
str_lt_irrefl [] = refl
str_lt_irrefl (c ∷ s) = ground (arith, str_lt_irrefl s)

str_lt_asym : (a b : Str) → str_lt a b ≡ true → str_lt b a ≡ false
unfolding str_lt
str_lt_asym [] [] h = refl
str_lt_asym [] (d ∷ t) h = refl
str_lt_asym (c ∷ s) [] h = cc
str_lt_asym (c ∷ s) (d ∷ t) h = ground (arith, str_lt_asym s t)

-- `a <= b <= c`, each as the failure of `<` the other way round.
pub str_le_trans : (a b c : Str) → str_lt b a ≡ false → str_lt c b ≡ false → str_lt c a ≡ false
unfolding str_lt
str_le_trans [] b [] h k = refl
str_le_trans [] b (z ∷ c) h k = refl
str_le_trans (x ∷ a) [] c h k = cc
str_le_trans (x ∷ a) (y ∷ b) [] h k = cc
str_le_trans (x ∷ a) (y ∷ b) (z ∷ c) h k = ground (arith, str_le_trans a b c)

module _ {F : Type 0} where
  -- For a key there is an item at least as new as a given time.
  pub record Newest (key at : Str) (seen : List (Str × DiagnosticItem F)) : Type 0 where
    pub item : DiagnosticItem F
    pub stored : In (key, item) seen
    pub newer : str_lt item.detected_at at ≡ false

  Newest-there :
      {key at : Str} {e : Str × DiagnosticItem F} {seen : List (Str × DiagnosticItem F)}
      → Newest key at seen
      → Newest key at (e ∷ seen)
  Newest-there n = record { item = n.item; stored = there n.stored; newer = n.newer }

  pub upsert_self :
      (key : Str) (x : DiagnosticItem F) (seen : List (Str × DiagnosticItem F))
      → Newest key x.detected_at (upsert key x seen)
  unfolding upsert
  upsert_self key x [] = record {
    item = x;
    stored = here refl;
    newer = str_lt_irrefl x.detected_at;
  }
  upsert_self key x ((k, y) ∷ seen) = elim (Bool-cases (same k key)) [
    | inl e ↦ elim (Bool-cases (str_lt y.detected_at x.detected_at)) [
      | inl f ↦
          rw (e, f)
            (record {
              item = x;
              stored = here (ap (λ j. (j, x)) (sym (same→eq k key e)));
              newer = str_lt_irrefl x.detected_at;
            })
      | inr f ↦
          rw (e, f)
            (record {
              item = y;
              stored = here (ap (λ j. (j, y)) (sym (same→eq k key e)));
              newer = f;
            })
    ]
    | inr e ↦ rw e (Newest-there (upsert_self key x seen))
  ]

  Newest-own :
      {j : Str} {y : DiagnosticItem F} {seen : List (Str × DiagnosticItem F)}
      → In (j, y) seen
      → Newest j y.detected_at seen
  Newest-own {y = y} m = record { item = y; stored = m; newer = str_lt_irrefl y.detected_at }

  Newest-replaced :
      {j k : Str} {y z : DiagnosticItem F} (x : DiagnosticItem F)
      (seen : List (Str × DiagnosticItem F))
      → ◌≡◌ {A = Str × DiagnosticItem F} (j, y) (k, z)
      → str_lt z.detected_at x.detected_at ≡ true
      → Newest j y.detected_at ((k, x) ∷ seen)
  Newest-replaced {j} {k} {y} {z} x seen p f = record {
    item = x;
    stored = here (ap (λ (e : Str × DiagnosticItem F). (e.0, x)) p);
    newer = rw (ap (λ (e : Str × DiagnosticItem F). e.1.detected_at) p) (str_lt_asym _ _ f);
  }

  -- An item that is stored stays, or a newer one takes its place.
  pub upsert-keeps :
      (key : Str) (x : DiagnosticItem F) (seen : List (Str × DiagnosticItem F)) {j : Str}
      {y : DiagnosticItem F}
      → In (j, y) seen
      → Newest j y.detected_at (upsert key x seen)
  unfolding upsert
  upsert-keeps key x [] m = elim m [ ]
  upsert-keeps key x ((k, z) ∷ seen) (here p) = elim (Bool-cases (same k key)) [
    | inl e ↦ rw e (elim (Bool-cases (str_lt z.detected_at x.detected_at)) [
      | inl f ↦ rw f (Newest-replaced x seen p f)
      | inr f ↦ rw f (Newest-own (here p))
    ])
    | inr e ↦ rw e (Newest-own (here p))
  ]
  upsert-keeps key x ((k, z) ∷ seen) (there m) = elim (Bool-cases (same k key)) [
    | inl e ↦ rw e (elim (Bool-cases (str_lt z.detected_at x.detected_at)) [
      | inl f ↦ rw f (Newest-own (there m))
      | inr f ↦ rw f (Newest-own (there m))
    ])
    | inr e ↦ rw e (Newest-there (upsert-keeps key x seen m))
  ]

  In_head :
      {e : Str × DiagnosticItem F} {k key : Str} {x z : DiagnosticItem F}
      {seen : List (Str × DiagnosticItem F)}
      → In e ((k, x) ∷ seen)
      → same k key ≡ true
      → (e ≡ (key, x)) ⊎ In e ((k, z) ∷ seen)
  In_head {k = k} {key} {x} (here p) e = inl (p ∙ ap (λ j. (j, x)) (same→eq k key e))
  In_head (there m) e = inr (there m)

  In_rest :
      {e new : Str × DiagnosticItem F} {z : Str × DiagnosticItem F}
      {seen more : List (Str × DiagnosticItem F)}
      → In e (z ∷ more)
      → (In e more → (e ≡ new) ⊎ In e seen)
      → (e ≡ new) ⊎ In e (z ∷ seen)
  In_rest (here p) f = inr (here p)
  In_rest (there m) f = elim (f m) [ inl p ↦ inl p | inr k ↦ inr (there k) ]

  pub upsert-In :
      (key : Str) (x : DiagnosticItem F) (seen : List (Str × DiagnosticItem F))
      {e : Str × DiagnosticItem F}
      → In e (upsert key x seen)
      → (e ≡ (key, x)) ⊎ In e seen
  unfolding upsert
  upsert-In key x [] (here p) = inl p
  upsert-In key x [] (there m) = inr m
  upsert-In key x ((k, z) ∷ seen) {e} m = elim (Bool-cases (same k key)) [
    | inl q ↦ elim (Bool-cases (str_lt z.detected_at x.detected_at)) [
      | inl f ↦ In_head (rw (q, f) at m) q
      | inr f ↦ inr (rw (q, f) at m)
    ]
    | inr q ↦ In_rest (rw q at m) (λ n. upsert-In key x seen n)
  ]

  abbrev pub OtherKey : Str × DiagnosticItem F → Str × DiagnosticItem F → Type 0
  OtherKey a b = same a.0 b.0 ≡ false

  upsert-OtherKey :
      (key : Str) (x : DiagnosticItem F) (seen : List (Str × DiagnosticItem F))
      (e : Str × DiagnosticItem F)
      → same e.0 key ≡ false
      → All (OtherKey e) seen
      → All (OtherKey e) (upsert key x seen)
  unfolding upsert
  upsert-OtherKey key x [] e n h = (n, tt)
  upsert-OtherKey key x ((k, z) ∷ seen) e n (p, h) = elim (Bool-cases (same k key)) [
    | inl q ↦ rw q (elim (Bool-cases (str_lt z.detected_at x.detected_at)) [
      | inl f ↦ rw f (p, h)
      | inr f ↦ rw f (p, h)
    ])
    | inr q ↦ rw q (p, upsert-OtherKey key x seen e n h)
  ]

  pub upsert-Apart :
      (key : Str) (x : DiagnosticItem F) (seen : List (Str × DiagnosticItem F))
      → Apart OtherKey seen
      → Apart OtherKey (upsert key x seen)
  unfolding upsert
  upsert-Apart key x [] h = (tt, tt)
  upsert-Apart key x ((k, z) ∷ seen) (p, h) = elim (Bool-cases (same k key)) [
    | inl q ↦ rw q (elim (Bool-cases (str_lt z.detected_at x.detected_at)) [
      | inl f ↦ rw f (p, h)
      | inr f ↦ rw f (p, h)
    ])
    | inr q ↦ rw q (upsert-OtherKey key x seen (k, z) q p, upsert-Apart key x seen h)
  ]
