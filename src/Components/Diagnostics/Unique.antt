-- ===== src/Components/Diagnostics/Unique.antt =====
-- What `dedupeInsights` leaves: one item for each identity, and the newest.
use mathlib.Core.Path.{subst}
use instace_metric_collector.Common.{
  Str, same, same_comm, Bool, false, List, [], ◌∷◌, map, All, In, here, there, In-map, In-map_intro,
  ◌≡◌, ◌⊎◌, inl, inr, refl, sym, ap, ◌∙◌,
}
use instace_metric_collector.Common.Sort.{In-sort_by, sort_by-In, Apart, sort_by-Apart}
use instace_metric_collector.Common.Floats.{Floats}
use instace_metric_collector.Components.Diagnostics.{
  DiagnosticItem, diagnostic_dedupe_key, str_lt, upsert, value_of, collect, dedupe_insights,
}
use instace_metric_collector.Components.Diagnostics.Upsert.{
  str_le_trans, Newest, upsert_self, upsert-keeps, upsert-In, OtherKey, upsert-Apart,
}

module _ {F : Type 0} ⦃fl : Floats F⦄ where
  abbrev key : DiagnosticItem F → Str
  key = diagnostic_dedupe_key

  collect-Newest :
      (items : List (DiagnosticItem F)) (seen : List (Str × DiagnosticItem F)) {j at : Str}
      → Newest j at seen
      → Newest j at (collect items seen)
  unfolding collect
  collect-Newest [] seen n = n
  collect-Newest (x ∷ items) seen {j = j} {at = at} n =
      let m = upsert-keeps (key x) x seen n.stored in
      collect-Newest items (upsert (key x) x seen) {j = j} {at = at} (record {
        item = m.item;
        stored = m.stored;
        newer = str_le_trans at n.item.detected_at m.item.detected_at n.newer m.newer;
      })

  collect-new :
      (items : List (DiagnosticItem F)) (seen : List (Str × DiagnosticItem F))
      {x : DiagnosticItem F}
      → In x items
      → Newest (key x) x.detected_at (collect items seen)
  unfolding collect
  collect-new [] seen m = elim m [ ]
  collect-new (y ∷ items) seen {x} (here p) =
      rw p (collect-Newest items (upsert (key y) y seen) (upsert_self (key y) y seen))
  collect-new (y ∷ items) seen (there m) = collect-new items (upsert (key y) y seen) m

  -- Everything stored is one of the items under its own key.
  collect-In :
      (items : List (DiagnosticItem F)) (seen : List (Str × DiagnosticItem F))
      {e : Str × DiagnosticItem F}
      → In e (collect items seen)
      → (In e.1 items × (e.0 ≡ key e.1)) ⊎ In e seen
  unfolding collect
  collect-In [] seen m = inr m
  collect-In (x ∷ items) seen {e} m = elim (collect-In items (upsert (key x) x seen) m) [
    | inl (k, q) ↦ inl (there k, q)
    | inr k ↦ elim (upsert-In (key x) x seen k) [
      | inl p ↦ inl (
        here (ap (λ (a : Str × DiagnosticItem F). a.1) p),
        ap (λ (a : Str × DiagnosticItem F). a.0) p
            ∙ sym (ap (λ (a : Str × DiagnosticItem F). key a.1) p),
      )
      | inr n ↦ inr n
    ]
  ]

  collect-Apart :
      (items : List (DiagnosticItem F)) (seen : List (Str × DiagnosticItem F))
      → Apart OtherKey seen
      → Apart OtherKey (collect items seen)
  unfolding collect
  collect-Apart [] seen h = h
  collect-Apart (x ∷ items) seen h =
      collect-Apart items (upsert (key x) x seen) (upsert-Apart (key x) x seen h)

  -- Two items with different keys.
  abbrev pub Differ : DiagnosticItem F → DiagnosticItem F → Type 0
  Differ a b = same (diagnostic_dedupe_key a) (diagnostic_dedupe_key b) ≡ false

  Differ-symm : (a b : DiagnosticItem F) → Differ a b → Differ b a
  Differ-symm a b h = rw (same_comm (key b) (key a)) h

  values_Differ :
      (x : DiagnosticItem F) (seen : List (Str × DiagnosticItem F))
      → ((e : Str × DiagnosticItem F) → In e seen → e.0 ≡ key e.1)
      → All (λ e. same (key x) e.0 ≡ false) seen
      → All (Differ x) (map value_of seen)
  values_Differ x [] own h = tt
  values_Differ x (e ∷ seen) own (p, h) =
      (rw (← own e (here refl)) p, values_Differ x seen (λ e m. own e (there m)) h)

  values_Apart :
      (seen : List (Str × DiagnosticItem F))
      → ((e : Str × DiagnosticItem F) → In e seen → e.0 ≡ key e.1)
      → Apart OtherKey seen
      → Apart Differ (map value_of seen)
  values_Apart [] own h = tt
  values_Apart (e ∷ seen) own (p, h) = (
    values_Differ e.1 seen (λ e m. own e (there m)) (rw (own e (here refl)) at p),
    values_Apart seen (λ e m. own e (there m)) h,
  )

  -- What is left are some of the items, no two of one identity, and for each item there is one of
  -- its identity whose text `detected_at` is not the smaller one, the texts compared as the code
  -- compares them, character by character and not as instants.
  pub dedupe_insights_lem :
      (locale_le : Str → Str → Bool) (items : List (DiagnosticItem F))
      → ((x : DiagnosticItem F) → In x (dedupe_insights locale_le items) → In x items)
        × Apart Differ (dedupe_insights locale_le items)
        × ((x : DiagnosticItem F)
            → In x items
            → (y : DiagnosticItem F) × In y (dedupe_insights locale_le items)
              × (diagnostic_dedupe_key y ≡ diagnostic_dedupe_key x)
              × (str_lt y.detected_at x.detected_at ≡ false))
  unfolding dedupe_insights
  dedupe_insights_lem locale_le items = (
    (λ x m.
        let (e, k, p) = In-map value_of (collect items []) (sort_by-In _ _ m) in
        subst (λ y. In y items) (sym p) (stored e k).0),
    sort_by-Apart Differ Differ-symm _ _
        (values_Apart (collect items []) (λ e m. (stored e m).1) (collect-Apart items [] tt)),
    (λ x m.
        let n = collect-new items [] m in
        (
          n.item,
          In-sort_by _ _ (In-map_intro value_of (collect items []) n.stored),
          sym (stored (key x, n.item) n.stored).1,
          n.newer,
        )),
  )
    where
      stored :
          (e : Str × DiagnosticItem F) → In e (collect items []) → In e.1 items × (e.0 ≡ key e.1)
      stored e m = elim (collect-In items [] m) [ inl q ↦ q | inr k ↦ elim k [ ] ]
