-- ===== src/Components/Tabs.antt =====
-- go/web/frontend/src/components/PillTabs.tsx: the tabs and the marker behind the active one.
use instace_metric_collector.Common.{
  ℕ, suc, ◌<◌, Str, same, same→eq, false, List, [], ◌∷◌, map, Bool, Option, none, ◌⊎◌, All, some,
  or_else, length, get_elem?, ◌≡◌, ◌≢◌, refl, arith, Bool-cases, inl, inr, if◌then◌else◌,
}

pub record Tab : Type 0 where
  pub id : Str
  pub label : Str

abbrev shift : Option ℕ → Option ℕ
shift none = none
shift (some i) = some (suc i)

-- `tabs.findIndex((t) => t.id === active)`, `none` for -1.
unfoldable pub find_index : Str → List Tab → Option ℕ
find_index active [] = none
find_index active (t ∷ tabs) =
    let rest = shift (find_index active tabs) in if same t.id active then some 0 else rest

-- `Math.max(…, 0)`.
unfoldable pub marker_index : Str → List Tab → ℕ
unfolding find_index
marker_index active tabs = or_else (find_index active tabs) 0

-- The marker's offset and width, as fractions of the row's width: index / count and 1 / count.
pub record Marker : Type 0 where
  pub index : ℕ
  pub count : ℕ

unfoldable pub marker : Str → List Tab → Marker
marker active tabs = record { index = marker_index active tabs; count = length tabs }

-- The row: the marker, and the buttons, each with whether it is the active one. `SegmentedControl`
-- is the same row.
pub record TabRow : Type 0 where
  pub marker : Marker
  pub buttons : List (Tab × Bool)

unfoldable pub pill_tabs : List Tab → Str → TabRow
unfolding marker
pill_tabs tabs active = record {
  marker = marker active tabs;
  buttons = map (λ t. (t, same active t.id)) tabs;
}

unfoldable pub segmented_control : List Tab → Str → TabRow
unfolding pill_tabs
segmented_control options value = pill_tabs options value

-- The tab at an index is the active one.
abbrev pub IsActive : Str → Option Tab → Type 0
IsActive active none = ⊥
IsActive active (some t) = t.id ≡ active

find_index-cases :
    (active : Str) (tabs : List Tab)
    → ((find_index active tabs ≡ none) × All (λ t. same t.id active ≡ false) tabs)
      ⊎ ((i : ℕ) × (find_index active tabs ≡ some i)
          × (i < length tabs)
          × IsActive active (get_elem? tabs i))
unfolding find_index
find_index-cases active [] = inl (refl, tt)
find_index-cases active (t ∷ tabs) = elim (Bool-cases (same t.id active)) [
  | inl e ↦ inr (0, rw e, omega arith, same→eq t.id active e)
  | inr e ↦ elim (find_index-cases active tabs) [
    | inl (p, h) ↦ inl (rw (e, p), (e, h))
    | inr (i, p, l, a) ↦ inr (suc i, rw (e, p), omega arith, a)
  ]
]

-- In a row with a tab the marker stands behind one of the tabs: behind the active one if there is
-- one, and behind the first if there is none.
pub marker_lem :
    (active : Str) (tabs : List Tab)
    → tabs ≢ []
    → ((marker active tabs).index < (marker active tabs).count)
      × (IsActive active (get_elem? tabs (marker active tabs).index)
          ⊎ (((marker active tabs).index ≡ 0) × All (λ t. same t.id active ≡ false) tabs))
unfolding marker marker_index
marker_lem active tabs n = elim (find_index-cases active tabs) [
  | inl (p, h) ↦ rw p (first_tab tabs n, inr (refl, h))
  | inr (i, p, l, a) ↦ rw p (l, inl a)
]
  where
    first_tab : (tabs : List Tab) → tabs ≢ [] → 0 < length tabs
    first_tab [] n = absurd (n refl)
    first_tab (t ∷ tabs) n = omega arith
