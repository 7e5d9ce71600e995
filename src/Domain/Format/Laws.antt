-- ===== src/Domain/Format/Laws.antt =====
-- What `formatBytes` shows: the right unit, the nearest tenth, and the one boundary it misses.
use instace_metric_collector.Common.{
  ℕ, ◌+◌, ◌*◌, ◌/◌, ◌^◌, ◌≤◌, ◌<◌, ltb, ◌≡◌, ◌⊎◌, inl, inr, arith, refl, codes, show_nat, ◌++◌,
  or_else, get_elem?, [], false,
}
use instace_metric_collector.Domain.Format.{unit_of, tenths, fixed1, format_bytes, units}

-- The unit fits the size: at least one of it, and less than the next one, where there is one.
abbrev pub IsUnit : ℕ → ℕ × ℕ → Type 0
IsUnit bytes (den, i) =
    (den ≡ 1024 ^ (i + 1)) × (i ≤ 3) × (den ≤ bytes) × ((i ≡ 3) ⊎ (bytes < den * 1024))

unit_of_cases :
    (bytes : ℕ)
    → 1024 ≤ bytes
    → (unit_of bytes ≡ (1024, 0)) × (bytes < 1048576)
      ⊎ (unit_of bytes ≡ (1048576, 1)) × (1048576 ≤ bytes) × (bytes < 1073741824)
      ⊎ (unit_of bytes ≡ (1073741824, 2)) × (1073741824 ≤ bytes) × (bytes < 1099511627776)
      ⊎ (unit_of bytes ≡ (1099511627776, 3)) × (1099511627776 ≤ bytes)
unfolding unit_of
unit_of_cases bytes h = ground arith

-- From 1024 bytes on the loop ends with a unit that fits: one of KB, MB, GB and TB, not more than
-- the size, and the largest such.
pub unit_of-IsUnit : (bytes : ℕ) → 1024 ≤ bytes → IsUnit bytes (unit_of bytes)
unit_of-IsUnit bytes h = elim (unit_of_cases bytes h) [
  | inl (e, k) ↦ rw e (refl, omega arith, h, inr k)
  | inr (inl (e, l, k)) ↦ rw e (refl, omega arith, l, inr k)
  | inr (inr (inl (e, l, k))) ↦ rw e (refl, omega arith, l, inr k)
  | inr (inr (inr (e, l))) ↦ rw e (refl, omega arith, l, inl refl)
]

div_bounds : (n d : ℕ) → 0 < d → ((n / d) * d ≤ n) × (n < (n / d) * d + d)
div_bounds n d h = (omega arith, omega arith)

-- The number of tenths that is shown is the nearest one to the size in its unit: twice the
-- distance is at most one tenth of the unit, and a size halfway between two is rounded up.
pub tenths_nearest :
    (bytes den : ℕ)
    → 0 < den
    → (tenths bytes den * (2 * den) ≤ 20 * bytes + den)
      × (20 * bytes < tenths bytes den * (2 * den) + den)
unfolding tenths
tenths_nearest bytes den h =
    let (low, high) = div_bounds (20 * bytes + den) (2 * den) (omega arith) in (low, omega arith)

-- From 1024 bytes on at least 1.0 of the unit is shown, and at most 1024.0 of a unit below the
-- largest.
pub tenths_range :
    (bytes : ℕ)
    → 1024 ≤ bytes
    → (10 ≤ tenths bytes (unit_of bytes).0)
      × (((unit_of bytes).1 ≡ 3) ⊎ (tenths bytes (unit_of bytes).0 ≤ 10240))
unfolding tenths
tenths_range bytes h = elim (unit_of_cases bytes h) [
  | inl (e, k) ↦ rw e (omega arith, inr (omega arith))
  | inr (inl (e, l, k)) ↦ rw e (omega arith, inr (omega arith))
  | inr (inr (inl (e, l, k))) ↦ rw e (omega arith, inr (omega arith))
  | inr (inr (inr (e, l))) ↦ rw e (omega arith, inl refl)
]

tenths_at_boundary :
    (bytes : ℕ)
    → 1024 ≤ bytes
    → bytes < (unit_of bytes).0 * 1024
    → 20480 * (unit_of bytes).0 ≤ 20 * bytes + (unit_of bytes).0
    → tenths bytes (unit_of bytes).0 ≡ 10240
unfolding tenths
tenths_at_boundary bytes h = elim (unit_of_cases bytes h) [
  | inl (e, k) ↦ rw e (omega arith)
  | inr (inl (e, l, k)) ↦ rw e (omega arith)
  | inr (inr (inl (e, l, k))) ↦ rw e (omega arith)
  | inr (inr (inr (e, l))) ↦ rw e (omega arith)
]

fixed1_boundary : fixed1 10240 ≡ codes "1024.0"
unfolding fixed1 show_nat
fixed1_boundary = refl

ltb_of_le : (a b : ℕ) → b ≤ a → ltb a b ≡ false
ltb_of_le a b h = ground arith

-- A size of at least 1024 bytes that is less than 1024 of its unit, by a twentieth of the unit at
-- most, is printed as "1024.0" of that unit.
pub format_bytes_boundary :
    (bytes : ℕ)
    → 1024 ≤ bytes
    → bytes < (unit_of bytes).0 * 1024
    → 20480 * (unit_of bytes).0 ≤ 20 * bytes + (unit_of bytes).0
    → format_bytes bytes
      ≡ codes "1024.0" ++ codes " " ++ or_else (get_elem? units (unit_of bytes).1) []
unfolding format_bytes
format_bytes_boundary bytes h below near =
    rw (ltb_of_le bytes 1024 h, tenths_at_boundary bytes h below near, fixed1_boundary) refl
