-- ===== src/Common/Text.antt =====
-- Texts as lists of UTF-16 code units, with the string operations that the program calls.
pub mod Split
pub mod Digits
use Prim.Native.Char.{code}
use Prim.Native.String.{String}
use Prim.Native.Nat.{ℕ, zero, suc, ◌+◌, ◌-◌, ◌≤◌, ◌<◌, ◌/◌, ◌%◌}
use mathlib.Core.Path.{◌≡◌, refl, ap}
use mathlib.Core.Bool.{Bool, true, false, ◌&&◌, ◌||◌, not}
use mathlib.Core.Logic.{◌↔◌, ◌⊎◌, inl, inr}
use mathlib.Core.List.{List, [], ◌∷◌, ◌++◌, map}
use mathlib.Core.Option.{Option, none, some}
use native.Mathlib.Omega.{arith}
use instace_metric_collector.Common.Tests.{◌==◌, leb, ltb, if◌then◌else◌, Bool-cases, ==_iff}
use instace_metric_collector.Common.Lists.{keep, last?, All, any}

abbrev pub Str : Type 0
Str = List ℕ

-- The code units of a literal.
abbrev pub codes : String → Str
codes String.[] = []
codes (String.◌∷◌ c s) = code c ∷ codes s

-- `a === b`.
unfoldable pub same : Str → Str → Bool
same [] [] = true
same [] (d ∷ t) = false
same (c ∷ s) [] = false
same (c ∷ s) (d ∷ t) = c == d && same s t

pub same_refl : (s : Str) → same s s ≡ true
unfolding same
same_refl [] = refl
same_refl (c ∷ s) = ground (arith, same_refl s)

pub same→eq : (s t : Str) → same s t ≡ true → s ≡ t
unfolding same
same→eq [] [] h = refl
same→eq [] (d ∷ t) h = cc
same→eq (c ∷ s) [] h = cc
same→eq (c ∷ s) (d ∷ t) h = ground (arith, same→eq s t)

pub same_iff : (s t : Str) → (same s t ≡ true) ↔ (s ≡ t)
same_iff s t = (same→eq s t, λ e. rw e (same_refl t))

pub same_comm : (s t : Str) → same s t ≡ same t s
unfolding same
same_comm [] [] = refl
same_comm [] (d ∷ t) = refl
same_comm (c ∷ s) [] = refl
same_comm (c ∷ s) (d ∷ t) = ground (arith, same_comm s t)

-- `s === ''`, so that `!s` is `is_empty s`.
abbrev pub is_empty : Str → Bool
is_empty [] = true
is_empty (c ∷ s) = false

-- `s.startsWith(t)`.
unfoldable pub starts_with : Str → Str → Bool
starts_with s [] = true
starts_with [] (d ∷ t) = false
starts_with (c ∷ s) (d ∷ t) = c == d && starts_with s t

-- `s.includes(t)`.
unfoldable pub includes : Str → Str → Bool
unfolding starts_with
includes [] t = starts_with [] t
includes (c ∷ s) t = starts_with (c ∷ s) t || includes s t

prepend : ℕ → List Str → List Str
prepend c [] = (c ∷ []) ∷ []
prepend c (p ∷ ps) = (c ∷ p) ∷ ps

-- The pieces between the separators, empty ones too: `s.split(sep)` for a one-unit separator.
unfoldable pub split_on : (ℕ → Bool) → Str → List Str
unfolding prepend
split_on sep [] = [] ∷ []
split_on sep (c ∷ s) =
    let pieces = split_on sep s in if sep c then [] ∷ pieces else prepend c pieces

abbrev pub nonempty : Str → Bool
nonempty s = not (is_empty s)

-- The white space of `trim` and of `\s`.
abbrev pub is_space : ℕ → Bool
is_space c =
    (leb 9 c && leb c 13)
    || c == 32
    || c == 160
    || c == 0x1680
    || (leb 0x2000 c && leb c 0x200a)
    || c == 0x2028
    || c == 0x2029
    || c == 0x202f
    || c == 0x205f
    || c == 0x3000
    || c == 0xfeff

unfoldable pub trim_start : Str → Str
trim_start [] = []
trim_start (c ∷ s) = let rest = trim_start s in if is_space c then rest else c ∷ s

unfoldable pub trim_end : Str → Str
trim_end [] = []
trim_end (c ∷ s) = let rest = trim_end s in if is_space c && is_empty rest then [] else c ∷ rest

-- `s.trim()`.
unfoldable pub trim : Str → Str
unfolding trim_start trim_end
trim s = trim_end (trim_start s)

-- One decimal digit to a round; `suc n` rounds are enough for `n`.
digits_from : ℕ → ℕ → Str
digits_from zero n = []
digits_from (suc f) n =
    let high = digits_from f (n / 10) in
    if ltb n 10 then (n + 48) ∷ [] else high ++ (n % 10 + 48) ∷ []

-- `String(n)` for an integer.
unfoldable pub show_nat : ℕ → Str
unfolding digits_from
show_nat n = digits_from (suc n) n

-- ASCII case folding, which the `i` flag of a regular expression over ASCII letters uses.
abbrev pub lower_ascii : ℕ → ℕ
lower_ascii c = if leb 65 c && leb c 90 then c + 32 else c

-- `parts.join(sep)`.
unfoldable pub join : Str → List Str → Str
join sep [] = []
join sep (p ∷ []) = p
join sep (p ∷ q ∷ ps) = p ++ sep ++ join sep (q ∷ ps)

-- No piece of a split holds a separator.
abbrev pub Avoids : (ℕ → Bool) → Str → Type 0
Avoids sep = All (λ c. sep c ≡ false)

-- The first occurrence is removed.
unfoldable pub erase : Str → List Str → List Str
erase s [] = []
erase s (t ∷ ts) = let rest = t ∷ erase s ts in if same t s then ts else rest
