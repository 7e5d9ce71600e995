-- ===== src/Common/Text/Digits.antt =====
-- The decimal digits of `show_nat` read back.
use Prim.Native.Nat.{ℕ, zero, suc, ◌+◌, ◌*◌, ◌-◌, ◌/◌, ◌%◌, ◌<◌}
use mathlib.Core.Path.{◌≡◌, refl}
use mathlib.Core.Bool.{false}
use mathlib.Core.Logic.{inl, inr}
use mathlib.Core.List.{[], ◌∷◌, ◌++◌}
use native.Mathlib.Omega.{arith}
use instace_metric_collector.Common.Tests.{ltb, Bool-cases}
use instace_metric_collector.Common.Text.{Str, is_empty, digits_from, show_nat}

-- The number that digits stand for, after those read so far.
unfoldable pub read_digits : ℕ → Str → ℕ
read_digits sofar [] = sofar
read_digits sofar (c ∷ s) = read_digits (sofar * 10 + (c - 48)) s

read_digits-append :
    (sofar : ℕ) (s t : Str) → read_digits sofar (s ++ t) ≡ read_digits (read_digits sofar s) t
unfolding read_digits
read_digits-append sofar [] t = refl
read_digits-append sofar (c ∷ s) t = read_digits-append (sofar * 10 + (c - 48)) s t

read_digits-digits_from : (f n : ℕ) → n < f → read_digits 0 (digits_from f n) ≡ n
unfolding digits_from read_digits
read_digits-digits_from zero n h = omega arith
read_digits-digits_from (suc f) n h = elim (Bool-cases (ltb n 10)) [
  | inl e ↦ rw e (omega arith)
  | inr e ↦
      let k : n / 10 < f = ground arith in
      rw
        (
          e,
          read_digits-append 0 (digits_from f (n / 10)) ((n % 10 + 48) ∷ []),
          read_digits-digits_from f (n / 10) k,
        )
        (omega arith)
]

-- Reading what was printed gives the number back.
pub read_digits-show_nat : (n : ℕ) → read_digits 0 (show_nat n) ≡ n
unfolding show_nat
read_digits-show_nat n = read_digits-digits_from (suc n) n (omega arith)

append_not_empty : (s : Str) (c : ℕ) → is_empty (s ++ c ∷ []) ≡ false
append_not_empty [] c = refl
append_not_empty (d ∷ s) c = refl

-- A number is printed with at least one digit.
pub show_nat_not_empty : (n : ℕ) → is_empty (show_nat n) ≡ false
unfolding show_nat digits_from
show_nat_not_empty n = elim (Bool-cases (ltb n 10)) [
  | inl e ↦ rw e refl
  | inr e ↦ rw e (append_not_empty (digits_from n (n / 10)) (n % 10 + 48))
]
