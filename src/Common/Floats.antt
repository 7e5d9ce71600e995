-- ===== src/Common/Floats.antt =====
-- What the program does with JavaScript numbers that are not integers. The type and its
-- operations are the engine's; an instance over ℕ runs the tests.
use Prim.Native.Nat.{ℕ, ◌+◌, ◌-◌, ◌*◌, ◌/◌}
use mathlib.Core.Bool.{Bool}
use instace_metric_collector.Common.Tests.{ltb, leb}
use instace_metric_collector.Common.Lists.{length}
use instace_metric_collector.Common.Text.{Str, show_nat}

pub record Floats (F : Type 0) : Type 0 where
  pub lt : F → F → Bool
  pub le : F → F → Bool
  pub of_nat : ℕ → F
  pub add : F → F → F
  pub sub : F → F → F
  pub mul : F → F → F
  pub div : F → F → F
  -- `Number(s)` of a string.
  pub number : Str → F
  -- `x` as a condition: neither 0 nor NaN.
  pub truthy : F → Bool
  -- `x.toFixed(digits)`, `Math.round(x)` as text, and `String(x)`.
  pub to_fixed : F → ℕ → Str
  pub rounded : F → Str
  pub show : F → Str

instance abbrev pub nat_floats : Floats ℕ
nat_floats = record {
  lt = ltb;
  le = leb;
  of_nat = λ n. n;
  add = λ a b. a + b;
  sub = λ a b. a - b;
  mul = λ a b. a * b;
  div = λ a b. a / b;
  number = length;
  truthy = ltb 0;
  to_fixed = λ n d. show_nat n;
  rounded = show_nat;
  show = show_nat;
}
