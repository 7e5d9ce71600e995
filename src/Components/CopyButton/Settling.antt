-- ===== src/Components/CopyButton/Settling.antt =====
-- After the last click the button comes to rest, with its own label.
use instace_metric_collector.Common.{
  ℕ, zero, suc, ◌+◌, ◌*◌, ◌≤◌, ◌<◌, Str, Bool, true, false, Option, ◌≡◌, refl, arith,
}
use instace_metric_collector.Components.CopyButton.{
  CopyState, not_copied, button_label, or_default, Step, click, written, refused, fired,
}

pub data Reach : CopyState → Type 0 where
  start : Reach not_copied
  next : {s t : CopyState} → Reach s → Step s t → Reach t

-- A step that is no click.
abbrev pub IsQuiet : {s t : CopyState} → Step s t → Type 0
IsQuiet (click c w n) = ⊥
IsQuiet (written c w n) = Unit
IsQuiet (refused c w n) = Unit
IsQuiet (fired c w n) = Unit

-- The states that follow by a number of steps without a click.
pub data Run (s : CopyState) : ℕ → CopyState → Type 0 where
  stay : Run s 0 s
  go : {n : ℕ} {t u : CopyState} → Run s n t → (st : Step t u) → IsQuiet st → Run s (suc n) u

abbrev weight : CopyState → ℕ
weight s = 2 * s.writes + s.timers

Step-weight : {s t : CopyState} (st : Step s t) → IsQuiet st → suc (weight t) ≤ weight s
Step-weight (click c w n) q = absurd q
Step-weight (written c w n) q = omega arith
Step-weight (refused c w n) q = omega arith
Step-weight (fired c w n) q = omega arith

Run-weight : {s t : CopyState} {n : ℕ} → Run s n t → n + weight t ≤ weight s
Run-weight stay = omega arith
Run-weight (go r st q) = omega (arith, Run-weight r, Step-weight st q)

-- The label of the success is up only while a timer runs.
IsTimed : CopyState → Type 0
IsTimed s = s.copied ≡ true → 0 < s.timers

Step-IsTimed : {s t : CopyState} → Step s t → IsTimed s → IsTimed t
unfolding IsTimed
Step-IsTimed (click c w n) h = h
Step-IsTimed (written c w n) h = λ e. omega arith
Step-IsTimed (refused c w n) h = h
Step-IsTimed (fired c w n) h = λ e. cc

Reach-IsTimed : {s : CopyState} → Reach s → IsTimed s
unfolding IsTimed
Reach-IsTimed start = λ e. cc
Reach-IsTimed (next r st) = Step-IsTimed st (Reach-IsTimed r)

Run-Reach : {s t : CopyState} {n : ℕ} → Reach s → Run s n t → Reach t
Run-Reach r stay = r
Run-Reach r (go run st q) = next (Run-Reach r run) st

at_rest :
    (c : Bool) (w n : ℕ)
    → IsTimed (record { copied = c; writes = w; timers = n })
    → ((u : CopyState) (st : Step (record { copied = c; writes = w; timers = n }) u)
        → IsQuiet st
        → ⊥)
    → c ≡ false
unfolding IsTimed
at_rest false w n h stuck = refl
at_rest true w zero h stuck = absurd (omega (arith, h refl))
at_rest true w (suc n) h stuck = absurd (stuck _ (fired true w n) tt)

-- From every state that can be reached, a run without clicks has at most two steps for each write
-- that waits and one for each timer, and where it can go no further the button has its own label.
pub copy_settles :
    (tr : Str → Str) (label : Option Str) {s : CopyState}
    → Reach s
    → {n : ℕ} {t : CopyState} → Run s n t
    → (n ≤ 2 * s.writes + s.timers)
      × (((u : CopyState) (st : Step t u) → IsQuiet st → ⊥)
          → button_label tr label t ≡ or_default tr label)
unfolding button_label
copy_settles tr label r {t = t} run = (
  omega (arith, Run-weight run),
  λ stuck. rw (at_rest t.copied t.writes t.timers (Reach-IsTimed (Run-Reach r run)) stuck) refl,
)
