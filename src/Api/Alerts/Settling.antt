-- ===== src/Api/Alerts/Settling.antt =====
-- Once no button is pressed any more, the marks of the buttons go.
use instace_metric_collector.Common.{
  erase, ℕ, suc, ◌+◌, ◌≤◌, Str, same, same_refl, Bool-cases, List, [], ◌∷◌, length, In, here, there,
  Option, Option-cases, none, some, ◌≡◌, inl, inr, refl, sym, ap, ◌∙◌, arith,
}
use instace_metric_collector.Api.Client.{rejected}
use instace_metric_collector.Api.Alerts.Acks.{
  System, Step, reload, ack, acked, silence, silenced, Reach, next, IsBusy, Reach-IsBusy,
}

length-erase : (id : Str) (xs : List Str) → In id xs → suc (length (erase id xs)) ≡ length xs
unfolding erase
length-erase id [] m = elim m [ ]
length-erase id (x ∷ xs) (here p) = rw (ap (λ y. same y id) (sym p) ∙ same_refl id) refl
length-erase id (x ∷ xs) (there m) = elim (Bool-cases (same x id)) [
  | inl e ↦ rw e refl
  | inr e ↦ rw e (omega (arith, length-erase id xs m))
]

no_id :
    (o : Option Str) (xs : List Str)
    → ((id : Str) → o ≡ some id → In id xs)
    → ((id : Str) → In id xs → ⊥)
    → o ≡ none
no_id o xs busy stuck = elim (Option-cases o) [
  | inl e ↦ e
  | inr (id, e) ↦ absurd (stuck id (busy id e))
]

module _ {V : Type 0} where
  -- A step that answers a request of a button.
  abbrev pub IsAnswer : {s t : System V} → Step s t → Type 0
  IsAnswer (reload answer) = ⊥
  IsAnswer (ack a c) = ⊥
  IsAnswer (acked id answer m) = Unit
  IsAnswer (silence a c) = ⊥
  IsAnswer (silenced key answer m) = Unit

  -- The states that follow by a number of answers.
  pub data Answers (s : System V) : ℕ → System V → Type 0 where
    stay : Answers s 0 s
    go :
        {n : ℕ} {t u : System V}
        → Answers s n t
        → (st : Step t u) → IsAnswer st
        → Answers s (suc n) u

  abbrev pending : System V → ℕ
  pending s = length s.acks + length s.silences

  Step-pending : {s t : System V} (st : Step s t) → IsAnswer st → suc (pending t) ≡ pending s
  Step-pending (reload answer) q = absurd q
  Step-pending (ack a c) q = absurd q
  Step-pending {s} (acked id answer m) q = omega (arith, length-erase id s.acks m)
  Step-pending (silence a c) q = absurd q
  Step-pending {s} (silenced key answer m) q = omega (arith, length-erase key s.silences m)

  Answers-pending : {s t : System V} {n : ℕ} → Answers s n t → n + pending t ≡ pending s
  Answers-pending stay = omega arith
  Answers-pending (go r st q) = omega (arith, Answers-pending r, Step-pending st q)

  Answers-Reach : {s t : System V} {n : ℕ} → Reach s → Answers s n t → Reach t
  Answers-Reach r stay = r
  Answers-Reach r (go run st q) = next (Answers-Reach r run) st

  -- From every state that can be reached, a run of answers to the buttons' requests has at most one
  -- step for each request in flight, every mark on its way stands for a request in flight, and where
  -- no answer is left to come no button is marked.
  pub marks_settle :
      {s : System V}
      → Reach s
      → {n : ℕ} {t : System V} → Answers s n t
      → (n ≤ length s.acks + length s.silences)
        × IsBusy t
        × (((u : System V) (st : Step t u) → IsAnswer st → ⊥)
            → (t.ui.acking_id ≡ none) × (t.ui.silencing_key ≡ none))
  marks_settle r {t = t} run =
      let busy = Reach-IsBusy (Answers-Reach r run) in
      (
        omega (arith, Answers-pending run),
        busy,
        λ stuck. (
          no_id t.ui.acking_id t.acks busy.acking (λ id m. stuck _ (acked id (rejected []) m) tt),
          no_id t.ui.silencing_key t.silences busy.silencing
              (λ key m. stuck _ (silenced key (rejected []) m) tt),
        ),
      )
