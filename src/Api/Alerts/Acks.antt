-- ===== src/Api/Alerts/Acks.antt =====
-- Acknowledging and silencing as a step relation: a button of an open alert starts a request, and
-- a request in flight settles at any later time, in any order.
use instace_metric_collector.Common.{
  erase, Str, codes, same, same→eq, false, List, [], ◌∷◌, Option, none, some, length, In, here,
  there, length-map, sym, ◌≡◌, ◌≢◌, ◌⊎◌, inl, inr, refl, Bool-cases,
}
use instace_metric_collector.Api.Client.{Settled, resolved, rejected}
use instace_metric_collector.Api.Alerts.{
  AlertRecord, SilenceEntry, AlertsState, initial, reload_settled, acknowledge_start,
  acknowledge_settled, replace, silence_start, silence_settled, silence_key,
}

In-erase_head : (id other : Str) (xs : List Str) → other ≢ id → In other (erase id (other ∷ xs))
unfolding erase
In-erase_head id other xs n = elim (Bool-cases (same other id)) [
  | inl e ↦ absurd (n (same→eq _ _ e))
  | inr e ↦ rw e (here refl)
]

pub record System (V : Type 0) : Type 0 where
  pub ui : AlertsState V
  -- The alerts whose acknowledgement, and the keys whose silence, is in flight.
  pub acks : List Str
  pub silences : List Str

module _ {V : Type 0} where
  -- The button of an alert is enabled: the alert is open, and not the one that is marked.
  pub record CanAck (s : System V) (a : AlertRecord V) : Type 0 where
    pub listed : In a s.ui.alerts
    pub is_open : a.status ≡ codes "OPEN"
    pub free : s.ui.acking_id ≢ some a.id

  pub record CanSilence (s : System V) (a : AlertRecord V) : Type 0 where
    pub listed : In a s.ui.alerts
    pub is_open : a.status ≡ codes "OPEN"
    pub free : s.ui.silencing_key ≢ some (silence_key a.agent_id a.rule_id)

  pub data Step (s : System V) : System V → Type 0 where
    reload :
        (answer : Settled (Option (List (AlertRecord V))))
        → Step s (record s { ui = reload_settled answer s.ui })
    ack :
        (a : AlertRecord V)
        → CanAck s a
        → Step s (record s { ui = acknowledge_start a.id s.ui; acks = a.id ∷ s.acks })
    acked :
        (id : Str) (answer : Settled (AlertRecord V))
        → In id s.acks
        → Step s (record s { ui = acknowledge_settled id answer s.ui; acks = erase id s.acks })
    silence :
        (a : AlertRecord V)
        → CanSilence s a
        → Step s (record s {
          ui = silence_start a s.ui;
          silences = silence_key a.agent_id a.rule_id ∷ s.silences;
        })
    silenced :
        (key : Str) (answer : Settled SilenceEntry)
        → In key s.silences
        → Step s (record s { ui = silence_settled answer s.ui; silences = erase key s.silences })

  pub data Reach : System V → Type 0 where
    start : Reach (record { ui = initial; acks = []; silences = [] })
    next : {s t : System V} → Reach s → Step s t → Reach t

  -- What is marked as busy is in flight.
  pub record IsBusy (s : System V) : Type 0 where
    pub acking : (id : Str) → s.ui.acking_id ≡ some id → In id s.acks
    pub silencing : (key : Str) → s.ui.silencing_key ≡ some key → In key s.silences

  Step-IsBusy : {s t : System V} → Step s t → IsBusy s → IsBusy t
  unfolding reload_settled acknowledge_start acknowledge_settled silence_start silence_settled
  Step-IsBusy (reload (resolved given)) b = record { acking = b.acking; silencing = b.silencing }
  Step-IsBusy (reload (rejected message)) b = record { acking = b.acking; silencing = b.silencing }
  Step-IsBusy (ack a c) b = record { acking = λ id e. here (cc); silencing = b.silencing }
  Step-IsBusy (acked id (resolved updated) m) b = record {
    acking = λ i e. cc;
    silencing = b.silencing;
  }
  Step-IsBusy (acked id (rejected message) m) b = record {
    acking = λ i e. cc;
    silencing = b.silencing;
  }
  Step-IsBusy (silence a c) b = record { acking = b.acking; silencing = λ key e. here (cc) }
  Step-IsBusy (silenced key answer m) b = record { acking = b.acking; silencing = λ k e. cc }

  -- Whatever the clicks and the answers, in whatever order: an alert that is shown as being
  -- acknowledged, or silenced, has such a request in flight.
  pub Reach-IsBusy : {s : System V} → Reach s → IsBusy s
  unfolding initial
  Reach-IsBusy start = record { acking = λ id e. cc; silencing = λ key e. cc }
  Reach-IsBusy (next r st) = Step-IsBusy st (Reach-IsBusy r)

  -- Two acknowledgements in flight share one mark. From any reachable state with two open alerts
  -- of different ids, neither of them the marked one, a state can be reached in which the second
  -- one's acknowledgement is in flight and its button is enabled again.
  pub double_ack :
      {s : System V} (a b : AlertRecord V)
      → Reach s
      → CanAck s a
      → CanAck s b
      → a.id ≢ b.id
      → (t : System V) × Reach t × In b.id t.acks × CanAck t b
  unfolding acknowledge_start acknowledge_settled
  double_ack {s} a b r p q n =
      let first = next r (ack a p) in
      let second =
        next first
          (ack b (record { listed = q.listed; is_open = q.is_open; free = λ e. n (cc) })) in
      let third = next second (acked a.id (rejected []) (there (here refl))) in
      (
        _,
        third,
        In-erase_head a.id b.id (a.id ∷ s.acks) (λ e. n (sym e)),
        record { listed = q.listed; is_open = q.is_open; free = λ e. cc },
      )

module _ {V : Type 0} (id : Str) (updated : AlertRecord V) where
  length-replace : (old : List (AlertRecord V)) → length (replace id updated old) ≡ length old
  unfolding replace
  length-replace old = length-map _ old

  replace_keeps :
      (old : List (AlertRecord V)) {a : AlertRecord V}
      → In a old
      → same a.id id ≡ false
      → In a (replace id updated old)
  unfolding replace
  replace_keeps [] m n = elim m [ ]
  replace_keeps (x ∷ xs) {a} (here e) n = let k : same x.id id ≡ false = rw (← e) n in rw k (here e)
  replace_keeps (x ∷ xs) (there m) n = there (replace_keeps xs m n)

  replace_only :
      (old : List (AlertRecord V)) {a : AlertRecord V}
      → In a (replace id updated old)
      → (a ≡ updated) ⊎ (In a old × (same a.id id ≡ false))
  unfolding replace
  replace_only [] m = elim m [ ]
  replace_only (x ∷ xs) {a} (here e) = elim (Bool-cases (same x.id id)) [
    | inl y ↦ inl (rw y at e)
    | inr y ↦ let p : a ≡ x = rw y at e in inr (here p, rw p y)
  ]
  replace_only (x ∷ xs) (there m) = elim (replace_only xs m) [
    | inl e ↦ inl e
    | inr (k, n) ↦ inr (there k, n)
  ]

  -- A successful acknowledgement keeps the number of alerts, keeps each alert of another id, and
  -- puts nothing in the list but the updated record; and it clears the mark.
  pub acknowledge_settled_lem :
      (s : AlertsState V)
      → let t = acknowledge_settled id (resolved updated) s in
        (length t.alerts ≡ length s.alerts)
        × ((a : AlertRecord V) → In a s.alerts → same a.id id ≡ false → In a t.alerts)
        × ((a : AlertRecord V)
            → In a t.alerts
            → (a ≡ updated) ⊎ (In a s.alerts × (same a.id id ≡ false)))
        × (t.acking_id ≡ none)
  unfolding acknowledge_settled
  acknowledge_settled_lem s = (
    length-replace s.alerts,
    (λ a m n. replace_keeps s.alerts m n),
    (λ a m. replace_only s.alerts m),
    refl,
  )
