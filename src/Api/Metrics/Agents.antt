-- ===== src/Api/Metrics/Agents.antt =====
-- `useHubAgentMetrics` of go/web/frontend/src/api/useHubAgentMetrics.ts while the agent of the page
-- changes: its requests in flight, whose answers come in any order. The layout of an agent stays
-- mounted when the router goes from one agent to another, so the hook keeps its state.
use instace_metric_collector.Common.{
  erase, same, same_refl, Bool-cases, Str, is_empty, true, false, List, [], ◌∷◌, Option, none, some,
  In, here, there, ◌≡◌, ◌⊎◌, inl, inr, refl, ◌∙◌, sym, ap, ℕ, if◌then◌else◌,
}
use instace_metric_collector.Api.Types.{MetricsSnapshot}
use instace_metric_collector.Api.Client.{Settled, resolved, rejected}
use instace_metric_collector.Api.Metrics.{MetricsState, initial, current_settled, apply, lost}

-- The agent of the page, and the agents whose metrics are asked for, the latest first. `origin`,
-- which the program does not keep, is the agent whose answer is shown.
pub record System (F : Type 0) : Type 0 where
  pub agent : Option Str
  pub ui : MetricsState F
  pub asked : List Str
  pub origin : Option Str

-- `if (!agentId) return`, and else a request.
abbrev ask_for : Option Str → List Str → List Str
ask_for none asked = asked
ask_for (some id) asked = if is_empty id then asked else id ∷ asked

In-erase : (a : Str) (xs : List Str) {x : Str} → In x (erase a xs) → In x xs
unfolding erase
In-erase a [] m = m
In-erase a (y ∷ ys) {x} m = elim (Bool-cases (same y a)) [
  | inl e ↦ there (rw e at m)
  | inr e ↦ kept (λ k. In-erase a ys k) (rw e at m)
]
  where
    kept : (In x (erase a ys) → In x ys) → In x (y ∷ erase a ys) → In x (y ∷ ys)
    kept f (here q) = here q
    kept f (there k) = there (f k)

In-ask_for :
    (id : Option Str) (asked : List Str) {x : Str}
    → In x (ask_for id asked)
    → (id ≡ some x) ⊎ In x asked
In-ask_for none asked m = inr m
In-ask_for (some id) asked {x} m = elim (Bool-cases (is_empty id)) [
  | inl e ↦ inr (rw e at m)
  | inr e ↦ asked_now (rw e at m)
]
  where
    asked_now : In x (id ∷ asked) → (some id ≡ some x) ⊎ In x asked
    asked_now (here q) = inl (ap some (sym q))
    asked_now (there k) = inr k

same_some : {a b : Str} → some a ≡ some b → a ≡ b
same_some e = cc

module _ {F : Type 0} where
  -- The effect, which runs when the agent changes and leaves the state as it is.
  unfoldable pub open_agent : Option Str → System F → System F
  open_agent id s = record s { agent = id; asked = ask_for id s.asked }

  unfoldable pub answered_by : Str → Settled (Option (MetricsSnapshot F)) → Option Str → Option Str
  answered_by id (resolved (some snap)) origin = some id
  answered_by id (resolved none) origin = origin
  answered_by id (rejected message) origin = origin

module _ {F : Type 0} (date_ms : Str → Option ℕ) where
  unfoldable pub take_answer : Str → Settled (Option (MetricsSnapshot F)) → System F → System F
  take_answer id answer s = record {
    agent = s.agent;
    ui = current_settled date_ms answer s.ui;
    asked = erase id s.asked;
    origin = answered_by id answer s.origin;
  }

  -- A tick of the interval, and an answer.
  pub data Step (s : System F) : System F → Type 0 where
    ticked : Step s (open_agent s.agent s)
    settled :
        (id : Str) (answer : Settled (Option (MetricsSnapshot F)))
        → In id s.asked
        → Step s (take_answer id answer s)

  -- The hook is mounted with an agent; later the agent changes or stays.
  pub data Reach : System F → Type 0 where
    mounted :
        (id : Option Str)
        → Reach (open_agent id (record { agent = id; ui = initial; asked = []; origin = none }))
    changed : {s : System F} (id : Option Str) → Reach s → Reach (open_agent id s)
    next : {s t : System F} → Reach s → Step s t → Reach t

  -- Steps in which the agent stays.
  pub data Stays (s : System F) : System F → Type 0 where
    here_still : Stays s s
    one_more : {t u : System F} → Stays s t → Step t u → Stays s u

  -- All that is asked for and shown is the agent's own.
  pub record IsOwn (id : Str) (s : System F) : Type 0 where
    pub agent : s.agent ≡ some id
    pub asked : (a : Str) → In a s.asked → a ≡ id
    pub shown : (s.ui.snapshot ≡ none) ⊎ (s.origin ≡ some id)

  Step-IsOwn : (id : Str) {s t : System F} → Step s t → IsOwn id s → IsOwn id t
  unfolding open_agent take_answer answered_by current_settled lost
  Step-IsOwn id {s} ticked own = record {
    agent = own.agent;
    asked = λ a k. elim (In-ask_for s.agent s.asked k) [
      | inl e ↦ same_some (sym e ∙ own.agent)
      | inr m ↦ own.asked a m
    ];
    shown = own.shown;
  }
  Step-IsOwn id {s} (settled a answer m) own = record {
    agent = own.agent;
    asked = λ x k. own.asked x (In-erase a s.asked k);
    shown = shown_after answer;
  }
    where
      shown_after :
          (answer : Settled (Option (MetricsSnapshot F)))
          → ((take_answer a answer s).ui.snapshot ≡ none)
            ⊎ ((take_answer a answer s).origin ≡ some id)
      shown_after (resolved none) = own.shown
      shown_after (resolved (some snap)) = inr (ap some (own.asked a m))
      shown_after (rejected message) = own.shown

  Stays-IsOwn : (id : Str) {s t : System F} → Stays s t → IsOwn id s → IsOwn id t
  Stays-IsOwn id here_still own = own
  Stays-IsOwn id (one_more r st) own = Step-IsOwn id st (Stays-IsOwn id r own)

  -- While the agent of the page stays the same, the snapshot shown, if there is one, is an answer to
  -- a request for this agent.
  pub own_snapshot :
      (id : Str) {s : System F}
      → Stays
          (open_agent
            (some id)
            (record { agent = some id; ui = initial; asked = []; origin = none }))
          s
      → (s.ui.snapshot ≡ none) ⊎ (s.origin ≡ some id)
  unfolding open_agent initial
  own_snapshot id r = (Stays-IsOwn id r opened).shown
    where
      opened : IsOwn id (
          open_agent
            (some id)
            (record { agent = some id; ui = initial; asked = []; origin = none }))
      opened = record {
        agent = refl;
        asked = λ a k. elim (In-ask_for (some id) [] k) [
          | inl e ↦ same_some (sym e)
          | inr m ↦ elim m [ ]
        ];
        shown = inl refl;
      }

  -- For any two agents whose ids are not empty, and any snapshots of theirs, a state can be reached
  -- in which the page is the second agent's, every request has been answered, and the snapshot of
  -- the first agent is shown, as live.
  pub other_agent_shown :
      (a b : Str) (snap_a snap_b : MetricsSnapshot F)
      → is_empty a ≡ false
      → is_empty b ≡ false
      → (s : System F) × Reach s
        × (s.agent ≡ some b)
        × (s.asked ≡ [])
        × (s.origin ≡ some a)
        × (s.ui.live ≡ true)
        × (s.ui.snapshot ≡ some snap_a)
  unfolding open_agent take_answer answered_by current_settled apply erase
  other_agent_shown a b snap_a snap_b p q =
      let one = mounted (some a) in
      let two = changed (some b) one in
      let three = next two (settled b (resolved (some snap_b)) (rw (p, q) (here refl))) in
      let four =
        next three
          (settled a (resolved (some snap_a)) (rw (p, q) (rw (same_refl b) (here refl)))) in
      (_, four, refl, rw (p, q, same_refl b) (rw (same_refl a) refl), refl, refl, refl)
