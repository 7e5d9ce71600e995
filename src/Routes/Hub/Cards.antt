-- ===== src/Routes/Hub/Cards.antt =====
-- Which agents the hub's page shows, and how it says when one was last seen.
use instace_metric_collector.Common.{
  ℕ, ◌+◌, ◌-◌, ◌*◌, ◌/◌, ◌≤◌, ◌<◌, ltb, Str, is_empty, includes, trim, Bool, true, List, In,
  In-keep, In-keep_intro, Option, ◌≡◌, ◌↔◌, ◌⊎◌, refl, arith, Bool-cases, inl, inr,
}
use instace_metric_collector.Api.Types.{AgentSummary}
use instace_metric_collector.Domain.AgentStatus.{
  success, warning, neutral, AgentListFilter, live, offline, matches_agent_filter,
  agent_status_tone, is_agent_offline, is_status,
}
use instace_metric_collector.Routes.Hub.{
  Ago, seconds_ago, minutes_ago, hours_ago, relative_time, agent_matches, filtered_agents,
}

abbrev hour : ℕ
hour = 3600000

-- The age of an instant in milliseconds fits what is said about it: the unit is the largest one
-- that is not 0, and the number is the age in that unit, rounded down.
abbrev pub Fits : ℕ → Ago → Type 0
Fits age (seconds_ago n) = (n < 60) × (n * 1000 ≤ age) × (age < (n + 1) * 1000)
Fits age (minutes_ago n) = (1 ≤ n) × (n < 60) × (n * 60000 ≤ age) × (age < (n + 1) * 60000)
Fits age (hours_ago n) = (1 ≤ n) × (n * 3600000 ≤ age) × (age < (n + 1) * 3600000)

-- What the card says of the last contact fits its age, a contact in the future being of age 0.
pub relative_time-Fits : (now at : ℕ) → Fits (now - at) (relative_time now at)
unfolding relative_time
relative_time-Fits now at = elim (Bool-cases (ltb ((now - at) / 1000) 60)) [
  | inl e ↦ rw e (ground arith, ground arith, ground arith)
  | inr e ↦ elim (Bool-cases (ltb ((now - at) / 1000 / 60) 60)) [
    | inl f ↦ rw (e, f) (ground arith, ground arith, ground arith, ground arith)
    | inr f ↦ rw (e, f) (ground arith, ground arith, ground arith)
  ]
]

tone_iff :
    (status : Option Str) → (agent_status_tone status ≡ success) ↔ (is_status status "live" ≡ true)
unfolding agent_status_tone
tone_iff status = elim (Bool-cases (is_status status "live")) [
  | inl e ↦ ((λ h. e), λ h. rw h refl)
  | inr e ↦ rw e (
    (λ h. elim (Bool-cases (is_status status "stale")) [
      | inl f ↦ absurd_tone (rw f at h)
      | inr f ↦ absurd_tone' (rw f at h)
    ]),
    λ h. cc,
  )
]
  where
    absurd_tone : {b : Bool} → warning ≡ success → b ≡ true
    absurd_tone h = cc

    absurd_tone' : {b : Bool} → neutral ≡ success → b ≡ true
    absurd_tone' h = cc

module _ {F : Type 0} where
  -- An agent is on the page exactly if it is in the list, the filter lets its status pass, and
  -- the search, trimmed and in lower case, is empty or part of its host name or of its id. What
  -- the filters let pass shows on the cards: those under "live" have the tone `success`, and are
  -- all that have it; those under "offline" are dimmed, and are all that are.
  pub filtered_agents_iff :
      (lower : Str → Str) (agents : List (AgentSummary F)) (search : Str) (filter : AgentListFilter)
      (a : AgentSummary F)
      → (In a (filtered_agents lower agents search filter) ↔ (
          In a agents
          × (matches_agent_filter a.status filter ≡ true)
          × ((is_empty (lower (trim search)) ≡ true)
              ⊎ (includes (lower a.hostname) (lower (trim search)) ≡ true)
              ⊎ (includes (lower a.agent_id) (lower (trim search)) ≡ true))))
        × ((matches_agent_filter a.status live ≡ true) ↔ (agent_status_tone a.status ≡ success))
        × (matches_agent_filter a.status offline ≡ is_agent_offline a.status)
  unfolding filtered_agents agent_matches matches_agent_filter is_agent_offline
  filtered_agents_iff lower agents search filter a = (
    (
      (λ m. let (k, h) = In-keep _ agents m in (k, ground arith, ground arith)),
      λ (k, f, q). In-keep_intro _ agents k (ground arith),
    ),
    ((tone_iff a.status).1, (tone_iff a.status).0),
    ground arith,
  )
