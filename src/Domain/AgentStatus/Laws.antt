-- ===== src/Domain/AgentStatus/Laws.antt =====
-- How the label, the tone, the offline test and the list filter of agentStatus.ts agree.
use instace_metric_collector.Common.{
  Str, codes, same, same→eq, Option, none, some, false, true, ◌≡◌, ◌⊎◌, inl, inr, ◌↔◌, arith, refl,
  not,
}
use instace_metric_collector.Domain.AgentStatus.{
  success, is_status, agent_status_label, agent_status_tone, is_agent_offline, all, live, offline,
  matches_agent_filter,
}

-- The three values that the server sends.
abbrev pub IsKnown : Option Str → Type 0
IsKnown status =
    (status ≡ some (codes "live"))
    ⊎ (status ≡ some (codes "stale"))
    ⊎ (status ≡ some (codes "offline"))

live_not_other :
    (status : Option Str)
    → is_status status "live" ≡ true
    → (is_status status "stale" ≡ false) × (is_status status "offline" ≡ false)
unfolding is_status same
live_not_other none h = cc
live_not_other (some s) h = rw (same→eq s _ h) (refl, refl)

-- On every status, an agent that the "offline" filter shows is one that the page treats as
-- offline, the "all" filter shows every agent, and no agent is shown by both "live" and "offline".
pub matches_agent_filter_lem :
    (status : Option Str)
    → (matches_agent_filter status offline ≡ is_agent_offline status)
      × (matches_agent_filter status all ≡ true)
      × (matches_agent_filter status live ≡ true → matches_agent_filter status offline ≡ false)
unfolding matches_agent_filter is_agent_offline
matches_agent_filter_lem status = (ground arith, refl, λ h. ground (arith, live_not_other status h))

-- A status that the server sends is shown by exactly one of "live" and "offline", and the tone is
-- the success tone exactly on the live one.
pub known_status_shown :
    (status : Option Str)
    → IsKnown status
    → (matches_agent_filter status live ≡ not (matches_agent_filter status offline))
      × ((agent_status_tone status ≡ success) ↔ (matches_agent_filter status live ≡ true))
unfolding matches_agent_filter agent_status_tone same
known_status_shown status h = elim h [
  | inl e ↦ rw e (refl, ((λ _. refl), λ _. refl))
  | inr (inl e) ↦ rw e (refl, ((λ k. cc), λ k. cc))
  | inr (inr e) ↦ rw e (refl, ((λ k. cc), λ k. cc))
]

-- A status that is missing or none of the three gets the label of a live agent, and yet is shown
-- by neither the "live" nor the "offline" filter.
pub unknown_status_hidden :
    (status : Option Str) (t : Str → Str)
    → is_status status "live" ≡ false
    → is_status status "stale" ≡ false
    → is_status status "offline" ≡ false
    → (agent_status_label status t ≡ t (codes "hub.status.live"))
      × (matches_agent_filter status live ≡ false)
      × (matches_agent_filter status offline ≡ false)
unfolding matches_agent_filter agent_status_label
unknown_status_hidden status t l s o = (rw (l, s, o), rw l, rw (s, o))
