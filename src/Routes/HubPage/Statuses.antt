-- ===== src/Routes/HubPage/Statuses.antt =====
-- What the hub says of an agent without a known status.
use instace_metric_collector.Common.{
  ℕ, Str, codes, Bool, Bool-clash, true, false, List, In, In-keep, In-keep_intro, Option, ◌≡◌, ◌&&◌,
  refl, [], trim,
}
use instace_metric_collector.Common.Floats.{Floats}
use instace_metric_collector.Api.Types.{AgentSummary}
use instace_metric_collector.Domain.AgentStatus.{
  neutral, all, live, offline, is_status, agent_status_label, agent_status_tone,
  matches_agent_filter,
}
use instace_metric_collector.Routes.Hub.{agent_card, agent_matches, filtered_agents}

-- The status is none of those that the program knows.
pub record IsUnknown (status : Option Str) : Type 0 where
  pub not_live : is_status status "live" ≡ false
  pub not_stale : is_status status "stale" ≡ false
  pub not_offline : is_status status "offline" ≡ false

both_needed : (a b : Bool) → a ≡ false → (a && b) ≡ true → ⊥
both_needed a b e h = Bool-clash h (rw e refl)

module _ {F : Type 0} ⦃fl : Floats F⦄ (lower encode t : Str → Str) (date_ms : Str → ℕ) where
  -- Where the lower case of an empty text is empty, the card of a listed agent whose status is missing
  -- or unknown has the label of a live agent, in the
  -- tone `neutral`; whatever the search, the filters "live" and "offline" both leave the agent out,
  -- and without a search the filter "all" lists it.
  pub unknown_called_live :
      lower [] ≡ []
      → (now : ℕ) (agents : List (AgentSummary F)) (a : AgentSummary F) → In a agents
      → IsUnknown a.status
      → ((agent_card encode t date_ms now a).label ≡ t (codes "hub.status.live"))
        × ((agent_card encode t date_ms now a).tone ≡ neutral)
        × ((search : Str) → ¬ (In a (filtered_agents lower agents search live)))
        × ((search : Str) → ¬ (In a (filtered_agents lower agents search offline)))
        × In a (filtered_agents lower agents [] all)
  unfolding agent_card agent_status_label agent_status_tone filtered_agents agent_matches
      matches_agent_filter trim
  unknown_called_live e now agents a m u = (
    rw (u.not_live, u.not_stale, u.not_offline) refl,
    rw (u.not_live, u.not_stale) refl,
    (λ search k. both_needed _ _ u.not_live (In-keep (agent_matches lower _ live) agents k).1),
    (λ search k.
        both_needed (matches_agent_filter a.status offline) _ (rw (u.not_stale, u.not_offline) refl)
          (In-keep (agent_matches lower _ offline) agents k).1),
    In-keep_intro _ agents m (rw e refl),
  )
