-- ===== src/Routes/HubPage/Opening.antt =====
-- Where the cards of the hub lead, and what stands in their place when there is none.
use instace_metric_collector.Common.{
  ℕ, Str, same, same_refl, same→eq, is_empty, nonempty, Bool, Bool-clash, true, false, ◌&&◌, List,
  [], ◌∷◌, map, find, find-cases, In, In_All, In-map, In-keep, Option, none, some, ◌≡◌, inl, inr,
  refl, ap, ◌∙◌, if◌then◌else◌,
}
use instace_metric_collector.Common.Floats.{Floats}
use instace_metric_collector.Api.Types.{AgentSummary}
use instace_metric_collector.Domain.AgentStatus.{is_agent_offline}
use instace_metric_collector.Navigation.Matching.{Router, IsRouter}
use instace_metric_collector.Routes.Layout.{
  history_view, HistoryView, agent_status, offline_effect, set_view_mode, mount, render, agent_page,
  layout_view,
}
use instace_metric_collector.Routes.Hub.{AgentCard, agent_card, filtered_agents}
use instace_metric_collector.Routes.HubPage.{
  HubState, HubBody, no_agents, agent_grid, hub_body, hub_page,
}

-- The card is one of the grid.
abbrev pub InGrid : {F : Type 0} → AgentCard F → HubBody F → Type 0
InGrid c (no_agents message) = ⊥
InGrid c (agent_grid cards) = In c cards

-- No two agents have the same id, and no id is empty.
pub record HasIds {F : Type 0} (agents : List (AgentSummary F)) : Type 0 where
  pub distinct :
      (a b : AgentSummary F) → In a agents → In b agents → a.agent_id ≡ b.agent_id → a ≡ b
  pub given : (a : AgentSummary F) → In a agents → nonempty a.agent_id ≡ true

not_empty : (s : Str) → nonempty s ≡ true → is_empty s ≡ false
not_empty [] e = cc
not_empty (c ∷ s) e = refl

first_layout :
    (F : Type 0) (to_locale : Str → Str) (id : Str)
    → nonempty id ≡ true
    → layout_view {F = F} to_locale [] (some id) ≡ agent_page none
unfolding layout_view
first_layout F to_locale id e = rw (not_empty id e) refl

module _ {F : Type 0} where
  find_agent :
      (agents : List (AgentSummary F)) (a : AgentSummary F)
      → HasIds agents
      → In a agents
      → find (λ b. same b.agent_id a.agent_id) agents ≡ some a
  find_agent agents a ids m = elim (find-cases (λ b. same b.agent_id a.agent_id) agents) [
    | inl (n, h) ↦ absurd (
        Bool-clash (same_refl a.agent_id)
          (In_All (λ b. same b.agent_id a.agent_id ≡ false) agents h m))
    | inr (b, e, k, h) ↦ e ∙ ap some (ids.distinct b a k m (same→eq b.agent_id a.agent_id h))
  ]

  pub opened_layout :
      (to_locale : Str → Str) (agents : List (AgentSummary F)) (a : AgentSummary F)
      → HasIds agents
      → In a agents
      → layout_view to_locale agents (some a.agent_id)
        ≡ agent_page (
            if is_agent_offline a.status && nonempty a.last_seen
            then some (to_locale a.last_seen)
            else none)
  unfolding layout_view
  opened_layout to_locale agents a ids m =
      rw (not_empty a.agent_id (ids.given a m), find_agent agents a ids m) refl

  opened_mode :
      (agents : List (AgentSummary F)) (a : AgentSummary F) (v : HistoryView)
      → HasIds agents
      → In a agents
      → (render (agent_status agents a.agent_id) (mount v)).view.view_mode
        ≡ (if is_agent_offline a.status then history_view else v.view_mode)
  unfolding mount render agent_status offline_effect set_view_mode is_agent_offline
  opened_mode agents a v ids m = rw (find_agent agents a ids m) (seen_first a.status)
    where
      by_status :
          (b : Bool)
          → (if b then set_view_mode history_view v else v).view_mode
            ≡ (if b then history_view else v.view_mode)
      by_status true = refl
      by_status false = refl

      seen_first :
          (status : Option Str)
          → (render status (record { view = v; seen = none })).view.view_mode
            ≡ (if is_agent_offline status then history_view else v.view_mode)
      seen_first none = refl
      seen_first (some s) = by_status (is_agent_offline (some s))

module _ {F : Type 0} ⦃fl : Floats F⦄ (lower encode t : Str → Str) (date_ms : Str → ℕ) where
  In-hub_body :
      (now : ℕ) (agents : List (AgentSummary F)) {c : AgentCard F}
      → InGrid c (hub_body lower encode t date_ms now agents)
      → In c (map (agent_card encode t date_ms now) agents)
  unfolding hub_body
  In-hub_body now [] m = absurd m
  In-hub_body now (a ∷ agents) m = m

  -- Let no two agents have the same id and no id be empty. A card of the hub's page is that of an
  -- agent of the list, and its link leads to the page of this agent: the router reads its id back.
  -- The layout, whose own list of agents begins empty, first draws the page without a banner in the
  -- mode chosen; once its list is that of the hub's page, it has the banner exactly if the card is
  -- dimmed and a last contact is known, and the mode is that of the history if the card is dimmed,
  -- and else still the mode chosen, be it live or history.
  pub card_opens_agent :
      (r : Router)
      → IsRouter r encode
      → (to_locale : Str → Str) (now : ℕ) (agents : List (AgentSummary F)) (s : HubState)
        (v : HistoryView) (c : AgentCard F)
      → HasIds agents
      → InGrid c (hub_page lower encode t date_ms now agents s).body
      → (a : AgentSummary F) × In a agents
        × (c ≡ agent_card encode t date_ms now a)
        × (r.agent_id c.to ≡ some a.agent_id)
        × (layout_view {F = F} to_locale [] (r.agent_id c.to) ≡ agent_page none)
        × ((mount v).view.view_mode ≡ v.view_mode)
        × (layout_view to_locale agents (r.agent_id c.to)
            ≡ agent_page (
                if c.is_dimmed && nonempty a.last_seen then some (to_locale a.last_seen) else none))
        × ((render (agent_status agents a.agent_id) (mount v)).view.view_mode
            ≡ (if c.is_dimmed then history_view else v.view_mode))
  unfolding hub_page filtered_agents agent_card mount is_agent_offline
  card_opens_agent r law to_locale now agents s v c ids m =
      let (a, k, e) =
        In-map (agent_card encode t date_ms now) (filtered_agents lower agents s.search s.filter)
          (In-hub_body now (filtered_agents lower agents s.search s.filter) m) in
      let (i, _) = In-keep _ agents k in
      let route : r.agent_id c.to ≡ some a.agent_id =
        ap (λ x. r.agent_id x.to) e ∙ law.own a.agent_id (ids.given a i) in
      let dimmed : c.is_dimmed ≡ is_agent_offline a.status = ap (λ x. x.is_dimmed) e in
      (
        a,
        i,
        e,
        route,
        rw route (first_layout F to_locale a.agent_id (ids.given a i)),
        refl,
        rw (route, dimmed) (opened_layout to_locale agents a ids i),
        rw dimmed (opened_mode agents a v ids i),
      )
