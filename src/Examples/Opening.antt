-- ===== src/Examples/Opening.antt =====
-- Loads that end, and links that open a page, on examples.
use instace_metric_collector.Common.{
  inr, ℕ, Str, codes, same, same_refl, Bool-clash, includes, starts_with, trim, nonempty, ◌&&◌,
  true, false, [], ◌∷◌, ◌++◌, In, here, there, none, some, List, ◌≡◌, refl, sym, ap, ◌∙◌,
  if◌then◌else◌,
}
use instace_metric_collector.Common.Floats.{nat_floats}
use instace_metric_collector.Api.Types.{AgentSummary, ContainerInfo}
use instace_metric_collector.Api.Polling.{no_container}
use instace_metric_collector.Api.HistorySamples.{load_start}
use instace_metric_collector.Api.HistorySamples.Runs
use instace_metric_collector.Api.HistorySamples.Runs.{rerun}
use instace_metric_collector.Domain.AgentStatus.{
  all, live, offline, neutral, is_status, is_agent_offline, matches_agent_filter,
}
use instace_metric_collector.Domain.Format.{is_agent_container}
use instace_metric_collector.Navigation.Matching.Shifted.{
  shift_up, shifted_router, shifted-IsRouter,
}
use instace_metric_collector.Routes.Layout.{
  layout_view, agent_page, agent_status, mount, render, initial_view, history_view,
}
use instace_metric_collector.Common.Sort.{sort_by}
use instace_metric_collector.Navigation.Sidebar.{
  AgentEntry, agent_entry, hub_entries, view_link, agent_base,
}
use instace_metric_collector.Routes.HubPage.SideBar.{IsLinkOf, side_bar_follows}
use instace_metric_collector.Examples.Panels.{any_order}
use instace_metric_collector.Routes.Hub.{AgentCard, agent_card, filtered_agents, agent_matches}
use instace_metric_collector.Routes.HubPage.{start_hub, hub_page, hub_body}
use instace_metric_collector.Routes.HubPage.Opening.{HasIds, InGrid, card_opens_agent}
use instace_metric_collector.Routes.HubPage.Statuses.{IsUnknown, unknown_called_live}
use instace_metric_collector.Routes.Query.Escaped.{escaped, escaped-IsPrinted}
use instace_metric_collector.Routes.ContainerMetrics.{
  page_id, page_tab, container_metrics_link, MetricsView, metrics_page, metrics_view, tab_parts,
  services_name,
}
use instace_metric_collector.Routes.ContainerMetrics.Opening.{based, link_opens_container}
use instace_metric_collector.Examples.Data.{plain, dates, agent_one, web_container, agent_container}
use instace_metric_collector.Examples.Hooks.{first_system}

is_loading : first_system.ui.loading ≡ true
unfolding rerun load_start
is_loading = refl

abbrev zero_instant : Str → ℕ
zero_instant s = 0

abbrev one_card : AgentCard ℕ
one_card = agent_card shift_up plain zero_instant 9000 agent_one

one_agent-HasIds : HasIds (agent_one ∷ [])
one_agent-HasIds = record { distinct = only; given = not_empty }
  where
    only :
        (a b : AgentSummary ℕ)
        → In a (agent_one ∷ [])
        → In b (agent_one ∷ [])
        → a.agent_id ≡ b.agent_id
        → a ≡ b
    only a b (here e) (here f) n = e ∙ sym f
    only a b (there m) k n = elim m [ ]
    only a b (here e) (there k) n = elim k [ ]

    not_empty : (a : AgentSummary ℕ) → In a (agent_one ∷ []) → nonempty a.agent_id ≡ true
    not_empty a (here e) = ap (λ b. nonempty b.agent_id) e
    not_empty a (there m) = elim m [ ]

card_In :
    InGrid one_card
      (hub_page plain shift_up plain zero_instant 9000 (agent_one ∷ []) start_hub).body
unfolding hub_page hub_body filtered_agents agent_matches matches_agent_filter trim
card_In = here refl

card_opens_agent_example :
    (a : AgentSummary ℕ) × In a (agent_one ∷ [])
    × (one_card ≡ agent_card shift_up plain zero_instant 9000 a)
    × (shifted_router.agent_id one_card.to ≡ some a.agent_id)
    × (layout_view {F = ℕ} plain [] (shifted_router.agent_id one_card.to) ≡ agent_page none)
    × ((mount initial_view).view.view_mode ≡ initial_view.view_mode)
    × (layout_view plain (agent_one ∷ []) (shifted_router.agent_id one_card.to)
        ≡ agent_page
            (if one_card.is_dimmed && nonempty a.last_seen then some (plain a.last_seen) else none))
    × ((render (agent_status (agent_one ∷ []) a.agent_id) (mount initial_view)).view.view_mode
        ≡ (if one_card.is_dimmed then history_view else initial_view.view_mode))
card_opens_agent_example =
    card_opens_agent plain shift_up plain zero_instant shifted_router shifted-IsRouter plain 9000
      (agent_one ∷ []) start_hub initial_view one_card one_agent-HasIds card_In

abbrev its_processes : Str
its_processes = codes "/hub/agents/" ++ shift_up (codes "a1") ++ codes "/" ++ codes "processes"

abbrev one_entry : AgentEntry
one_entry = agent_entry shift_up plain (some (codes "a1")) agent_one

one_entry_In :
    In one_entry (hub_entries shift_up plain any_order (some (codes "a1")) (agent_one ∷ []))
unfolding hub_entries sort_by
one_entry_In = here refl

its_link : IsLinkOf one_entry its_processes
unfolding agent_entry view_link agent_base same
its_link = inr (_, there (here refl), refl)

side_bar_follows_example :
    (a : AgentSummary ℕ) × In a (agent_one ∷ [])
    × (one_entry.title ≡ a.agent_id)
    × (shifted_router.agent_id its_processes ≡ some a.agent_id)
    × ((d : AgentEntry)
        → In d (
            hub_entries shift_up plain any_order
              (shifted_router.agent_id its_processes)
              (agent_one ∷ []))
        → d.is_active ≡ same one_entry.title d.title)
    × (layout_view plain (agent_one ∷ []) (shifted_router.agent_id its_processes)
        ≡ agent_page (
            if is_agent_offline a.status && nonempty a.last_seen
            then some (plain a.last_seen)
            else none))
side_bar_follows_example =
    side_bar_follows shift_up plain shifted_router shifted-IsRouter any_order plain (agent_one ∷ [])
      (some (codes "a1")) one_entry its_processes one_agent-HasIds one_entry_In its_link

abbrev new_agent : AgentSummary ℕ
new_agent = record agent_one { status = none }

new_agent-IsUnknown : IsUnknown new_agent.status
unfolding is_status
new_agent-IsUnknown = record { not_live = refl; not_stale = refl; not_offline = refl }

unknown_called_live_example :
    ((agent_card plain plain zero_instant 9000 new_agent).label ≡ codes "hub.status.live")
    × ((agent_card plain plain zero_instant 9000 new_agent).tone ≡ neutral)
    × ((search : Str) → ¬ (In new_agent (filtered_agents plain (new_agent ∷ []) search live)))
    × ((search : Str) → ¬ (In new_agent (filtered_agents plain (new_agent ∷ []) search offline)))
    × In new_agent (filtered_agents plain (new_agent ∷ []) [] all)
unknown_called_live_example =
    unknown_called_live plain plain plain zero_instant refl 9000 (new_agent ∷ []) new_agent
      (here refl) new_agent-IsUnknown

abbrev two_containers : List ContainerInfo
two_containers = web_container ∷ agent_container ∷ []

only_agent :
    (d : ContainerInfo) → In d two_containers → d.id ≡ agent_container.id → d ≡ agent_container
unfolding same
only_agent d (here p) e =
    absurd
      (Bool-clash (same_refl (codes "11")) (ap (same (codes "11")) (sym (ap (λ c. c.id) p) ∙ e)))
only_agent d (there (here p)) e = p
only_agent d (there (there k)) e = elim k [ ]

is_agent : is_agent_container plain agent_container ≡ true
unfolding is_agent_container includes starts_with
is_agent = refl

link_opens_container_example :
    (query : Str) × (container_metrics_link escaped [] services_name (codes "33")
      ≡ based [] (codes "/container-metrics?" ++ query))
    × (page_id escaped (escaped.parse query) ≡ codes "33")
    × (page_tab escaped (escaped.parse query) ≡ services_name)
    × ((v : MetricsView ℕ) × (metrics_page plain dates two_containers false
            (page_id escaped (escaped.parse query))
            (page_tab escaped (escaped.parse query))
            no_container
          ≡ metrics_view v)
        × (v.container ≡ agent_container)
        × (v.parts ≡ tab_parts dates services_name no_container))
link_opens_container_example =
    link_opens_container escaped escaped-IsPrinted plain dates two_containers agent_container []
      services_name no_container (refl, (refl, tt)) (there (here refl)) only_agent refl is_agent
      refl
