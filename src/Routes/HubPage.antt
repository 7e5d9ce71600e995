-- ===== src/Routes/HubPage.antt =====
-- go/web/frontend/src/routes/hub/HubPage.tsx as a whole: its search and filter, the tabs, and the
-- cards or the notice. `lower` is `toLowerCase`, `encode` is `encodeURIComponent`, `t` translates a
-- key, and `date_ms` reads a date, which is valid. The form of the alerts stands between.
pub mod Opening
pub mod Statuses
pub mod SideBar
use instace_metric_collector.Common.{ℕ, Str, codes, List, [], ◌∷◌, map}
use instace_metric_collector.Common.Floats.{Floats}
use instace_metric_collector.Api.Types.{AgentSummary}
use instace_metric_collector.Domain.AgentStatus.{AgentListFilter, all, live, offline}
use instace_metric_collector.Components.Tabs.{Tab, TabRow, pill_tabs}
use instace_metric_collector.Routes.Hub.{AgentCard, agent_card, filtered_agents}

pub record HubState : Type 0 where
  pub search : Str
  pub filter : AgentListFilter

abbrev pub start_hub : HubState
start_hub = record { search = []; filter = all }

unfoldable pub type_agent : Str → HubState → HubState
type_agent search s = record s { search = search }

unfoldable pub choose_filter : AgentListFilter → HubState → HubState
choose_filter filter s = record s { filter = filter }

abbrev pub filter_id : AgentListFilter → Str
filter_id all = codes "all"
filter_id live = codes "live"
filter_id offline = codes "offline"

unfoldable pub filter_tabs : (Str → Str) → List Tab
filter_tabs t =
    record { id = filter_id all; label = t (codes "hub.filter.all") }
    ∷ record { id = filter_id live; label = t (codes "hub.filter.live") }
    ∷ record { id = filter_id offline; label = t (codes "hub.filter.offline") }
    ∷ []

-- What stands under the tabs.
pub data HubBody (F : Type 0) : Type 0 where
  no_agents : (message : Str) → HubBody F
  agent_grid : List (AgentCard F) → HubBody F

pub record HubView (F : Type 0) : Type 0 where
  pub heading : Str
  pub placeholder : Str
  pub tabs : TabRow
  pub body : HubBody F

module _ {F : Type 0} ⦃fl : Floats F⦄ (lower encode t : Str → Str) (date_ms : Str → ℕ) where
  -- `filtered.length === 0 ? … : …`.
  unfoldable pub hub_body : ℕ → List (AgentSummary F) → HubBody F
  hub_body now [] = no_agents (t (codes "hub.noAgents"))
  hub_body now (a ∷ agents) = agent_grid (map (agent_card encode t date_ms now) (a ∷ agents))

  unfoldable pub hub_page : ℕ → List (AgentSummary F) → HubState → HubView F
  unfolding hub_body
  hub_page now agents s = record {
    heading = t (codes "nav.hub");
    placeholder = t (codes "hub.search");
    tabs = pill_tabs (filter_tabs t) (filter_id s.filter);
    body = hub_body now (filtered_agents lower agents s.search s.filter);
  }
