-- ===== src/Navigation/Sidebar.antt =====
-- The hub's side bar, go/web/frontend/src/components/HubSidebarNav.tsx. The agents come from the
-- hook `useHubAgents`, the active agent from the router; `encode` is `encodeURIComponent`, `t`
-- translates a key, and `locale_le a b` says that `a.localeCompare(b)` is not positive.
pub mod Tree
use instace_metric_collector.Common.{
  Str, codes, same, is_empty, Bool, true, false, List, [], ◌∷◌, ◌++◌, map, Option, none, some,
  if◌then◌else◌,
}
use instace_metric_collector.Common.Sort.{sort_by}
use instace_metric_collector.Api.Types.{AgentSummary}
use instace_metric_collector.Domain.AgentStatus.{is_agent_offline}

-- An entry of a menu: where it leads, whether it is marked on that page alone, and its text.
pub record NavEntry : Type 0 where
  pub to : Str
  pub is_end : Bool
  pub label : Str

pub record AgentView : Type 0 where
  pub segment : Str
  pub label_key : Str
  pub is_end : Bool

abbrev pub agent_views : List AgentView
agent_views =
    record { segment = []; label_key = codes "nav.dashboard"; is_end = true }
    ∷ record { segment = codes "processes"; label_key = codes "nav.processes"; is_end = false }
    ∷ record { segment = codes "services"; label_key = codes "nav.services"; is_end = false }
    ∷ record { segment = codes "containers"; label_key = codes "nav.containers"; is_end = false }
    ∷ record { segment = codes "diagnostics"; label_key = codes "nav.diagnostics"; is_end = false }
    ∷ record { segment = codes "alerts"; label_key = codes "nav.alerts"; is_end = false }
    ∷ []

-- The two links above the agents.
unfoldable pub hub_links : (Str → Str) → List NavEntry
hub_links t =
    record { to = codes "/hub"; is_end = true; label = t (codes "nav.hub") }
    ∷ record { to = codes "/hub"; is_end = true; label = t (codes "hub.tree.overview") }
    ∷ []

-- An agent of the tree, with the links to its views if it is the active one.
pub record AgentEntry : Type 0 where
  pub to : Str
  pub title : Str
  pub hostname : Str
  pub is_offline : Bool
  pub is_active : Bool
  pub views : List NavEntry

abbrev pub is_active_agent : Option Str → Str → Bool
is_active_agent none id = false
is_active_agent (some active) id = same active id

module _ (encode t : Str → Str) where
  unfoldable pub agent_base : Str → Str
  agent_base id = codes "/hub/agents/" ++ encode id

  unfoldable pub view_link : Str → AgentView → NavEntry
  view_link base v = record {
    to = if is_empty v.segment then base else base ++ codes "/" ++ v.segment;
    is_end = v.is_end;
    label = t v.label_key;
  }

  unfoldable pub agent_entry : {F : Type 0} → Option Str → AgentSummary F → AgentEntry
  unfolding agent_base
  agent_entry active a = record {
    to = agent_base a.agent_id;
    title = a.agent_id;
    hostname = a.hostname;
    is_offline = is_agent_offline a.status;
    is_active = is_active_agent active a.agent_id;
    views =
        if is_active_agent active a.agent_id
        then map (view_link (agent_base a.agent_id)) agent_views
        else [];
  }

  unfoldable pub hub_entries :
      {F : Type 0} → (Str → Str → Bool) → Option Str → List (AgentSummary F) → List AgentEntry
  hub_entries locale_le active agents =
      map (agent_entry active) (sort_by (λ a b. locale_le a.hostname b.hostname) agents)
