-- ===== src/Routes/Diagnostics.antt =====
-- go/web/frontend/src/routes/diagnostics/DiagnosticsPage.tsx, with the panel of
-- components/DiagnosticPanel.tsx that it shows. The agents come from `useHubAgents`, and
-- `items_of` gives what `useDiagnostics` has for an agent.
pub mod Shown
use instace_metric_collector.Common.{
  Str, same, is_empty, Bool, true, false, List, [], ◌∷◌, ◌++◌, map, find, Option, none, some,
  if◌then◌else◌,
}
use instace_metric_collector.Common.Floats.{Floats}
use instace_metric_collector.Api.Types.{AgentSummary}
use instace_metric_collector.Components.Diagnostics.{DiagnosticItem, dedupe_insights}

pub record AgentBlock (F : Type 0) : Type 0 where
  pub hostname : Str
  pub agent_id : Str
  pub cards : List (DiagnosticItem F)

-- The page: of one agent, with its host name if it is known and a notice or its cards; the notice
-- that there is no agent; or the blocks of all agents.
pub data DiagnosticsView (F : Type 0) : Type 0 where
  single_empty : (hostname : Option Str) → DiagnosticsView F
  single_cards : (hostname : Option Str) → List (DiagnosticItem F) → DiagnosticsView F
  no_agents : DiagnosticsView F
  blocks : List (AgentBlock F) → DiagnosticsView F

abbrev name_of : {F : Type 0} → Option (AgentSummary F) → Option Str
name_of none = none
name_of (some a) = some a.hostname

module _ {F : Type 0} ⦃fl : Floats F⦄ (locale_le : Str → Str → Bool) where
  -- `DiagnosticPanel`: the cards, none without an item.
  unfoldable pub panel_cards : List (DiagnosticItem F) → List (DiagnosticItem F)
  panel_cards items = dedupe_insights locale_le items

  unfoldable pub agent_block : AgentSummary F → List (DiagnosticItem F) → List (AgentBlock F)
  agent_block a [] = []
  agent_block a (x ∷ items) =
      record { hostname = a.hostname; agent_id = a.agent_id; cards = panel_cards (x ∷ items) } ∷ []

  single_of : Option Str → List (DiagnosticItem F) → DiagnosticsView F
  single_of hostname [] = single_empty hostname
  single_of hostname (x ∷ items) = single_cards hostname (panel_cards (x ∷ items))

  unfoldable pub single_agent :
      List (AgentSummary F) → (Str → List (DiagnosticItem F)) → Str → DiagnosticsView F
  unfolding single_of
  single_agent agents items_of id =
      single_of (name_of (find (λ a. same a.agent_id id) agents)) (items_of id)

  unfoldable pub blocks_of :
      (Str → List (DiagnosticItem F)) → List (AgentSummary F) → List (AgentBlock F)
  unfolding agent_block
  blocks_of items_of [] = []
  blocks_of items_of (a ∷ agents) = agent_block a (items_of a.agent_id) ++ blocks_of items_of agents

  unfoldable pub all_agents :
      List (AgentSummary F) → (Str → List (DiagnosticItem F)) → DiagnosticsView F
  unfolding blocks_of
  all_agents [] items_of = no_agents
  all_agents (a ∷ agents) items_of = blocks (blocks_of items_of (a ∷ agents))

  unfoldable pub diagnostics_page :
      List (AgentSummary F) → (Str → List (DiagnosticItem F)) → Option Str → DiagnosticsView F
  unfolding single_agent all_agents
  diagnostics_page agents items_of none = all_agents agents items_of
  diagnostics_page agents items_of (some id) =
      if is_empty id then all_agents agents items_of else single_agent agents items_of id
