-- ===== src/Routes/AlertsPage.antt =====
-- The pages with alerts as wholes: go/web/frontend/src/routes/alerts/AlertsPage.tsx, and
-- routes/hub/HubAgentDashboard.tsx, which has a short list under the dashboard. `t` translates a key.
pub mod Columns
use instace_metric_collector.Common.{
  Str, codes, Bool, List, [], ◌∷◌, ◌++◌, map, Option, none, some, if◌then◌else◌,
}
use instace_metric_collector.Api.Types.{AgentSummary}
use instace_metric_collector.Api.Alerts.{AlertsState}
use instace_metric_collector.Routes.Alerts.{
  AlertRow, alert_rows, ShortRow, short_rows, named_agent, no_id,
}
use instace_metric_collector.Routes.Dashboard.{DashboardView}

-- The heads of the columns; the one of the agents is there on the page of all agents.
unfoldable pub alert_heads : (Str → Str) → Option Str → List Str
alert_heads t page_id =
    (if no_id page_id then t (codes "alerts.agent") ∷ [] else [])
    ++ t (codes "alerts.rule")
      ∷ t (codes "alerts.severity")
      ∷ t (codes "alerts.status")
      ∷ t (codes "alerts.firedAt")
      ∷ t (codes "alerts.actions")
      ∷ []

-- The notice that there is no alert, or the table.
pub data AlertsBody : Type 0 where
  no_alerts : (message : Str) → AlertsBody
  alert_table : (heads : List Str) → List AlertRow → AlertsBody

-- The page: its title, the agent with its id that it is about, and what stands below.
pub record AlertsView : Type 0 where
  pub title : Str
  pub subtitle : Option (Str × Str)
  pub body : AlertsBody

-- `{agent.hostname} ({agentId})`.
subtitle_of : {F : Type 0} → Option Str → Option (AgentSummary F) → Option (Str × Str)
subtitle_of none agent = none
subtitle_of (some id) none = none
subtitle_of (some id) (some a) = some (a.hostname, id)

rows_or_notice : (Str → Str) → Option Str → List AlertRow → AlertsBody
rows_or_notice t page_id [] = no_alerts (t (codes "alerts.empty"))
rows_or_notice t page_id (r ∷ rows) = alert_table (alert_heads t page_id) (r ∷ rows)

module _ {F V : Type 0} (t : Str → Str) where
  unfoldable pub alerts_page : Option Str → List (AgentSummary F) → AlertsState V → AlertsView
  unfolding subtitle_of rows_or_notice
  alerts_page page_id agents s = record {
    title = t (codes "nav.alerts");
    subtitle = subtitle_of page_id (named_agent page_id agents);
    body = rows_or_notice t page_id (alert_rows t page_id s);
  }

-- The dashboard of an agent, and the section with the heading and the first alerts if there are any.
pub record AgentDashboardView (F : Type 0) : Type 0 where
  pub dashboard : DashboardView F
  pub section : Option (Str × List ShortRow)

section_of : (Str → Str) → List ShortRow → Option (Str × List ShortRow)
section_of t [] = none
section_of t (r ∷ rows) = some (t (codes "nav.alerts"), r ∷ rows)

module _ {F V : Type 0} (t : Str → Str) where
  unfoldable pub hub_agent_dashboard : DashboardView F → AlertsState V → AgentDashboardView F
  unfolding section_of
  hub_agent_dashboard dashboard s = record {
    dashboard = dashboard;
    section = section_of t (short_rows t s);
  }
