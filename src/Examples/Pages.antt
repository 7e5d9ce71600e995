-- ===== src/Examples/Pages.antt =====
-- The pages on examples.
use instace_metric_collector.Routes.Alerts.{alert_row, alert_rows}
use instace_metric_collector.Routes.AlertsPage.{hub_agent_dashboard}
use instace_metric_collector.Routes.AlertsPage.Columns.{shown_rows, shorten, short_list_lem}
use instace_metric_collector.Routes.Dashboard.{DashboardView, waiting}
use instace_metric_collector.Api.Alerts.{AlertRecord}
use instace_metric_collector.Common.{
  map, take, ℕ, codes, includes, is_empty, trim, true, [], ◌∷◌, none, some, In, ◌≡◌, ◌⊎◌, ◌↔◌,
}
use instace_metric_collector.Common.Floats.{nat_floats}
use instace_metric_collector.Api.Alerts.{AlertsState}
use instace_metric_collector.Domain.AgentStatus.{
  success, neutral, live, offline, matches_agent_filter, agent_status_tone, is_agent_offline,
}
use instace_metric_collector.Routes.Hub.{filtered_agents}
use instace_metric_collector.Routes.Hub.Cards.{filtered_agents_iff}
use instace_metric_collector.Examples.Data.{plain, agent_one, alert_one, alert_two}

filtered_agents_iff_example :
    (In agent_one (filtered_agents plain (agent_one ∷ []) (codes " we") offline) ↔ (
      In agent_one (agent_one ∷ [])
      × (matches_agent_filter (some (codes "stale")) offline ≡ true)
      × ((is_empty (trim (codes " we")) ≡ true)
          ⊎ (includes (codes "web") (trim (codes " we")) ≡ true)
          ⊎ (includes (codes "a1") (trim (codes " we")) ≡ true))))
    × ((matches_agent_filter (some (codes "stale")) live ≡ true)
        ↔ (agent_status_tone (some (codes "stale")) ≡ success))
    × (matches_agent_filter (some (codes "stale")) offline
        ≡ is_agent_offline (some (codes "stale")))
filtered_agents_iff_example =
    filtered_agents_iff plain (agent_one ∷ []) (codes " we") offline agent_one

abbrev alerts_shown : AlertsState ℕ
alerts_shown = record {
  alerts = alert_one ∷ alert_two ∷ [];
  acking_id = some (codes "1");
  silencing_key = none;
}

abbrev waiting_dashboard : DashboardView ℕ
waiting_dashboard = waiting

short_list_lem_example :
    (shown_rows (hub_agent_dashboard plain waiting_dashboard alerts_shown)
      ≡ map (shorten plain) (take 10 (alert_rows plain (some (codes "a1")) alerts_shown)))
    × ((a : AlertRecord ℕ)
        → a.status ≡ codes "RESOLVED"
        → ((shorten plain (alert_row plain (some (codes "a1")) alerts_shown a)).label
            ≡ codes "alerts.status.ack")
          × ((shorten plain (alert_row plain (some (codes "a1")) alerts_shown a)).tone ≡ success)
          × ((alert_row plain (some (codes "a1")) alerts_shown a).label
              ≡ codes "alerts.status.resolved")
          × ((alert_row plain (some (codes "a1")) alerts_shown a).tone ≡ neutral))
short_list_lem_example = short_list_lem plain waiting_dashboard (some (codes "a1")) alerts_shown
