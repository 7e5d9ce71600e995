-- ===== src/Routes/Alerts.antt =====
-- The two lists of alerts: go/web/frontend/src/routes/alerts/AlertsPage.tsx and the list under
-- the dashboard of an agent, routes/hub/HubAgentDashboard.tsx. `t` translates a key.
pub mod Labels
use instace_metric_collector.Common.{
  ℕ, Str, String, codes, same, is_empty, Bool, true, false, not, List, map, take, find, Option,
  none, some, ◌++◌, if◌then◌else◌,
}
use instace_metric_collector.Api.Types.{AgentSummary}
use instace_metric_collector.Api.Alerts.{AlertRecord, AlertsState, silence_key}
use instace_metric_collector.Domain.AgentStatus.{Tone, success, warning, neutral}

unfoldable pub alert_status_tone : Str → Tone
alert_status_tone status =
    if same status (codes "OPEN")
    then warning
    else if same status (codes "ACK")
    then success
    else neutral

unfoldable pub alert_status_label : (Str → Str) → Str → Str
alert_status_label t status =
    if same status (codes "OPEN")
    then t (codes "alerts.status.open")
    else if same status (codes "ACK")
    then t (codes "alerts.status.ack")
    else if same status (codes "RESOLVED")
    then t (codes "alerts.status.resolved")
    else status

abbrev is_text : Option Str → Str → Bool
is_text none s = false
is_text (some a) s = same a s

-- A button: what it says and whether it is disabled.
pub record Button : Type 0 where
  pub text : Str
  pub is_disabled : Bool

-- The buttons of an open alert: acknowledge, silence for an hour, and for a day.
pub record AlertActions : Type 0 where
  pub ack : Button
  pub silence_hour : Button
  pub silence_day : Button

pub record AlertRow : Type 0 where
  pub agent : Option Str
  pub rule : Str
  pub severity : Str
  pub label : Str
  pub tone : Tone
  pub fired_at : Str
  pub actions : Option AlertActions

-- The first agent of the page's id, named above the list; the id of a page without one is `none`.
unfoldable pub named_agent :
    {F : Type 0} → Option Str → List (AgentSummary F) → Option (AgentSummary F)
named_agent none agents = none
named_agent (some id) agents = if is_empty id then none else find (λ a. same a.agent_id id) agents

abbrev pub no_id : Option Str → Bool
no_id none = true
no_id (some id) = is_empty id

module _ {V : Type 0} (t : Str → Str) where
  unfoldable pub ack_button : AlertsState V → AlertRecord V → Button
  ack_button s a = record {
    text = if is_text s.acking_id a.id then t (codes "alerts.acking") else t (codes "alerts.ack");
    is_disabled = is_text s.acking_id a.id;
  }

  unfoldable pub is_silencing : AlertsState V → AlertRecord V → Bool
  is_silencing s a = is_text s.silencing_key (silence_key a.agent_id a.rule_id)

  unfoldable pub alert_actions : AlertsState V → AlertRecord V → AlertActions
  unfolding is_silencing
  alert_actions s a = record {
    ack = ack_button s a;
    silence_hour = record {
      text =
          if is_silencing s a
          then t (codes "alerts.silencing")
          else t (codes "alerts.silence")
            ++ codes " ("
            ++ t (codes "alerts.silence1h")
            ++ codes ")";
      is_disabled = is_silencing s a;
    };
    silence_day = record { text = t (codes "alerts.silence24h"); is_disabled = is_silencing s a };
  }

  unfoldable pub alert_row : Option Str → AlertsState V → AlertRecord V → AlertRow
  unfolding alert_actions
  alert_row page_id s a = record {
    agent = if no_id page_id then some a.agent_id else none;
    rule = a.rule_id;
    severity = a.severity;
    label = alert_status_label t a.status;
    tone = alert_status_tone a.status;
    fired_at = a.fired_at;
    actions = if same a.status (codes "OPEN") then some (alert_actions s a) else none;
  }

  unfoldable pub alert_rows : Option Str → AlertsState V → List AlertRow
  alert_rows page_id s = map (alert_row page_id s) s.alerts

-- A row of the short list.
pub record ShortRow : Type 0 where
  pub rule : Str
  pub severity : Str
  pub label : Str
  pub tone : Tone
  pub ack : Option Button

module _ {V : Type 0} (t : Str → Str) where
  unfoldable pub short_row : AlertsState V → AlertRecord V → ShortRow
  short_row s a = record {
    rule = a.rule_id;
    severity = a.severity;
    label =
        if same a.status (codes "OPEN")
        then t (codes "alerts.status.open")
        else t (codes "alerts.status.ack");
    tone = if same a.status (codes "OPEN") then warning else success;
    ack = if same a.status (codes "OPEN") then some (ack_button t s a) else none;
  }

  unfoldable pub short_rows : AlertsState V → List ShortRow
  short_rows s = map (short_row s) (take 10 s.alerts)
