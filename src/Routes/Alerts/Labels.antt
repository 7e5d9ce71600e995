-- ===== src/Routes/Alerts/Labels.antt =====
-- How the two lists of alerts name the same alert.
use instace_metric_collector.Common.{
  Str, codes, same, Option, none, some, ◌≡◌, ◌⊎◌, refl, Bool-cases, inl, inr,
}
use instace_metric_collector.Api.Alerts.{AlertRecord, AlertsState}
use instace_metric_collector.Domain.AgentStatus.{success, neutral}
use instace_metric_collector.Routes.Alerts.{
  alert_status_tone, alert_status_label, alert_row, short_row, AlertActions, Button,
}

-- The button to acknowledge, of an alert that has buttons.
abbrev pub ack_of : Option AlertActions → Option Button
ack_of none = none
ack_of (some a) = some a.ack

-- The two lists offer the button to acknowledge for the same alerts and with the same text and
-- state; for an alert that is open or acknowledged they show the same label and tone.
pub short_row-alert_row :
    {V : Type 0} (t : Str → Str) (page_id : Option Str) (s : AlertsState V) (a : AlertRecord V)
    → ((short_row t s a).ack ≡ ack_of (alert_row t page_id s a).actions)
      × (((a.status ≡ codes "OPEN") ⊎ (a.status ≡ codes "ACK"))
          → ((short_row t s a).label ≡ (alert_row t page_id s a).label)
            × ((short_row t s a).tone ≡ (alert_row t page_id s a).tone))
unfolding short_row alert_row alert_status_label alert_status_tone same
short_row-alert_row t page_id s a = (
  elim (Bool-cases (same a.status (codes "OPEN"))) [ inl e ↦ rw e refl | inr e ↦ rw e refl ],
  λ h. elim h [ inl e ↦ rw e (refl, refl) | inr e ↦ rw e (refl, refl) ],
)

-- An alert that is resolved is shown as acknowledged, in the tone `success`, by the short list of
-- the agent's dashboard, and as resolved, in the tone `neutral`, by the page of all alerts.
pub resolved_shown_as_acked :
    {V : Type 0} (t : Str → Str) (page_id : Option Str) (s : AlertsState V) (a : AlertRecord V)
    → a.status ≡ codes "RESOLVED"
    → ((short_row t s a).label ≡ t (codes "alerts.status.ack"))
      × ((short_row t s a).tone ≡ success)
      × ((alert_row t page_id s a).label ≡ t (codes "alerts.status.resolved"))
      × ((alert_row t page_id s a).tone ≡ neutral)
unfolding short_row alert_row alert_status_label alert_status_tone same
resolved_shown_as_acked t page_id s a e = rw e (refl, refl, refl, refl)
