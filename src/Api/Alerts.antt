-- ===== src/Api/Alerts.antt =====
-- go/web/frontend/src/api/useAlerts.ts. `encode` is `encodeURIComponent`. The details of an
-- alert, which no page reads, are of a type `V`. Each asynchronous callback is two handlers: what
-- it does before its request and what it does when the request settles.
pub mod Keys
pub mod Acks
pub mod Settling
use instace_metric_collector.Common.{
  ℕ, Str, String, codes, same, is_empty, Bool, true, false, List, [], ◌∷◌, ◌++◌, map, Option, none,
  some, or_else, if◌then◌else◌,
}
use instace_metric_collector.Api.Client.{Settled, resolved, rejected}

pub record AlertRecord (V : Type 0) : Type 0 where
  pub id : Str
  pub agent_id : Str
  pub rule_id : Str
  pub severity : Str
  pub status : Str
  pub fired_at : Str
  pub details : V

pub record SilenceEntry : Type 0 where
  pub agent_id : Str
  pub rule_id : Str
  pub until : Str
  pub created_at : Str

pub record SilenceRequest : Type 0 where
  pub agent_id : Str
  pub rule_id : Str
  pub duration_minutes : ℕ

module _ (encode : Str → Str) where
  unfoldable pub ack_path : Str → Str
  ack_path id = codes "/api/v1/alerts/" ++ encode id ++ codes "/ack"

  unfoldable pub alerts_path : Option Str → Str
  alerts_path none = codes "/api/v1/alerts"
  alerts_path (some id) =
      if is_empty id
      then codes "/api/v1/alerts"
      else codes "/api/v1/alerts" ++ codes "?agentId=" ++ encode id

-- The body of the POST to /api/v1/alerts/silence.
unfoldable pub silence_request : Str → Str → ℕ → SilenceRequest
silence_request agent rule minutes = record {
  agent_id = agent;
  rule_id = rule;
  duration_minutes = minutes;
}

unfoldable pub silence_key : Str → Str → Str
silence_key agent rule = agent ++ codes "|" ++ rule

pub record AlertsState (V : Type 0) : Type 0 where
  pub alerts : List (AlertRecord V)
  pub acking_id : Option Str
  pub silencing_key : Option Str

module _ {V : Type 0} where
  unfoldable pub initial : AlertsState V
  initial = record { alerts = []; acking_id = none; silencing_key = none }

  -- `reload`, when its request settles.
  unfoldable pub reload_settled :
      Settled (Option (List (AlertRecord V))) → AlertsState V → AlertsState V
  reload_settled (resolved given) s = record s { alerts = or_else given [] }
  reload_settled (rejected message) s = record s { alerts = [] }

  unfoldable pub acknowledge_start : Str → AlertsState V → AlertsState V
  acknowledge_start id s = record s { acking_id = some id }

  unfoldable pub replace : Str → AlertRecord V → List (AlertRecord V) → List (AlertRecord V)
  replace id updated = map (λ a. if same a.id id then updated else a)

  unfoldable pub acknowledge_settled : Str → Settled (AlertRecord V) → AlertsState V → AlertsState V
  acknowledge_settled id (resolved updated) s = record s {
    alerts = replace id updated s.alerts;
    acking_id = none;
  }
  acknowledge_settled id (rejected message) s = record s { acking_id = none }

  unfoldable pub silence_start : AlertRecord V → AlertsState V → AlertsState V
  silence_start alert s = record s {
    silencing_key = some (silence_key alert.agent_id alert.rule_id);
  }

  unfoldable pub silence_settled : Settled SilenceEntry → AlertsState V → AlertsState V
  silence_settled answer s = record s { silencing_key = none }
