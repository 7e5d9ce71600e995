-- ===== src/Api/Polling.antt =====
-- The hooks that ask again when their argument changes or a timer fires:
-- go/web/frontend/src/api/useHubAgents.ts, useDiagnostics.ts, useHubConfig.ts and
-- useContainerMetrics.ts. None of them drops the answer to an earlier argument.
pub mod Races
use instace_metric_collector.Common.{
  ℕ, Str, codes, is_empty, Bool, true, false, List, [], ◌∷◌, ◌++◌, Option, none, some, or_else,
  if◌then◌else◌,
}
use instace_metric_collector.Api.Types.{MetricsSnapshot, AgentSummary}
use instace_metric_collector.Api.Client.{Settled, resolved, rejected}

-- A list that is replaced by each answer, and emptied by a failure: `useHubAgents`, and a poll of
-- `useDiagnostics`.
unfoldable pub list_settled : {A : Type 0} → Settled (Option (List A)) → List A → List A
list_settled (resolved given) old = or_else given []
list_settled (rejected message) old = []

-- `!agentId`.
abbrev pub missing_id : Option Str → Bool
missing_id none = true
missing_id (some id) = is_empty id

-- What the effect of `useDiagnostics` does at once: nothing but for a missing id.
unfoldable pub diagnostics_effect : {A : Type 0} → Option Str → List A → List A
diagnostics_effect id items = if missing_id id then [] else items

pub record HubConfig : Type 0 where
  pub history_size : ℕ
  pub version : Str
  pub collection_interval_ms : ℕ
  pub stale_after_ms : ℕ
  pub offline_after_ms : ℕ

abbrev pub default_hub_config : HubConfig
default_hub_config = record {
  history_size = 120;
  version = codes "";
  collection_interval_ms = 60000;
  stale_after_ms = 120000;
  offline_after_ms = 86400000;
}

-- The fields that the answer gives.
pub record GivenConfig : Type 0 where
  pub history_size : Option ℕ
  pub version : Option Str
  pub collection_interval_ms : Option ℕ
  pub stale_after_ms : Option ℕ
  pub offline_after_ms : Option ℕ

unfoldable pub hub_config_settled : Settled (Option GivenConfig) → HubConfig → HubConfig
hub_config_settled (resolved none) old = old
hub_config_settled (resolved (some g)) old = record {
  history_size = or_else g.history_size default_hub_config.history_size;
  version = or_else g.version default_hub_config.version;
  collection_interval_ms =
      or_else g.collection_interval_ms default_hub_config.collection_interval_ms;
  stale_after_ms = or_else g.stale_after_ms default_hub_config.stale_after_ms;
  offline_after_ms = or_else g.offline_after_ms default_hub_config.offline_after_ms;
}
hub_config_settled (rejected message) old = old

-- `useContainerMetrics`.
pub record ContainerState (F : Type 0) : Type 0 where
  pub snapshot : Option (MetricsSnapshot F)
  pub unavailable : Bool
  pub loading : Bool

module _ {F : Type 0} where
  unfoldable pub no_container : ContainerState F
  no_container = record { snapshot = none; unavailable = false; loading = false }

  -- The effect, up to its request.
  unfoldable pub container_effect : Option Str → ContainerState F → ContainerState F
  container_effect id s =
      if missing_id id
      then record s { snapshot = none; unavailable = false }
      else record s { loading = true }

  unfoldable pub container_settled :
      Settled (Option (MetricsSnapshot F)) → ContainerState F → ContainerState F
  container_settled (resolved (some snap)) s = record {
    snapshot = some snap;
    unavailable = false;
    loading = false;
  }
  container_settled (resolved none) s = record s { unavailable = true; loading = false }
  container_settled (rejected message) s = record s { unavailable = true; loading = false }
