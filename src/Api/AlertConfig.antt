-- ===== src/Api/AlertConfig.antt =====
-- go/web/frontend/src/api/useHubAlertConfig.ts with the form of routes/hub/HubAlertSettings.tsx
-- that edits it. A number of the configuration is of the type `N`.
pub mod Form
pub mod Fields
use instace_metric_collector.Common.{
  ℕ, Str, String, Bool, true, false, List, [], ◌∷◌, Option, none, some, or_else, if◌then◌else◌,
}
use instace_metric_collector.Api.Client.{Settled, resolved, rejected}

pub record HubAlertConfig (N : Type 0) : Type 0 where
  pub cpu_percent : N
  pub memory_percent : N
  pub disk_percent : N
  pub cooldown_minutes : N
  pub stale_multiplier : N
  pub cpu_spike_min_percent : N
  pub memory_pressure_percent : N
  pub disk_filling_percent : N
  pub container_restart_count : N

-- `Partial<HubAlertConfig>`: the fields that are given.
pub record PartialConfig (N : Type 0) : Type 0 where
  pub cpu_percent : Option N
  pub memory_percent : Option N
  pub disk_percent : Option N
  pub cooldown_minutes : Option N
  pub stale_multiplier : Option N
  pub cpu_spike_min_percent : Option N
  pub memory_pressure_percent : Option N
  pub disk_filling_percent : Option N
  pub container_restart_count : Option N

unfoldable pub defaults : {N : Type 0} → (ℕ → N) → HubAlertConfig N
defaults n = record {
  cpu_percent = n 90;
  memory_percent = n 90;
  disk_percent = n 90;
  cooldown_minutes = n 10;
  stale_multiplier = n 2;
  cpu_spike_min_percent = n 50;
  memory_pressure_percent = n 85;
  disk_filling_percent = n 85;
  container_restart_count = n 3;
}

-- `{ ...base, ...given }`.
unfoldable pub merge : {N : Type 0} → HubAlertConfig N → PartialConfig N → HubAlertConfig N
merge base given = record {
  cpu_percent = or_else given.cpu_percent base.cpu_percent;
  memory_percent = or_else given.memory_percent base.memory_percent;
  disk_percent = or_else given.disk_percent base.disk_percent;
  cooldown_minutes = or_else given.cooldown_minutes base.cooldown_minutes;
  stale_multiplier = or_else given.stale_multiplier base.stale_multiplier;
  cpu_spike_min_percent = or_else given.cpu_spike_min_percent base.cpu_spike_min_percent;
  memory_pressure_percent = or_else given.memory_pressure_percent base.memory_pressure_percent;
  disk_filling_percent = or_else given.disk_filling_percent base.disk_filling_percent;
  container_restart_count = or_else given.container_restart_count base.container_restart_count;
}

pub data ConfigError : Type 0 where
  load save : ConfigError

pub record ConfigState (N : Type 0) : Type 0 where
  pub config : HubAlertConfig N
  pub loading : Bool
  pub saving : Bool
  pub error : Option ConfigError
  pub saved : Bool

module _ {N : Type 0} where
  unfoldable pub reload_start : ConfigState N → ConfigState N
  reload_start s = record s { loading = true; error = none }

  unfoldable pub save_start : ConfigState N → ConfigState N
  save_start s = record s { saving = true; error = none; saved = false }

module _ {N : Type 0} (base : HubAlertConfig N) where
  unfoldable pub initial : ConfigState N
  initial = record { config = base; loading = true; saving = false; error = none; saved = false }

  -- An answer `null` changes nothing but the flag.
  unfoldable pub reload_settled : Settled (Option (PartialConfig N)) → ConfigState N → ConfigState N
  reload_settled (resolved none) s = record s { loading = false }
  reload_settled (resolved (some given)) s = record s { config = merge base given; loading = false }
  reload_settled (rejected message) s = record s { error = some load; loading = false }

  -- Spreading `null` adds no field.
  merged : Option (PartialConfig N) → HubAlertConfig N
  merged none = base
  merged (some given) = merge base given

  unfoldable pub save_settled : Settled (Option (PartialConfig N)) → ConfigState N → ConfigState N
  unfolding merged
  save_settled (resolved updated) s = record s {
    config = merged updated;
    saved = true;
    saving = false;
  }
  save_settled (rejected message) s = record s { error = some save; saving = false }
