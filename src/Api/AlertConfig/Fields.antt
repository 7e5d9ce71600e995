-- ===== src/Api/AlertConfig/Fields.antt =====
-- The number fields of go/web/frontend/src/routes/hub/HubAlertSettings.tsx.
pub mod Edits
use instace_metric_collector.Common.{ℕ, Str, String, codes, List, [], ◌∷◌, ◌++◌, Option, none, some}
use instace_metric_collector.Api.AlertConfig.{HubAlertConfig, PartialConfig}

-- A field: its label, the bounds and the step of its input, what it shows of the configuration, and
-- the patch of its change.
pub record NumberField (N : Type 0) : Type 0 where
  pub label_key : Str
  pub min : ℕ
  pub max : ℕ
  pub step : String
  pub value : HubAlertConfig N → N
  pub change : N → PartialConfig N

module _ {N : Type 0} where
  abbrev pub unchanged : PartialConfig N
  unchanged = record {
    cpu_percent = none;
    memory_percent = none;
    disk_percent = none;
    cooldown_minutes = none;
    stale_multiplier = none;
    cpu_spike_min_percent = none;
    memory_pressure_percent = none;
    disk_filling_percent = none;
    container_restart_count = none;
  }

  unfoldable pub alert_fields : List (NumberField N)
  alert_fields =
      record {
        label_key = codes "hub.settings.cpuPercent";
        min = 1;
        max = 100;
        step = "1";
        value = λ c. c.cpu_percent;
        change = λ v. record unchanged { cpu_percent = some v };
      }
      ∷ record {
        label_key = codes "hub.settings.memoryPercent";
        min = 1;
        max = 100;
        step = "1";
        value = λ c. c.memory_percent;
        change = λ v. record unchanged { memory_percent = some v };
      }
      ∷ record {
        label_key = codes "hub.settings.diskPercent";
        min = 1;
        max = 100;
        step = "1";
        value = λ c. c.disk_percent;
        change = λ v. record unchanged { disk_percent = some v };
      }
      ∷ record {
        label_key = codes "hub.settings.cooldownMinutes";
        min = 1;
        max = 1440;
        step = "1";
        value = λ c. c.cooldown_minutes;
        change = λ v. record unchanged { cooldown_minutes = some v };
      }
      ∷ record {
        label_key = codes "hub.settings.staleMultiplier";
        min = 1;
        max = 10;
        step = "0.5";
        value = λ c. c.stale_multiplier;
        change = λ v. record unchanged { stale_multiplier = some v };
      }
      ∷ []

  -- The fields under the title of the diagnostics.
  unfoldable pub diagnostic_fields : List (NumberField N)
  diagnostic_fields =
      record {
        label_key = codes "hub.settings.cpuSpikeMinPercent";
        min = 1;
        max = 100;
        step = "1";
        value = λ c. c.cpu_spike_min_percent;
        change = λ v. record unchanged { cpu_spike_min_percent = some v };
      }
      ∷ record {
        label_key = codes "hub.settings.memoryPressurePercent";
        min = 1;
        max = 100;
        step = "1";
        value = λ c. c.memory_pressure_percent;
        change = λ v. record unchanged { memory_pressure_percent = some v };
      }
      ∷ record {
        label_key = codes "hub.settings.diskFillingPercent";
        min = 1;
        max = 100;
        step = "1";
        value = λ c. c.disk_filling_percent;
        change = λ v. record unchanged { disk_filling_percent = some v };
      }
      ∷ record {
        label_key = codes "hub.settings.containerRestartCount";
        min = 1;
        max = 100;
        step = "1";
        value = λ c. c.container_restart_count;
        change = λ v. record unchanged { container_restart_count = some v };
      }
      ∷ []

  abbrev pub number_fields : List (NumberField N)
  number_fields = alert_fields ++ diagnostic_fields
