-- ===== src/Components/Diagnostics/Text.antt =====
-- The texts of a card: severityTone, strVal, reasonText, metricsForItem and DiagnosticCard.
use instace_metric_collector.Common.{
  ℕ, Str, String, codes, same, is_empty, trim, List, [], ◌∷◌, ◌++◌, Option, none, some, or_else,
  if◌then◌else◌,
}
use instace_metric_collector.Common.Floats.{Floats}
use instace_metric_collector.Domain.AgentStatus.{Tone, warning, neutral}
use instace_metric_collector.Domain.Format.{format_percent}
use instace_metric_collector.Components.Diagnostics.{
  Value, DiagnosticItem, Details, field, not_null, string_of, number_of,
}

pub record DiagnosticMetric : Type 0 where
  pub label : Str
  pub value : Str

unfoldable pub severity_tone : Str → Tone
severity_tone severity =
    if same severity (codes "critical")
    then warning
    else if same severity (codes "warning")
    then warning
    else neutral

unfoldable pub accent : Str → String
accent severity =
    if same severity (codes "critical")
    then "border-l-error"
    else if same severity (codes "warning")
    then "border-l-amber-400"
    else "border-l-outline-variant"

-- An argument of a translation: a text, or a number that also chooses the plural.
pub data Arg (F : Type 0) : Type 0 where
  text : Str → Arg F
  count : F → Arg F

-- A text that is missing or empty gives no metric.
unfoldable pub push : Str → Option Str → List DiagnosticMetric
push label none = []
push label (some value) =
    if is_empty value then [] else record { label = label; value = value } ∷ []

-- `a ?? b`.
abbrev first_text : Option Str → Option Str → Option Str
first_text none other = other
first_text (some s) other = some s

module _ {F : Type 0} ⦃fl : Floats F⦄ where
  unfoldable pub str_val : Option (Value F) → Option Str
  str_val none = none
  str_val (some v) = let s = trim (string_of v) in if is_empty s then none else some s

  abbrev number_or : ℕ → Option (Value F) → F
  number_or missing none = fl.of_nat missing
  number_or missing (some v) = number_of v

  -- `Number(d.key ?? missing)`.
  unfoldable pub number_at : DiagnosticItem F → String → ℕ → F
  number_at item key missing = number_or missing (field item key)

  abbrev percent_at : DiagnosticItem F → String → ℕ → Str
  percent_at item key missing = format_percent (number_at item key missing)

  module _ (show_bytes : F → Str) (t : String → List (String × Arg F) → Str) where
    disk_reason : Option Str → Str → Str → Str
    disk_reason none percent threshold =
        t "diagnostics.reason.diskFillingGeneric"
          (("percent", text percent) ∷ ("threshold", text threshold) ∷ [])
    disk_reason (some mount) percent threshold =
        t "diagnostics.reason.diskFilling"
          (("mount", text mount) ∷ ("percent", text percent) ∷ ("threshold", text threshold) ∷ [])

    unfoldable pub reason_text : DiagnosticItem F → Str
    unfolding disk_reason
    reason_text item =
        if same item.type (codes "CPU_SPIKE")
        then t "diagnostics.reason.cpuSpike" (
            ("current", text (percent_at item "cpuLoad" 0))
            ∷ ("previous", text (percent_at item "previousCpu" 0))
            ∷ ("threshold", text (percent_at item "threshold" 50))
            ∷ [])
        else if same item.type (codes "MEMORY_PRESSURE")
        then t "diagnostics.reason.memoryPressure" (
            ("used", text (show_bytes (number_at item "usedMemory" 0)))
            ∷ ("total", text (show_bytes (number_at item "totalMemory" 0)))
            ∷ ("percent", text (format_percent (fl.mul (number_at item "ratio" 0) (fl.of_nat 100))))
            ∷ ("threshold", text (percent_at item "thresholdPct" 85))
            ∷ [])
        else if same item.type (codes "DISK_FILLING")
        then disk_reason (str_val (field item "mount")) (percent_at item "usePercent" 0)
            (percent_at item "thresholdPct" 85)
        else if same item.type (codes "CONTAINER_FLAP")
        then t "diagnostics.reason.containerFlap" (
            (
              "name",
              text (
                  or_else
                    (first_text (str_val (field item "containerName"))
                      (str_val (field item "containerId")))
                    (t "diagnostics.unknownContainer" [])),
            )
            ∷ ("count", count (number_at item "restartCount" 0))
            ∷ ("threshold", count (number_at item "threshold" 3))
            ∷ [])
        else if same item.type (codes "CONNECTIVITY_FAIL")
        then t "diagnostics.reason.connectivityFail" (
            (
              "target",
              text (or_else (str_val (field item "target")) (t "diagnostics.unknownTarget" [])),
            )
            ∷ (
              "error",
              text
                  (or_else (str_val (field item "error")) (t "diagnostics.reason.unknownError" [])),
            )
            ∷ [])
        else t "diagnostics.reason.generic" (("type", text item.type) ∷ [])

    unfoldable pub latency_metric : Option (Value F) → List DiagnosticMetric
    latency_metric none = []
    latency_metric (some v) =
        push (t "diagnostics.metric.latency" []) (some (fl.show (number_of v) ++ codes " ms"))

    unfoldable pub entry_metrics : Details F → List DiagnosticMetric
    entry_metrics [] = []
    entry_metrics ((k, v) ∷ d) = push k (str_val (not_null (some v))) ++ entry_metrics d

    unfoldable pub metrics_for_item : DiagnosticItem F → List DiagnosticMetric
    unfolding latency_metric entry_metrics
    metrics_for_item item =
        if same item.type (codes "CPU_SPIKE")
        then push (t "diagnostics.metric.cpuCurrent" []) (some (percent_at item "cpuLoad" 0))
          ++ (push (t "diagnostics.metric.cpuPrevious" []) (some (percent_at item "previousCpu" 0))
              ++ push (t "diagnostics.metric.threshold" []) (some (percent_at item "threshold" 50)))
        else if same item.type (codes "MEMORY_PRESSURE")
        then push (t "diagnostics.metric.memory" [])
            (some (format_percent (fl.mul (number_at item "ratio" 0) (fl.of_nat 100))))
          ++ (push (t "diagnostics.metric.memoryBytes" []) (
                some (
                  show_bytes (number_at item "usedMemory" 0)
                  ++ (codes " / " ++ show_bytes (number_at item "totalMemory" 0))))
              ++ push (t "diagnostics.metric.threshold" [])
                  (some (percent_at item "thresholdPct" 85)))
        else if same item.type (codes "DISK_FILLING")
        then push (t "diagnostics.metric.mount" []) (str_val (field item "mount"))
          ++ (push (t "diagnostics.metric.diskUsed" []) (some (percent_at item "usePercent" 0))
              ++ push (t "diagnostics.metric.threshold" [])
                  (some (percent_at item "thresholdPct" 85)))
        else if same item.type (codes "CONTAINER_FLAP")
        then push (t "diagnostics.metric.container" [])
            (first_text (str_val (field item "containerName")) (str_val (field item "containerId")))
          ++ (push (t "diagnostics.metric.restarts" [])
                (some (fl.show (number_at item "restartCount" 0)))
              ++ push (t "diagnostics.metric.threshold" [])
                  (some (fl.show (number_at item "threshold" 3))))
        else if same item.type (codes "CONNECTIVITY_FAIL")
        then push (t "diagnostics.metric.target" []) (str_val (field item "target"))
          ++ (push (t "diagnostics.metric.error" []) (str_val (field item "error"))
              ++ latency_metric (field item "latency"))
        else entry_metrics (or_else item.details [])
