-- ===== src/Components/Diagnostics/Card.antt =====
-- DiagnosticCard and DiagnosticPanel. `title key other` is the translation of a key with a default,
-- and `date_text` what `toLocaleString` prints of a date.
use instace_metric_collector.Common.{Str, String, codes, Bool, List, [], ◌++◌, map}
use instace_metric_collector.Common.Floats.{Floats}
use instace_metric_collector.Domain.AgentStatus.{Tone}
use instace_metric_collector.Components.Diagnostics.{DiagnosticItem, dedupe_insights}
use instace_metric_collector.Components.Diagnostics.Text.{
  DiagnosticMetric, Arg, severity_tone, accent, reason_text, metrics_for_item,
}

pub record DiagnosticCard : Type 0 where
  pub accent : String
  pub title : Str
  pub severity : Str
  pub tone : Tone
  pub reason : Str
  pub metrics : List DiagnosticMetric
  pub last_seen : Str

module _ {F : Type 0} ⦃fl : Floats F⦄ (show_bytes : F → Str)
    (t : String → List (String × Arg F) → Str) (title : Str → Str → Str)
    (date_text : Str → Str) where
  unfoldable pub diagnostic_card : DiagnosticItem F → DiagnosticCard
  diagnostic_card item = record {
    accent = accent item.severity;
    title = title item.summary_key item.type;
    severity = item.severity;
    tone = severity_tone item.severity;
    reason = reason_text show_bytes t item;
    metrics = metrics_for_item show_bytes t item;
    last_seen = t "diagnostics.lastSeen" [] ++ codes ": " ++ date_text item.detected_at;
  }

  -- The cards of a panel.
  unfoldable pub diagnostic_panel :
      (Str → Str → Bool) → List (DiagnosticItem F) → List DiagnosticCard
  unfolding diagnostic_card
  diagnostic_panel locale_le items = map diagnostic_card (dedupe_insights locale_le items)
