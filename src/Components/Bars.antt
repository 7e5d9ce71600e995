-- ===== src/Components/Bars.antt =====
-- The colour of a bar: go/web/frontend/src/components/MetricCard.tsx and, once more, the function
-- `barTone` of routes/hub/HubPage.tsx; and the width of the bar.
use instace_metric_collector.Common.{
  Str, String, Option, none, some, ◌≡◌, Bool-cases, inl, inr, if◌then◌else◌,
}
use instace_metric_collector.Common.Floats.{Floats}
use instace_metric_collector.Domain.AgentStatus.{Tone, success, warning, error, neutral}

-- The last clause is never used: a bar has no neutral tone.
abbrev pub tone_class : Tone → String
tone_class success = "bg-tertiary"
tone_class warning = "bg-amber-400"
tone_class error = "bg-error"
tone_class neutral = ""

module _ {F : Type 0} ⦃fl : Floats F⦄ where
  unfoldable pub bar_tone : F → Tone
  bar_tone percent =
      if fl.le (fl.of_nat 85) percent
      then error
      else if fl.le (fl.of_nat 60) percent
      then warning
      else success

  unfoldable pub bar_fill_class : F → String
  bar_fill_class percent = tone_class (bar_tone percent)

  unfoldable pub hub_bar_tone : F → String
  hub_bar_tone percent =
      if fl.le (fl.of_nat 85) percent
      then "bg-error"
      else if fl.le (fl.of_nat 60) percent
      then "bg-amber-400"
      else "bg-tertiary"

  -- `Math.min(percent, 100)`.
  unfoldable pub bar_width : F → F
  bar_width percent = if fl.lt percent (fl.of_nat 100) then percent else fl.of_nat 100

-- A card: its bar, if it has one, with the class and the width.
pub record CardView (F : Type 0) : Type 0 where
  pub label : Str
  pub value : Str
  pub subtitle : Option Str
  pub bar : Option (String × F)

module _ {F : Type 0} ⦃fl : Floats F⦄ where
  abbrev bar_of : Option F → Option (String × F)
  bar_of none = none
  bar_of (some percent) = some (bar_fill_class percent, bar_width percent)

  unfoldable pub metric_card : Str → Str → Option F → Option Str → CardView F
  metric_card label value percent subtitle = record {
    label = label;
    value = value;
    subtitle = subtitle;
    bar = bar_of percent;
  }

  -- The hub's cards and the agent's cards colour a bar alike, whatever the percentage.
  pub hub_bar_tone-bar_fill_class : (percent : F) → hub_bar_tone percent ≡ bar_fill_class percent
  unfolding hub_bar_tone bar_fill_class bar_tone
  hub_bar_tone-bar_fill_class percent = elim (Bool-cases (fl.le (fl.of_nat 85) percent)) [
    | inl e ↦ rw e
    | inr e ↦
        rw e (elim (Bool-cases (fl.le (fl.of_nat 60) percent)) [ inl f ↦ rw f | inr f ↦ rw f ])
  ]
