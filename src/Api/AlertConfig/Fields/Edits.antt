-- ===== src/Api/AlertConfig/Fields/Edits.antt =====
-- What an edit of a field changes, from the opening of the form to the saved configuration.
use instace_metric_collector.Common.{ℕ, zero, suc, false, List, [], ◌∷◌, map, some, All, ◌≡◌, refl}
use instace_metric_collector.Api.Client.{resolved}
use instace_metric_collector.Api.AlertConfig.{
  HubAlertConfig, PartialConfig, merge, save_start, save_settled, merged,
}
use instace_metric_collector.Api.AlertConfig.Form.{
  FormState, patch, handle_open, handle_save_start, handle_save_settled,
}
use instace_metric_collector.Api.AlertConfig.Fields.{
  NumberField, alert_fields, diagnostic_fields, number_fields,
}

-- The elements with their places, from the place `i` on.
abbrev pub indexed {ℓ} : {A : Type ℓ} → ℕ → List A → List (ℕ × A)
indexed i [] = []
indexed i (x ∷ xs) = (i, x) ∷ indexed (suc i) xs

abbrev pub set_at {ℓ} : {A : Type ℓ} → ℕ → A → List A → List A
set_at i v [] = []
set_at zero v (x ∷ xs) = v ∷ xs
set_at (suc i) v (x ∷ xs) = x ∷ set_at i v xs

-- An answer with every field of a configuration.
abbrev pub echo : {N : Type 0} → HubAlertConfig N → PartialConfig N
echo c = record {
  cpu_percent = some c.cpu_percent;
  memory_percent = some c.memory_percent;
  disk_percent = some c.disk_percent;
  cooldown_minutes = some c.cooldown_minutes;
  stale_multiplier = some c.stale_multiplier;
  cpu_spike_min_percent = some c.cpu_spike_min_percent;
  memory_pressure_percent = some c.memory_pressure_percent;
  disk_filling_percent = some c.disk_filling_percent;
  container_restart_count = some c.container_restart_count;
}

module _ {N : Type 0} (base : HubAlertConfig N) where
  -- The form is opened, a field is changed, and the draft is saved to a server that answers with it.
  abbrev pub saved_edit : NumberField N → N → FormState N → FormState N
  saved_edit field v s =
      let edited : FormState N = patch (field.change v) (handle_open s) in
      handle_save_settled base (resolved (some (echo edited.draft))) (handle_save_start edited)

  -- For each of the nine fields and each value: when the form is opened, the field changed to the
  -- value and the draft saved, the server answering with it, then the form is closed and the fields
  -- of the configuration are as before, but for that one field, which has the value.
  pub saved_edit_lem :
      (v : N) (s : FormState N)
      → All
          (λ p.
            (map (λ g. g.value (saved_edit p.1 v s).hook.config) number_fields
              ≡ set_at p.0 v (map (λ g. g.value s.hook.config) number_fields))
            × ((saved_edit p.1 v s).is_open ≡ false))
          (indexed 0 number_fields)
  unfolding patch handle_open handle_save_start handle_save_settled merge merged save_start
      save_settled alert_fields diagnostic_fields
  saved_edit_lem v s = (
    (refl, refl),
    (
      (refl, refl),
      (
        (refl, refl),
        (
          (refl, refl),
          ((refl, refl), ((refl, refl), ((refl, refl), ((refl, refl), ((refl, refl), tt))))),
        ),
      ),
    ),
  )
