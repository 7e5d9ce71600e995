-- ===== src/Examples/Requests.antt =====
-- The API client, the metrics hook, the alerts and the alert settings on examples.
use instace_metric_collector.Common.{
  erase, ℕ, ◌≤◌, ◌<◌, codes, same, true, false, List, [], ◌∷◌, map, All, none, some, In, here,
  there, ◌≡◌, ◌≢◌, ◌↔◌, refl, ap,
}
use instace_metric_collector.Api.Client.{resolved, rejected, response, json, api_get}
use instace_metric_collector.Api.Client.Laws.{api_get-value_iff}
use instace_metric_collector.Api.Metrics.{Event, answered, streamed, stream_failed}
use instace_metric_collector.Api.Alerts.{
  acknowledge_settled, silence_key, acknowledge_start, reload_settled,
}
use instace_metric_collector.Api.Alerts
use instace_metric_collector.Api.Alerts.Acks
use instace_metric_collector.Api.Alerts.Acks.{
  reload, CanAck, IsBusy, double_ack, acknowledge_settled_lem,
}
use instace_metric_collector.Api.Alerts.Settling.{Answers, stay, go, IsAnswer, marks_settle}
use instace_metric_collector.Api.AlertConfig.{HubAlertConfig, PartialConfig, defaults, merge}
use instace_metric_collector.Api.AlertConfig.Form
use instace_metric_collector.Api.AlertConfig.Form.{
  FormState, FormView, loaded, edit, typed, send, saved_note, save_error, handle_open,
  handle_save_settled, handle_save_start, render, handle_load_settled,
}
use instace_metric_collector.Api.AlertConfig.Form.Laws.{
  IsConsistent, Reach-IsConsistent, failed_save_drops_draft, successful_save_shown,
}
use instace_metric_collector.Api.AlertConfig.Fields.{number_fields}
use instace_metric_collector.Api.AlertConfig.Fields.Edits.{
  indexed, set_at, saved_edit, saved_edit_lem,
}
use instace_metric_collector.Examples.Data.{snap_a, snap_b, alert_one, alert_two}

abbrev five : ℕ
five = 5

api_get-value_iff_example :
    (api_get (codes "/x") (response 200 (json (some five))) ≡ resolved (some five)) ↔ (
      (status : ℕ) × (response 200 (json (some five)) ≡ response status (json (some five)))
      × (200 ≤ status)
      × (status < 300)
      × (status ≢ 204))
api_get-value_iff_example = api_get-value_iff (codes "/x") (response 200 (json (some five))) five

abbrev events : List (Event ℕ)
events =
    streamed none ∷ answered (resolved (some snap_a)) ∷ stream_failed ∷ streamed (some snap_b) ∷ []

-- Two alerts that are open, just loaded.
abbrev open_two : Alerts.AlertRecord ℕ
open_two = record alert_two { status = codes "OPEN" }

abbrev listed : Acks.System ℕ
listed = record {
  ui = reload_settled (resolved (some (alert_one ∷ open_two ∷ []))) Alerts.initial;
  acks = [];
  silences = [];
}

abbrev listed_reached : Acks.Reach listed
listed_reached = Acks.next Acks.start (reload (resolved (some (alert_one ∷ open_two ∷ []))))

one-CanAck : CanAck listed alert_one
unfolding reload_settled Alerts.initial
one-CanAck = record { listed = here refl; is_open = refl; free = λ e. cc }

-- The first alert is being acknowledged, and the request fails.
abbrev acking : Acks.System ℕ
acking = record listed { ui = acknowledge_start (codes "1") listed.ui; acks = codes "1" ∷ [] }

abbrev failed_ack : Acks.System ℕ
failed_ack = record acking {
  ui = acknowledge_settled (codes "1") (rejected []) acking.ui;
  acks = erase (codes "1") acking.acks;
}

acking_reached : Acks.Reach acking
acking_reached = Acks.next listed_reached (Acks.ack alert_one one-CanAck)

failed_run : Answers acking 1 failed_ack
failed_run = go stay (Acks.acked (codes "1") (rejected []) (here refl)) tt

marks_settle_example :
    (1 ≤ 1)
    × IsBusy failed_ack
    × (((u : Acks.System ℕ) (st : Acks.Step failed_ack u) → IsAnswer st → ⊥)
        → (failed_ack.ui.acking_id ≡ none) × (failed_ack.ui.silencing_key ≡ none))
marks_settle_example = marks_settle acking_reached failed_run

two-CanAck : CanAck listed open_two
unfolding reload_settled Alerts.initial
two-CanAck = record { listed = there (here refl); is_open = refl; free = λ e. cc }

ids_differ : codes "1" ≢ codes "2"
unfolding same
ids_differ e = let h : true ≡ false = ap (λ s. same s (codes "1")) e in cc

double_ack_example : (t : Acks.System ℕ) × Acks.Reach t × In (codes "2") t.acks × CanAck t open_two
double_ack_example = double_ack alert_one open_two listed_reached one-CanAck two-CanAck ids_differ

abbrev shown_two : Alerts.AlertsState ℕ
shown_two = record {
  alerts = alert_one ∷ alert_two ∷ [];
  acking_id = some (codes "1");
  silencing_key = none;
}

abbrev base : HubAlertConfig ℕ
base = defaults (λ n. n)

abbrev only_cpu : PartialConfig ℕ
only_cpu = record {
  cpu_percent = some 80;
  memory_percent = none;
  disk_percent = none;
  cooldown_minutes = none;
  stale_multiplier = none;
  cpu_spike_min_percent = none;
  memory_pressure_percent = none;
  disk_filling_percent = none;
  container_restart_count = none;
}

abbrev loaded_form : Form.System ℕ
loaded_form = record (Form.started base) {
  form = handle_load_settled base (resolved (some only_cpu)) (Form.started base).form;
  loads = 0;
}

loaded_form_reached : Form.Reach base loaded_form
loaded_form_reached = Form.next Form.start (loaded (resolved (some only_cpu)) refl)

Reach-IsConsistent_example : IsConsistent loaded_form
Reach-IsConsistent_example = Reach-IsConsistent base loaded_form_reached

abbrev editing : FormState ℕ
editing = record {
  hook = record { config = base; loading = false; saving = false; error = none; saved = false };
  is_open = true;
  draft = merge base only_cpu;
}

failed_save_drops_draft_example :
    (render (handle_save_settled base (rejected (codes "no")) editing)
      ≡ some (record {
        values = base;
        fields_disabled = true;
        save_disabled = false;
        banners = save_error ∷ [];
      }))
    × ((handle_open (handle_save_settled base (rejected (codes "no")) editing)).draft ≡ base)
failed_save_drops_draft_example = failed_save_drops_draft base editing (codes "no") refl refl

successful_save_shown_example :
    render (handle_save_settled base (resolved (some only_cpu)) (handle_save_start editing))
    ≡ some (record {
      values = merge base only_cpu;
      fields_disabled = true;
      save_disabled = false;
      banners = saved_note ∷ [];
    })
successful_save_shown_example = successful_save_shown base editing only_cpu refl

saved_edit_lem_example :
    All
      (λ p.
        (map (λ g. g.value (saved_edit base p.1 five editing).hook.config) number_fields
          ≡ set_at p.0 five (map (λ g. g.value editing.hook.config) number_fields))
        × ((saved_edit base p.1 five editing).is_open ≡ false))
      (indexed 0 number_fields)
saved_edit_lem_example = saved_edit_lem base five editing
