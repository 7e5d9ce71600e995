-- ===== src/Api/AlertConfig/Form/Laws.antt =====
-- What holds of the settings form whatever the clicks and answers.
use instace_metric_collector.Common.{
  ℕ, ◌≤◌, true, false, List, [], ◌∷◌, Option, none, some, ◌≡◌, ◌↔◌, refl, arith,
}
use instace_metric_collector.Api.Client.{Settled, resolved, rejected}
use instace_metric_collector.Api.AlertConfig.{
  HubAlertConfig, PartialConfig, merge, initial, reload_settled, save_start, save_settled,
}
use instace_metric_collector.Api.AlertConfig.Form.{
  FormState, save_error, saved_note, patch, handle_open, handle_cancel, handle_save_start,
  handle_save_settled, handle_load_settled, render, System, Step, loaded, edit, cancel, typed, send,
  answered, Reach, start, next,
}

-- The flags count the requests in flight, and a success is never shown beside an error.
pub record IsConsistent {N : Type 0} (s : System N) : Type 0 where
  pub one_save : s.saves ≤ 1
  pub saving_iff : (s.form.hook.saving ≡ true) ↔ (s.saves ≡ 1)
  pub loading_iff : (s.form.hook.loading ≡ true) ↔ (s.loads ≡ 1)
  pub no_early_save :
      s.loads ≡ 1 → (s.saves ≡ 0) × (s.form.is_open ≡ false) × (s.form.hook.saved ≡ false)
  pub saved_clean : s.form.hook.saved ≡ true → s.form.hook.error ≡ none
  pub saving_clean : s.saves ≡ 1 → (s.form.hook.error ≡ none) × (s.form.hook.saved ≡ false)
  pub one_load : s.loads ≤ 1

module _ {N : Type 0} (base : HubAlertConfig N) where
  Step-IsConsistent : {s t : System N} → Step base s t → IsConsistent s → IsConsistent t
  unfolding patch handle_open handle_cancel handle_save_start handle_save_settled
      handle_load_settled reload_settled save_start save_settled
  Step-IsConsistent (loaded (resolved none) e) c = ground (arith, c.no_early_save e)
  Step-IsConsistent (loaded (resolved (some g)) e) c = ground (arith, c.no_early_save e)
  Step-IsConsistent (loaded (rejected m) e) c = ground (arith, c.no_early_save e)
  Step-IsConsistent (edit l o) c = ground arith
  Step-IsConsistent (cancel o) c = ground arith
  Step-IsConsistent (typed g o) c = ground arith
  Step-IsConsistent (send o k) c = ground arith
  Step-IsConsistent (answered (resolved u) e) c = ground arith
  Step-IsConsistent (answered (rejected m) e) c = ground arith

  -- Whatever the clicks and the answers: at most one save is in flight and the save button is
  -- disabled exactly then, no form is open before the configuration is loaded, and a success is
  -- not noted beside an error.
  pub Reach-IsConsistent : {s : System N} → Reach base s → IsConsistent s
  unfolding initial
  Reach-IsConsistent start = ground arith
  Reach-IsConsistent (next r st) = Step-IsConsistent st (Reach-IsConsistent r)

  -- On a page that has loaded and notes no success, a save that fails leaves the configuration as
  -- it was, closes the form under the error, and loses what was typed: the form shows the old
  -- configuration, and so does the draft that the edit button opens next.
  pub failed_save_drops_draft :
      (s : FormState N) (message : List ℕ)
      → s.hook.loading ≡ false
      → s.hook.saved ≡ false
      → (render (handle_save_settled base (rejected message) s)
          ≡ some (record {
            values = s.hook.config;
            fields_disabled = true;
            save_disabled = false;
            banners = save_error ∷ [];
          }))
        × ((handle_open (handle_save_settled base (rejected message) s)).draft ≡ s.hook.config)
  unfolding render handle_save_settled save_settled handle_open
  failed_save_drops_draft s message l d = (rw (l, d), refl)

  -- A save that succeeds shows what the server returned over the defaults, with the note and no
  -- error, and closes the form.
  pub successful_save_shown :
      (s : FormState N) (updated : PartialConfig N)
      → s.hook.loading ≡ false
      → render (handle_save_settled base (resolved (some updated)) (handle_save_start s))
        ≡ some (record {
          values = merge base updated;
          fields_disabled = true;
          save_disabled = false;
          banners = saved_note ∷ [];
        })
  unfolding render handle_save_settled save_settled handle_save_start save_start
  successful_save_shown s updated l = rw l

  -- From any reachable state with an open form and no save in flight, a state can be reached in
  -- which the form is open again with something newly typed, and the answer of the save that was
  -- sent before closes it, whatever the answer.
  pub late_answer_closes :
      {s : System N} (given : PartialConfig N)
      → Reach base s
      → s.form.is_open ≡ true
      → s.form.hook.saving ≡ false
      → (t : System N) × Reach base t
        × (t.form.is_open ≡ true)
        × (t.form.draft ≡ merge s.form.hook.config given)
        × ((answer : Settled (Option (PartialConfig N)))
            → Step base t (record t { form = handle_save_settled base answer t.form; saves = 0 })
              × ((handle_save_settled base answer t.form).is_open ≡ false))
  unfolding patch handle_open handle_cancel handle_save_start handle_save_settled save_start
  late_answer_closes {s} given r o k =
      let c = Reach-IsConsistent r in
      let sent = next r (send o k) in
      let closed = next sent (cancel o) in
      let again = next closed (edit (ground (arith, c)) refl) in
      let changed = next again (typed given refl) in
      (_, changed, refl, refl, λ answer. (answered answer (ground (arith, c)), refl))
