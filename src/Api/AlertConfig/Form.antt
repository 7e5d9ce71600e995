-- ===== src/Api/AlertConfig/Form.antt =====
-- go/web/frontend/src/routes/hub/HubAlertSettings.tsx: the form over the configuration hook, with
-- its buttons enabled as the page enables them, and the answers arriving at any later time.
pub mod Laws
use instace_metric_collector.Common.{
  ℕ, ◌+◌, String, Bool, true, false, not, ◌&&◌, List, [], ◌∷◌, Option, none, some, ◌≡◌, ◌==◌,
  if◌then◌else◌,
}
use instace_metric_collector.Api.Client.{Settled, resolved, rejected}
use instace_metric_collector.Api.AlertConfig.{
  HubAlertConfig, PartialConfig, merge, ConfigError, ConfigState, load, save, initial,
  reload_settled, save_start, save_settled,
}

pub record FormState (N : Type 0) : Type 0 where
  pub hook : ConfigState N
  pub is_open : Bool
  pub draft : HubAlertConfig N

module _ {N : Type 0} where
  unfoldable pub patch : PartialConfig N → FormState N → FormState N
  patch given s = record s { draft = merge s.draft given }

  unfoldable pub handle_open : FormState N → FormState N
  handle_open s = record s { draft = s.hook.config; is_open = true }

  unfoldable pub handle_cancel : FormState N → FormState N
  handle_cancel s = record s { is_open = false }

  -- `handleSave` up to its `await`, and from there on.
  unfoldable pub handle_save_start : FormState N → FormState N
  handle_save_start s = record s { hook = save_start s.hook }

  unfoldable pub handle_save_settled :
      HubAlertConfig N → Settled (Option (PartialConfig N)) → FormState N → FormState N
  handle_save_settled base answer s = record s {
    hook = save_settled base answer s.hook;
    is_open = false;
  }

  unfoldable pub handle_load_settled :
      HubAlertConfig N → Settled (Option (PartialConfig N)) → FormState N → FormState N
  handle_load_settled base answer s = record s { hook = reload_settled base answer s.hook }

-- What the page shows: the loading panel, or the form.
pub data Banner : Type 0 where
  save_error load_error saved_note : Banner

pub record FormView (N : Type 0) : Type 0 where
  pub values : HubAlertConfig N
  pub fields_disabled : Bool
  pub save_disabled : Bool
  pub banners : List Banner

abbrev error_banner : Option ConfigError → List Banner
error_banner none = []
error_banner (some save) = save_error ∷ []
error_banner (some load) = load_error ∷ []

abbrev saved_banner : Bool → List Banner → List Banner
saved_banner true shown = saved_note ∷ shown
saved_banner false shown = shown

unfoldable pub render : {N : Type 0} → FormState N → Option (FormView N)
render s =
    if s.hook.loading
    then none
    else some (record {
      values = if s.is_open then s.draft else s.hook.config;
      fields_disabled = not s.is_open;
      save_disabled = s.hook.saving;
      banners = saved_banner (s.hook.saved && not s.is_open) (error_banner s.hook.error);
    })

-- The page with its requests in flight.
pub record System (N : Type 0) : Type 0 where
  pub form : FormState N
  pub loads : ℕ
  pub saves : ℕ

module _ {N : Type 0} (base : HubAlertConfig N) where
  abbrev pub started : System N
  started = record {
    form = record { hook = initial base; is_open = false; draft = base };
    loads = 1;
    saves = 0;
  }

  pub data Step (s : System N) : System N → Type 0 where
    loaded :
        (answer : Settled (Option (PartialConfig N)))
        → s.loads ≡ 1
        → Step s (record s { form = handle_load_settled base answer s.form; loads = 0 })
    edit :
        s.form.hook.loading ≡ false
        → s.form.is_open ≡ false
        → Step s (record s { form = handle_open s.form })
    cancel : s.form.is_open ≡ true → Step s (record s { form = handle_cancel s.form })
    typed :
        (given : PartialConfig N)
        → s.form.is_open ≡ true
        → Step s (record s { form = patch given s.form })
    send :
        s.form.is_open ≡ true
        → s.form.hook.saving ≡ false
        → Step s (record s { form = handle_save_start s.form; saves = s.saves + 1 })
    answered :
        (answer : Settled (Option (PartialConfig N)))
        → s.saves ≡ 1
        → Step s (record s { form = handle_save_settled base answer s.form; saves = 0 })

  pub data Reach : System N → Type 0 where
    start : Reach started
    next : {s t : System N} → Reach s → Step s t → Reach t
