-- ===== src/Navigation/Shell/Stages.antt =====
-- What the page shows once the first request has been answered.
use mathlib.Core.Path.{subst}
use instace_metric_collector.Common.{
  ℕ, ◌≤◌, ◌<◌, ◌≢◌, sym, ◌==◌, Str, codes, is_empty, ◌↔◌, Bool, true, false, List, [], ◌∷◌, Option,
  none, some, ◌≡◌, refl, if◌then◌else◌,
}
use instace_metric_collector.Api.Types.{AppMode, agent, hub, MetaResponse}
use instace_metric_collector.Api.Client.{
  json, malformed, Fetched, is_ok, network_error, response, Settled, resolved, rejected, api_get,
  status_error,
}
use instace_metric_collector.Api.Client.Laws.{api_get-value_iff}
use instace_metric_collector.Api.Metrics.{is_loading, meta_settled, initial_meta}
use instace_metric_collector.Navigation.{is_history_capable_route}
use instace_metric_collector.Navigation.Sidebar.{AgentEntry}
use instace_metric_collector.Navigation.Shell.{
  Instant, Menu, hub_menu, agent_menu, agent_nav, menu_of, ShellView, ShellState, app_shell,
  AppView, Indicator, notice, shell, loaded, app_layout, live_indicator, live_of, update_of,
  view_options,
}

-- The errors of the request have a text.
abbrev pub HasText : {A : Type 0} → Fetched A → Type 0
HasText (network_error message) = is_empty message ≡ false
HasText (response status (malformed message)) = is_empty message ≡ false
HasText (response status (json given)) = Unit

-- An answer that is no error, or an error with a text.
abbrev Told : {A : Type 0} → Settled A → Type 0
Told (resolved given) = Unit
Told (rejected message) = is_empty message ≡ false

Told-if : {A : Type 0} (b : Bool) (x y : Settled A) → Told x → Told y → Told (if b then x else y)
Told-if true x y h k = h
Told-if false x y h k = k

get-Told :
    {A : Type 0} (path : Str) (f : Fetched A)
    → is_empty path ≡ false
    → HasText f
    → Told (api_get path f)
unfolding api_get status_error
get-Told path (network_error message) n h = h
get-Told [] (response status body) n h = cc
get-Told (c ∷ path) (response status (malformed message)) n h =
    Told-if (status == 204) _ _ tt (Told-if (is_ok status) (rejected message) _ h refl)
get-Told (c ∷ path) (response status (json given)) n h =
    Told-if (status == 204) _ _ tt (Told-if (is_ok status) (resolved given) _ tt refl)

module _ (t : Str → Str) (to_locale_time : Instant → Str → Str) (s : ShellState) (pathname : Str)
    (entries : List AgentEntry) (live : Bool) (last_update : Option Instant) where
  abbrev pub page : Settled (Option MetaResponse) → AppView
  page a =
      app_layout t to_locale_time s pathname entries live last_update (meta_settled a initial_meta)

  abbrev pub menu_for : AppMode → Menu
  menu_for hub = hub_menu entries
  menu_for agent = agent_menu (agent_nav t)

  abbrev pub indicator_for : AppMode → Indicator
  indicator_for hub = live_indicator t to_locale_time s.language true none
  indicator_for agent = live_indicator t to_locale_time s.language live last_update

  -- The shell of an answer.
  abbrev pub IsShell : MetaResponse → AppView → Type 0
  IsShell m app =
      (v : ShellView) × (app ≡ shell v)
      × (v.menu ≡ menu_for m.mode)
      × (v.indicator ≡ indicator_for m.mode)
      × ((v.toggle ≡ none) ↔ (is_history_capable_route pathname ≡ false))

  toggle_iff : {A : Type 0} (x : A) (b : Bool) → ((if b then some x else none) ≡ none) ↔ (b ≡ false)
  toggle_iff x true = ((λ e. cc), λ e. cc)
  toggle_iff x false = ((λ e. refl), λ e. refl)

  menu_eq : (mode : AppMode) → menu_of t to_locale_time mode entries ≡ menu_for mode
  unfolding menu_of
  menu_eq hub = refl
  menu_eq agent = refl

  indicator_eq :
      (mode : AppMode)
      → live_indicator t to_locale_time s.language (live_of mode live) (update_of mode last_update)
        ≡ indicator_for mode
  indicator_eq hub = refl
  indicator_eq agent = refl

  page-IsShell : (m : MetaResponse) → IsShell m (page (resolved (some m)))
  unfolding app_layout loaded app_shell meta_settled is_loading
  page-IsShell m = (
    _,
    refl,
    menu_eq m.mode,
    indicator_eq m.mode,
    toggle_iff (view_options t) (is_history_capable_route pathname),
  )

  -- A notice with a text.
  abbrev pub IsNotice : AppView → Type 0
  IsNotice app = (message : Str) × (app ≡ notice message) × (is_empty message ≡ false)

  -- The answer gives the value: its status is from 200 to 299 and not 204, and it is that value.
  abbrev pub Gives : Fetched MetaResponse → MetaResponse → Type 0
  Gives f m =
      (status : ℕ) × (f ≡ response status (json (some m)))
      × (200 ≤ status)
      × (status < 300)
      × (status ≢ 204)

  without_value :
      (a : Settled (Option MetaResponse))
      → Told a
      → ((m : MetaResponse) → a ≢ resolved (some m))
      → IsNotice (page a)
  unfolding app_layout loaded meta_settled is_loading
  without_value (resolved (some m)) k n = absurd (n m refl)
  without_value (resolved none) k n = (codes "meta unavailable", refl, refl)
  without_value (rejected []) k n = cc
  without_value (rejected (c ∷ message)) k n = (c ∷ message, refl, refl)

  -- Once the first request is answered, its errors having a text: an answer that gives a value, with
  -- a status from 200 to 299 other than 204, leads to the shell of that value, with the menu of its
  -- mode, the toggle exactly on pages with a history, and under the hub an indicator that says live,
  -- without a time, whatever the metrics say; and an answer that gives no value leads to a notice
  -- with a text, in place of the shell.
  pub app_after_answer :
      (f : Fetched MetaResponse)
      → HasText f
      → ((m : MetaResponse) → Gives f m → IsShell m (page (api_get (codes "/api/meta") f)))
        × (((m : MetaResponse) → Gives f m → ⊥) → IsNotice (page (api_get (codes "/api/meta") f)))
  app_after_answer f h = (
    (λ m g.
        subst (λ a. IsShell m (page a)) (sym ((api_get-value_iff (codes "/api/meta") f m).1 g))
          (page-IsShell m)),
    λ n.
        without_value (api_get (codes "/api/meta") f) (get-Told (codes "/api/meta") f refl h)
          (λ m e. n m ((api_get-value_iff (codes "/api/meta") f m).0 e)),
  )
