-- ===== src/Navigation/Shell.antt =====
-- go/web/frontend/src/app: AppLayout.tsx and AppShell.tsx, with the toggle and the indicator of the
-- shell's head, components/LiveHistoryToggle.tsx and LiveIndicator.tsx. `t` translates a key, and
-- `to_locale_time` prints a date; a date is its instant, `none` if it is invalid.
pub mod Stages
use instace_metric_collector.Common.{
  ℕ, Str, codes, same, is_empty, Bool, true, false, List, [], ◌∷◌, ◌++◌, map, Option, none, some,
  if◌then◌else◌,
}
use instace_metric_collector.Api.Types.{AppMode, agent, hub, MetaResponse}
use instace_metric_collector.Api.Metrics.{MetaState, is_loading}
use instace_metric_collector.Domain.Format.{format_time}
use instace_metric_collector.Components.Tabs.{Tab}
use instace_metric_collector.Navigation.{is_history_capable_route}
use instace_metric_collector.Navigation.Sidebar.{NavEntry, AgentEntry}
use instace_metric_collector.Routes.Layout.{ViewMode, live_view, history_view}

-- `LiveIndicator`.
pub record Indicator : Type 0 where
  pub is_pulsing : Bool
  pub text : Str
  pub updated : Str

abbrev pub Instant : Type 0
Instant = Option ℕ

module _ (t : Str → Str) where
  unfoldable pub live_indicator : (Instant → Str → Str) → Str → Bool → Option Instant → Indicator
  live_indicator to_locale_time language live last_update = record {
    is_pulsing = live;
    text = if live then t (codes "app.live") else t (codes "app.offline");
    updated =
        t (codes "app.lastUpdate") ++ codes ": " ++ format_time to_locale_time last_update language;
  }

  unfoldable pub view_options : List Tab
  view_options =
      record { id = codes "live"; label = t (codes "app.live") }
      ∷ record { id = codes "history"; label = t (codes "app.history") }
      ∷ []

  unfoldable pub agent_nav : List NavEntry
  agent_nav =
      record { to = codes "/"; is_end = true; label = t (codes "nav.dashboard") }
      ∷ record { to = codes "/processes"; is_end = false; label = t (codes "nav.processes") }
      ∷ record { to = codes "/services"; is_end = false; label = t (codes "nav.services") }
      ∷ record { to = codes "/containers"; is_end = false; label = t (codes "nav.containers") }
      ∷ []

abbrev pub view_id : ViewMode → Str
view_id live_view = codes "live"
view_id history_view = codes "history"

-- The menu: the hub's side bar, or the links of an agent.
pub data Menu : Type 0 where
  hub_menu : List AgentEntry → Menu
  agent_menu : List NavEntry → Menu

-- What `AppShell` draws; the toggle is there on a page with a history only.
pub record ShellView : Type 0 where
  pub menu : Menu
  pub version : Option Str
  pub hub_hint : Option Str
  pub toggle : Option (List Tab)
  pub indicator : Indicator

-- The text of the search and the language, with what the browser stores under `imc.locale`.
pub record ShellState : Type 0 where
  pub global_search : Str
  pub language : Str
  pub stored_locale : Option Str

unfoldable pub set_global_search : Str → ShellState → ShellState
set_global_search text s = record s { global_search = text }

unfoldable pub switch_locale : Str → ShellState → ShellState
switch_locale lng s = record s { language = lng; stored_locale = some lng }

-- What `AppLayout` draws: a notice alone, or the shell.
pub data AppView : Type 0 where
  notice : Str → AppView
  shell : ShellView → AppView

abbrev live_of : AppMode → Bool → Bool
live_of hub live = true
live_of agent live = live

abbrev update_of : AppMode → Option Instant → Option Instant
update_of hub last_update = none
update_of agent last_update = last_update

module _ (t : Str → Str) (to_locale_time : Instant → Str → Str) where
  menu_of : AppMode → List AgentEntry → Menu
  menu_of hub entries = hub_menu entries
  menu_of agent entries = agent_menu (agent_nav t)

  hint_of : AppMode → Option Str
  hint_of hub = none
  hint_of agent = some (t (codes "agent.hubHint"))

  unfoldable pub app_shell :
      ShellState → Str → List AgentEntry → AppMode → Bool → Option Instant → Str → ShellView
  unfolding menu_of hint_of
  app_shell s pathname entries mode live last_update version = record {
    menu = menu_of mode entries;
    version = if is_empty version then none else some version;
    hub_hint = hint_of mode;
    toggle = if is_history_capable_route pathname then some (view_options t) else none;
    indicator = live_indicator t to_locale_time s.language live last_update;
  }

  abbrev error_text : Option Str → Str
  error_text none = t (codes "app.apiUnavailable")
  error_text (some message) = message

  loaded :
      ShellState
      → Str
      → List AgentEntry
      → Bool
      → Option Instant
      → Option Str
      → Option MetaResponse
      → AppView
  loaded s pathname entries live last_update error none = notice (error_text error)
  loaded s pathname entries live last_update none (some m) = shell (
      app_shell s pathname entries m.mode (live_of m.mode live) (update_of m.mode last_update)
        m.version)
  loaded s pathname entries live last_update (some message) (some m) =
      if is_empty message
      then shell (
          app_shell s pathname entries m.mode (live_of m.mode live) (update_of m.mode last_update)
            m.version)
      else notice message

  unfoldable pub app_layout :
      ShellState → Str → List AgentEntry → Bool → Option Instant → MetaState → AppView
  unfolding loaded
  app_layout s pathname entries live last_update meta =
      if is_loading meta
      then notice (t (codes "app.loading"))
      else loaded s pathname entries live last_update meta.error meta.meta
