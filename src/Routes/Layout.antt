-- ===== src/Routes/Layout.antt =====
-- go/web/frontend/src/routes/hub/HubAgentLayout.tsx with the state of
-- context/HistoryViewContext.tsx: an agent that is offline is shown by its history. The date of
-- the banner is a text that the locale prints.
pub mod Switch
use instace_metric_collector.Common.{
  Str, same, is_empty, nonempty, Bool, true, false, not, ◌&&◌, List, find, Option, none, some,
  if◌then◌else◌,
}
use instace_metric_collector.Api.Types.{AgentSummary}
use instace_metric_collector.Domain.AgentStatus.{is_agent_offline}
use instace_metric_collector.Domain.HistorySeries.{HistoryTimeRange, day}

pub data ViewMode : Type 0 where
  live_view history_view : ViewMode

-- `viewMode` and `timeRange`.
pub record HistoryView : Type 0 where
  pub view_mode : ViewMode
  pub time_range : HistoryTimeRange

abbrev pub initial_view : HistoryView
initial_view = record { view_mode = live_view; time_range = day }

unfoldable pub set_view_mode : ViewMode → HistoryView → HistoryView
set_view_mode mode v = record v { view_mode = mode }

unfoldable pub set_time_range : HistoryTimeRange → HistoryView → HistoryView
set_time_range range v = record v { time_range = range }

abbrev status_of : {F : Type 0} → Option (AgentSummary F) → Option Str
status_of none = none
status_of (some a) = a.status

-- `agents.find((a) => a.agentId === agentId)?.status`.
unfoldable pub agent_status : {F : Type 0} → List (AgentSummary F) → Str → Option Str
agent_status agents agent_id = status_of (find (λ a. same a.agent_id agent_id) agents)

-- The effect, which runs at the first render and whenever the status has changed.
unfoldable pub offline_effect : Option Str → HistoryView → HistoryView
offline_effect status v = if is_agent_offline status then set_view_mode history_view v else v

abbrev pub same_status : Option Str → Option Str → Bool
same_status none none = true
same_status (some s) (some t) = same s t
same_status _ _ = false

-- The page of an agent: the view and the status that the effect saw last.
pub record LayoutState : Type 0 where
  pub view : HistoryView
  pub seen : Option Str

-- The first render: the list of the agents begins empty, so there is no status yet.
unfoldable pub mount : HistoryView → LayoutState
unfolding offline_effect
mount v = record { view = offline_effect none v; seen = none }

-- A render with a status.
unfoldable pub render : Option Str → LayoutState → LayoutState
unfolding offline_effect
render status s =
    if same_status s.seen status
    then s
    else record { view = offline_effect status s.view; seen = status }

-- The button of the shell's header sets the mode.
unfoldable pub choose : ViewMode → LayoutState → LayoutState
choose mode s = record s { view = set_view_mode mode s.view }

-- What the layout draws: that the id is missing, or the page, under a banner with the date of the
-- last data or without one.
pub data LayoutView : Type 0 where
  missing_id : LayoutView
  agent_page : (banner : Option Str) → LayoutView

abbrev banner_of : {F : Type 0} → (Str → Str) → Option (AgentSummary F) → Option Str
banner_of to_locale none = none
banner_of to_locale (some a) =
    if is_agent_offline a.status && nonempty a.last_seen then some (to_locale a.last_seen) else none

unfoldable pub layout_view :
    {F : Type 0} → (Str → Str) → List (AgentSummary F) → Option Str → LayoutView
layout_view to_locale agents none = missing_id
layout_view to_locale agents (some id) =
    if is_empty id
    then missing_id
    else agent_page (banner_of to_locale (find (λ a. same a.agent_id id) agents))
