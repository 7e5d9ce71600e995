-- ===== src/Routes/Workbench.antt =====
-- The pages of the processes and of the services: go/web/frontend/src/routes/processes/ProcessesPage.tsx
-- and routes/services/ServicesPage.tsx. `number` is `Number` on a text that stands for a natural
-- number, `none` for any other.
pub mod Selecting
use instace_metric_collector.Common.{
  ℕ, Str, String, codes, is_empty, show_nat, Bool, true, false, not, ◌&&◌, Option, none, some,
  if◌then◌else◌,
}
use instace_metric_collector.Api.Types.{MetricsSnapshot}
use instace_metric_collector.Components.ServiceView.{SplitSurface, page, container_detail}
use instace_metric_collector.Routes.Layout.{ViewMode, live_view, history_view}
use instace_metric_collector.Routes.Query.{Query}

abbrev pub is_page : SplitSurface → Bool
is_page page = true
is_page container_detail = false

abbrev pub is_history : ViewMode → Bool
is_history history_view = true
is_history live_view = false

abbrev pub is_some : {A : Type 0} → Option A → Bool
is_some none = false
is_some (some a) = true

-- What a page shows: that it waits, its content alone, or its content in the history workbench.
pub data WorkbenchPage : Type 0 where
  waiting_page : WorkbenchPage
  plain_content : WorkbenchPage
  in_workbench : (has_title : Bool) → WorkbenchPage

-- The early returns of `ProcessesPage` and of `ServicesPage`.
unfoldable pub workbench_page :
    {F : Type 0} → SplitSurface → Bool → ViewMode → Option (MetricsSnapshot F) → WorkbenchPage
workbench_page surface show_title mode snapshot =
    if not (is_page surface && is_history mode) && not (is_some snapshot)
    then waiting_page
    else if is_page surface
    then in_workbench show_title
    else plain_content

abbrev pub pid_key : Str
pid_key = codes "pid"

abbrev pub service_key : Str
service_key = codes "service"

module _ (q : Query) (number : Str → Option ℕ) where
  pid_of : Option Str → Option ℕ
  pid_of none = none
  pid_of (some s) = if is_empty s then none else number s

  unfoldable pub selected_pid : q.Params → Option ℕ
  unfolding pid_of
  selected_pid params = pid_of (q.get params pid_key)

module _ (q : Query) where
  unfoldable pub on_select_pid : q.Params → ℕ → q.Params
  on_select_pid params p = q.set params pid_key (show_nat p)

  unfoldable pub selected_name : q.Params → Option Str
  selected_name params = q.get params service_key

  unfoldable pub on_select_service : q.Params → Str → q.Params
  on_select_service params name = q.set params service_key name
