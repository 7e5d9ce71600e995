-- ===== src/Routes/Containers.antt =====
-- go/web/frontend/src/routes/containers/ContainersPage.tsx without its panel: the list of containers
-- and the selection. `lower` is `toLowerCase`.
pub mod Choosing
use instace_metric_collector.Common.{
  ℕ, Str, String, codes, same, is_empty, nonempty, includes, trim, show_nat, length, take, keep,
  find, Bool, true, false, not, ◌&&◌, ◌||◌, List, [], ◌∷◌, ◌++◌, map, Option, none, some,
  if◌then◌else◌,
}
use instace_metric_collector.Common.Floats.{Floats}
use instace_metric_collector.Api.Types.{ContainerInfo, MetricsPayload, MetricsSnapshot}
use instace_metric_collector.Api.Polling.{ContainerState}
use instace_metric_collector.Domain.AgentStatus.{Tone, success, warning, neutral}
use instace_metric_collector.Domain.Format.{format_bytes, format_percent, is_agent_container}
use instace_metric_collector.Domain.HistorySeries.{ratio_percent}
use instace_metric_collector.Components.Bars.{CardView, metric_card}
use instace_metric_collector.Routes.Layout.{ViewMode}
use instace_metric_collector.Routes.Workbench.{
  WorkbenchPage, waiting_page, in_workbench, is_history, is_some,
}

-- `ContainerRow`.
pub record ContainerRow : Type 0 where
  pub name : Str
  pub is_agent : Bool
  pub status : Str
  pub status_tone : Tone
  pub is_running : Bool
  pub health : Option (Str × Tone)
  pub restarts : ℕ
  pub image : Str
  pub ports : List Str
  pub is_selected : Bool

abbrev pub is_running_status : Str → Bool
is_running_status status = same status (codes "running")

abbrev health_pill : Str → Option (Str × Tone)
health_pill health =
    if nonempty health && not (same health (codes "none"))
    then some (health, if same health (codes "healthy") then success else warning)
    else none

unfoldable pub container_row : (Str → Str) → Bool → ContainerInfo → ContainerRow
container_row lower is_selected c = record {
  name = c.name;
  is_agent = is_agent_container lower c;
  status = c.status;
  status_tone = if is_running_status c.status then success else neutral;
  is_running = is_running_status c.status;
  health = health_pill c.health;
  restarts = c.restart_count;
  image = c.image;
  ports = c.ports;
  is_selected = is_selected;
}

-- The early return of `ContainersPage`.
unfoldable pub containers_page :
    {F : Type 0} → ViewMode → Option (MetricsSnapshot F) → WorkbenchPage
containers_page mode snapshot =
    if not (is_history mode) && not (is_some snapshot) then waiting_page else in_workbench true

-- `ContainersWorkbench`.
pub record WorkbenchState : Type 0 where
  pub search : Str
  pub selected_id : Option Str
  pub mobile_detail : Bool

-- The state for the parameter `id` of the URL.
unfoldable pub start_workbench : Option Str → WorkbenchState
start_workbench none = record { search = []; selected_id = none; mobile_detail = false }
start_workbench (some id) = record {
  search = [];
  selected_id = some id;
  mobile_detail = nonempty id;
}

unfoldable pub container_matches : (Str → Str) → Str → ContainerInfo → Bool
container_matches lower q c = includes (lower c.name) q || includes (lower c.image) q

unfoldable pub filtered_containers : (Str → Str) → List ContainerInfo → Str → List ContainerInfo
filtered_containers lower containers search =
    let q = lower (trim search) in
    if is_empty q then containers else keep (container_matches lower q) containers

abbrev pub has_id : Option Str → ContainerInfo → Bool
has_id none c = false
has_id (some id) c = same c.id id

abbrev pub first? : List ContainerInfo → Option ContainerInfo
first? [] = none
first? (c ∷ containers) = some c

abbrev or_first : Option ContainerInfo → Option ContainerInfo → Option ContainerInfo
or_first none other = other
or_first (some c) other = some c

unfoldable pub selected_container : List ContainerInfo → Option Str → Option ContainerInfo
selected_container filtered id = or_first (find (has_id id) filtered) (first? filtered)

-- `narrow`: the window is narrower than 1024 pixels.
unfoldable pub select_container : Bool → Str → WorkbenchState → WorkbenchState
select_container narrow id s = record s {
  selected_id = some id;
  mobile_detail = if narrow then true else s.mobile_detail;
}

unfoldable pub set_search : Str → WorkbenchState → WorkbenchState
set_search search s = record s { search = search }

unfoldable pub back_to_list : WorkbenchState → WorkbenchState
back_to_list s = record s { mobile_detail = false }

abbrev is_chosen : Option ContainerInfo → ContainerInfo → Bool
is_chosen none c = false
is_chosen (some chosen) c = same chosen.id c.id

-- What the workbench draws: the count, the rows, the container in the panel, and whether a narrow
-- window shows the panel and not the list.
pub record WorkbenchView : Type 0 where
  pub count : ℕ
  pub rows : List ContainerRow
  pub chosen : Option ContainerInfo
  pub shows_panel : Bool

unfoldable pub containers_view : (Str → Str) → List ContainerInfo → WorkbenchState → WorkbenchView
containers_view lower containers s =
    let filtered = filtered_containers lower containers s.search in
    let chosen = selected_container filtered s.selected_id in
    record {
      count = length filtered;
      rows = map (λ c. container_row lower (is_chosen chosen c) c) filtered;
      chosen = chosen;
      shows_panel = s.mobile_detail && is_some chosen;
    }
