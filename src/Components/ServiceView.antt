-- ===== src/Components/ServiceView.antt =====
-- go/web/frontend/src/components/ServiceSplitView.tsx without its tree: the search, the list and
-- the selection, and the marks of the branches.
pub mod Selection
use instace_metric_collector.Common.{
  ℕ, ltb, Str, String, codes, same, is_empty, includes, trim, Bool, true, false, not, ◌||◌, List,
  map, keep, find, Option, none, some, or_else, if◌then◌else◌,
}
use instace_metric_collector.Api.Types.{ServiceInfo}
use instace_metric_collector.Domain.AgentStatus.{Tone, success, error, neutral}

pub data SplitSurface : Type 0 where
  page container_detail : SplitSurface

pub data ViewMode : Type 0 where
  tree_view list_view : ViewMode

abbrev pub initial_mode : SplitSurface → ViewMode
initial_mode container_detail = list_view
initial_mode page = tree_view

unfoldable pub status_tone : Str → Tone
status_tone status =
    if same status (codes "RUNNING")
    then success
    else if same status (codes "ERROR")
    then error
    else neutral

unfoldable pub service_matches : (Str → Str) → Str → ServiceInfo → Bool
service_matches lower q s = includes (lower s.service_name) q || includes (lower s.description) q

-- The memo `filtered`.
unfoldable pub filtered_services : (Str → Str) → List ServiceInfo → Str → List ServiceInfo
filtered_services lower services search =
    let q = lower (trim search) in
    if is_empty q then services else keep (service_matches lower q) services

abbrev pub is_named : Option Str → Str → Bool
is_named none name = false
is_named (some chosen) name = same name chosen

unfoldable pub selected_service : List ServiceInfo → Option Str → Option ServiceInfo
selected_service services name = find (λ s. is_named name s.service_name) services

-- `selected?.serviceName === s.serviceName`.
unfoldable pub is_service_highlighted : Option ServiceInfo → ServiceInfo → Bool
is_service_highlighted none s = false
is_service_highlighted (some chosen) s = same chosen.service_name s.service_name

-- A row of the list.
pub record ServiceRow : Type 0 where
  pub name : Str
  pub status : Str
  pub tone : Tone
  pub is_pulsing : Bool
  pub is_selected : Bool

unfoldable pub service_row : Option ServiceInfo → ServiceInfo → ServiceRow
service_row selected s = record {
  name = s.service_name;
  status = s.status;
  tone = status_tone s.status;
  is_pulsing = same s.status (codes "RUNNING");
  is_selected = is_service_highlighted selected s;
}

unfoldable pub service_list : List ServiceInfo → Option ServiceInfo → List ServiceRow
unfolding service_row
service_list services selected = map (service_row selected) services

-- `setExpanded((e) => ({ ...e, [path]: !open }))` on the branch at a path and a depth.
unfoldable pub toggle_expanded : Str → ℕ → (Str → Option Bool) → Str → Option Bool
toggle_expanded full_path depth expanded path =
    if same path full_path
    then some (not (or_else (expanded full_path) (ltb depth 2)))
    else expanded path
