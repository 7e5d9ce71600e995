-- ===== src/Components/ServiceSplit.antt =====
-- go/web/frontend/src/components/ServiceSplitView.tsx as a whole: its state, the rows of its two
-- modes with their marks, and the panel beside them. `lower` is `toLowerCase`, `t` translates a key,
-- and `name_le a b` says that `a.localeCompare(b)` is not positive.
pub mod Modes
use instace_metric_collector.Common.{ℕ, ◌*◌, ◌+◌, Str, Bool, List, [], map, Option, none, some}
use instace_metric_collector.Common.Floats.{Floats}
use instace_metric_collector.Api.Types.{ServiceInfo, ProcessInfo}
use instace_metric_collector.Components.ServiceTree.{Row, branch, service, build_tree, render_tree}
use instace_metric_collector.Components.ServiceView.{
  SplitSurface, ViewMode, tree_view, list_view, initial_mode, filtered_services, selected_service,
  ServiceRow, service_row, service_list, toggle_expanded,
}
use instace_metric_collector.Components.DetailPanels.{ServiceDetail, service_detail}

pub record SplitState : Type 0 where
  pub search : Str
  pub mode : ViewMode
  pub expanded : Str → Option Bool

unfoldable pub start_split : SplitSurface → SplitState
start_split surface = record { search = []; mode = initial_mode surface; expanded = λ path. none }

unfoldable pub set_search : Str → SplitState → SplitState
set_search search s = record s { search = search }

unfoldable pub set_mode : ViewMode → SplitState → SplitState
set_mode mode s = record s { mode = mode }

unfoldable pub click_branch : Str → ℕ → SplitState → SplitState
click_branch full_path depth s = record s { expanded = toggle_expanded full_path depth s.expanded }

-- A row of the tree, with its left padding: a branch, or a service with the text of its label.
pub data TreeRow : Type 0 where
  branch_row : (padding : ℕ) (is_open : Bool) (name : Str) → TreeRow
  service_row_at : (padding : ℕ) (label : Str) → ServiceRow → TreeRow

unfoldable pub tree_row : Option ServiceInfo → Row → TreeRow
tree_row selected (branch full_path name depth is_open) = branch_row (depth * 16) is_open name
tree_row selected (service s depth label) =
    service_row_at (depth * 16 + 20) label (service_row selected s)

-- The rows of the mode.
pub data SplitRows : Type 0 where
  list_rows : List ServiceRow → SplitRows
  tree_rows : List TreeRow → SplitRows

pub record SplitView : Type 0 where
  pub rows : SplitRows
  pub detail : Option ServiceDetail

unfoldable pub rows_of :
    (Str → Str → Bool)
    → List ServiceInfo
    → Option ServiceInfo
    → (Str → Option Bool)
    → ViewMode
    → SplitRows
rows_of name_le filtered selected expanded list_view = list_rows (service_list filtered selected)
rows_of name_le filtered selected expanded tree_view =
    tree_rows (map (tree_row selected) (render_tree name_le expanded (build_tree filtered) 0))

module _ {F : Type 0} ⦃fl : Floats F⦄ (lower t : Str → Str) (name_le : Str → Str → Bool) where
  unfoldable pub detail_of : Str → List (ProcessInfo F) → Option ServiceInfo → Option ServiceDetail
  detail_of prefix processes none = none
  detail_of prefix processes (some s) = some (service_detail lower t prefix s processes)

  unfoldable pub service_split :
      Str → List ServiceInfo → List (ProcessInfo F) → Option Str → SplitState → SplitView
  unfolding rows_of detail_of
  service_split prefix services processes selected_name s =
      let filtered = filtered_services lower services s.search in
      let selected = selected_service filtered selected_name in
      record {
        rows = rows_of name_le filtered selected s.expanded s.mode;
        detail = detail_of prefix processes selected;
      }
