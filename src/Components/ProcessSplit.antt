-- ===== src/Components/ProcessSplit.antt =====
-- go/web/frontend/src/components/ProcessSplitView.tsx as a whole: its state, the head and the rows
-- of its table, and the panel beside them. `lower` is `toLowerCase`, `encode` is
-- `encodeURIComponent`, `t` translates a key, and `name_le a b` says that `a.localeCompare(b)` is
-- not positive.
pub mod Opening
use instace_metric_collector.Common.{
  ℕ, Str, String, codes, Bool, true, false, List, [], ◌∷◌, ◌++◌, Option, none, some, if◌then◌else◌,
}
use instace_metric_collector.Common.Floats.{Floats}
use instace_metric_collector.Api.Types.{ServiceInfo, ProcessInfo}
use instace_metric_collector.Components.ServiceView.{SplitSurface, page, container_detail}
use instace_metric_collector.Components.ProcessView.{
  SortKey, by_pid, by_cpu, by_mem, by_user, ProcessSort, initial_sort, toggle_sort,
  filtered_processes, selected_process, ProcessRow, process_table,
}
use instace_metric_collector.Components.DetailPanels.{ProcessDetail, process_detail}
use instace_metric_collector.Components.MasterDetail.{Frame, master_detail, sixty_forty}

pub record TableState : Type 0 where
  pub search : Str
  pub sort : ProcessSort

abbrev pub start_table : TableState
start_table = record { search = []; sort = initial_sort }

-- What is typed into the search, and a click on the head of a column.
unfoldable pub type_search : Str → TableState → TableState
type_search search s = record s { search = search }

unfoldable pub choose_sort : SortKey → TableState → TableState
choose_sort key s = record s { sort = toggle_sort key s.sort }

abbrev pub is_compact : SplitSurface → Bool
is_compact container_detail = true
is_compact page = false

-- The head of a column, with the order that a click on it chooses.
pub record Head : Type 0 where
  pub label : Str
  pub sorts_by : Option SortKey

abbrev wide_only : {A : Type 0} → Bool → A → List A
wide_only compact x = if compact then [] else x ∷ []

unfoldable pub heads : (Str → Str) → Bool → List Head
heads t compact =
    record { label = t (codes "table.pid"); sorts_by = some by_pid }
    ∷ (wide_only compact (record { label = t (codes "table.user"); sorts_by = some by_user })
        ++ record { label = t (codes "table.cpu"); sorts_by = some by_cpu }
          ∷ record { label = t (codes "table.memory"); sorts_by = some by_mem }
          ∷ wide_only compact
              (record { label = t (codes "processes.table.command"); sorts_by = none }))

-- The panel is that of a process, or only says that one is to be picked.
pub record TableView : Type 0 where
  pub frame : Frame
  pub head : List Head
  pub rows : List ProcessRow
  pub detail : Option ProcessDetail

module _ {F : Type 0} ⦃fl : Floats F⦄ (lower encode t : Str → Str)
    (name_le : Str → Str → Bool) where
  unfoldable pub panel_of : Str → List ServiceInfo → Option (ProcessInfo F) → Option ProcessDetail
  panel_of service_prefix services none = none
  panel_of service_prefix services (some p) =
      some (process_detail lower encode t service_prefix p services)

  unfoldable pub process_split :
      SplitSurface
      → Str
      → List (ProcessInfo F)
      → List ServiceInfo
      → Option ℕ
      → TableState
      → TableView
  unfolding panel_of
  process_split surface service_prefix processes services selected_pid s =
      let filtered = filtered_processes name_le lower processes s.search s.sort in
      let selected = selected_process filtered selected_pid in
      record {
        frame = master_detail surface sixty_forty;
        head = heads t (is_compact surface);
        rows = process_table (is_compact surface) filtered selected;
        detail = panel_of service_prefix services selected;
      }
