-- ===== src/Components/ServiceSplit/Modes.antt =====
-- The tree and the list show the same services with the same marks.
use mathlib.Core.List.{Perm}
use mathlib.Core.List.Perm
use instace_metric_collector.Common.{
  ℕ, In, In-map_intro, Str, Bool, true, List, [], ◌∷◌, map, keep, Option, ◌≡◌, refl, ap,
}
use instace_metric_collector.Common.Floats.{Floats}
use instace_metric_collector.Api.Types.{ServiceInfo, ProcessInfo}
use instace_metric_collector.Components.ServiceTree.{Row, branch, service, build_tree, render_tree}
use instace_metric_collector.Components.ServiceTree.Rows.{
  Opened, shown, has_path, render_tree-shown,
}
use instace_metric_collector.Components.ServiceView.{
  tree_view, list_view, ServiceRow, service_row, service_list, filtered_services, selected_service,
}
use instace_metric_collector.Components.ServiceSplit.{
  TreeRow, branch_row, service_row_at, tree_row, SplitRows, list_rows, tree_rows, rows_of,
  service_split,
}

-- The services of the rows, with their marks.
abbrev pub marks : List TreeRow → List ServiceRow
marks [] = []
marks (branch_row padding is_open name ∷ rows) = marks rows
marks (service_row_at padding label row ∷ rows) = row ∷ marks rows

abbrev pub marks_of : SplitRows → List ServiceRow
marks_of (list_rows rows) = rows
marks_of (tree_rows rows) = marks rows

marks-tree_row :
    (selected : Option ServiceInfo) (rows : List Row)
    → marks (map (tree_row selected) rows) ≡ map (service_row selected) (shown rows)
unfolding tree_row shown
marks-tree_row selected [] = refl
marks-tree_row selected (branch f n d o ∷ rows) = marks-tree_row selected rows
marks-tree_row selected (service s d l ∷ rows) =
    ap (◌∷◌ (service_row selected s)) (marks-tree_row selected rows)

-- Each branch among the rows of the tree is open.
abbrev pub AllOpen : SplitRows → Type 0
AllOpen (list_rows rows) = Unit
AllOpen (tree_rows rows) =
    (padding : ℕ) (is_open : Bool) (name : Str)
    → In (branch_row padding is_open name) rows
    → is_open ≡ true

tree_rows-Opened :
    (selected : Option ServiceInfo) (rows : List Row)
    → AllOpen (tree_rows (map (tree_row selected) rows))
    → Opened rows
unfolding tree_row
tree_rows-Opened selected rows h path name depth is_open m =
    h _ is_open name (In-map_intro (tree_row selected) rows m)

module _ {F : Type 0} ⦃fl : Floats F⦄ (lower t : Str → Str) (name_le : Str → Str → Bool) where
  -- When each branch that the tree shows is open, the tree has, for the services that the search
  -- leaves and whose names have a part, the same rows as the list, in some order, with the same
  -- status, tone and selection; and the panel beside the rows does not depend on the mode.
  pub modes_agree :
      (prefix : Str) (services : List ServiceInfo) (processes : List (ProcessInfo F))
      (selected_name : Option Str) (search : Str) (expanded : Str → Option Bool)
      → AllOpen
          (service_split lower t name_le prefix services processes selected_name
            (record { search = search; mode = tree_view; expanded = expanded })).rows
      → let tree =
          service_split lower t name_le prefix services processes selected_name
            (record { search = search; mode = tree_view; expanded = expanded }) in
        let list =
          service_split lower t name_le prefix services processes selected_name
            (record { search = search; mode = list_view; expanded = expanded }) in
        let filtered = filtered_services lower services search in
        (list.rows ≡ list_rows (service_list filtered (selected_service filtered selected_name)))
        × Perm
            (marks_of tree.rows)
            (service_list (keep has_path filtered) (selected_service filtered selected_name))
        × (tree.detail ≡ list.detail)
  unfolding service_split rows_of service_list
  modes_agree prefix services processes selected_name search expanded opened =
      let filtered = filtered_services lower services search in
      let selected = selected_service filtered selected_name in
      let rows = render_tree name_le expanded (build_tree filtered) 0 in
      (
        refl,
        rw (marks-tree_row selected rows) (
            Perm.map (service_row selected) (
              render_tree-shown name_le expanded filtered (tree_rows-Opened selected rows opened))),
        refl,
      )
