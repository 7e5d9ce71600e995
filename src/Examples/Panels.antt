-- ===== src/Examples/Panels.antt =====
-- The components on examples.
use mathlib.Core.List.{Perm}
use instace_metric_collector.Common.{
  ℕ, Str, codes, Bool, true, false, List, [], ◌∷◌, keep, Option, none, some, In, here, there,
  get_elem?, trim, split_on, same, ◌<◌, ◌≡◌, ◌↔◌, refl,
}
use instace_metric_collector.Common.Sort.{Apart, sort_by}
use instace_metric_collector.Common.Floats.{nat_floats}
use instace_metric_collector.Api.Types.{AgentSummary, ProcessInfo, ServiceInfo}
use instace_metric_collector.Domain.ServiceLink.{service_domain_path}
use instace_metric_collector.Domain.HistorySeries.Laws.{leb-IsPreorder}
use instace_metric_collector.Components.ProcessView.{
  initial_sort, process_matches, filtered_processes,
}
use instace_metric_collector.Components.ProcessView.Order.{Found, Ordered, filtered_processes_lem}
use instace_metric_collector.Components.ServiceTree.Placement.{
  services_at, same_path, services_at-build_tree,
}
use instace_metric_collector.Components.ServiceTree.{
  render_tree, build_tree, insert_service, insert_parts, update_child, child_rows, concat,
  service_rows,
}
use instace_metric_collector.Components.ServiceTree.Rows.{has_path}
use instace_metric_collector.Components.Diagnostics.{
  DiagnosticItem, num, str, str_lt, diagnostic_dedupe_key, dedupe_insights,
}
use instace_metric_collector.Components.Diagnostics.Unique.{Differ, dedupe_insights_lem}
use instace_metric_collector.Components.ServiceView.{
  tree_view, list_view, filtered_services, selected_service, service_list,
}
use instace_metric_collector.Components.ServiceSplit.{
  SplitView, list_rows, service_split, rows_of, tree_row,
}
use instace_metric_collector.Components.ServiceSplit.Modes.{AllOpen, marks_of, modes_agree}
use instace_metric_collector.Routes.Diagnostics.{AgentBlock, blocks, diagnostics_page}
use instace_metric_collector.Routes.Diagnostics.Shown.{IsOf, Shows, diagnostics_page_lem}
use instace_metric_collector.Examples.Data.{plain, agent_one, sshd, nginx, sshd_unit, ssh_service}

-- A total order that calls all names equal.
abbrev pub any_order : Str → Str → Bool
any_order a b = true

abbrev searched_rows : List (ProcessInfo ℕ)
searched_rows = filtered_processes any_order plain (sshd ∷ nginx ∷ []) (codes "n") initial_sort

filtered_processes_lem_example :
    ((p : ProcessInfo ℕ)
      → In p searched_rows ↔ (In p (sshd ∷ nginx ∷ []) × Found plain (codes "n") p))
    × Perm searched_rows (keep (process_matches plain (codes "n")) (sshd ∷ nginx ∷ []))
    × ((i j : ℕ) (a b : ProcessInfo ℕ)
        → i < j
        → get_elem? searched_rows i ≡ some a
        → get_elem? searched_rows j ≡ some b
        → Ordered any_order initial_sort.sort_key initial_sort.sort_asc a b)
filtered_processes_lem_example =
    filtered_processes_lem any_order (leb-IsPreorder (λ n. n))
      (record { total = λ a b h. refl; trans = λ a b c h k. refl }) plain (sshd ∷ nginx ∷ [])
      (codes "n") initial_sort

services_at-build_tree_example :
    services_at (codes "net" ∷ codes "sshd" ∷ []) (build_tree (sshd_unit ∷ ssh_service ∷ []))
    ≡ keep
        (λ s. same_path (service_domain_path s.service_name) (codes "net" ∷ codes "sshd" ∷ []))
        (sshd_unit ∷ ssh_service ∷ [])
services_at-build_tree_example =
    services_at-build_tree (codes "net" ∷ codes "sshd" ∷ []) (sshd_unit ∷ ssh_service ∷ [])

abbrev disk_item : DiagnosticItem ℕ
disk_item = record {
  id = codes "1";
  type = codes "DISK_FILLING";
  severity = codes "WARN";
  detected_at = codes "t1";
  summary_key = codes "k";
  details = some ((codes "mount", str (codes "/")) ∷ (codes "usePercent", num 91) ∷ []);
}

abbrev disk_item_later : DiagnosticItem ℕ
disk_item_later = record disk_item { id = codes "2"; detected_at = codes "t2" }

dedupe_insights_lem_example :
    ((x : DiagnosticItem ℕ)
      → In x (dedupe_insights any_order (disk_item ∷ disk_item_later ∷ []))
      → In x (disk_item ∷ disk_item_later ∷ []))
    × Apart Differ (dedupe_insights any_order (disk_item ∷ disk_item_later ∷ []))
    × ((x : DiagnosticItem ℕ)
        → In x (disk_item ∷ disk_item_later ∷ [])
        → (y : DiagnosticItem ℕ) × In y
            (dedupe_insights any_order (disk_item ∷ disk_item_later ∷ []))
          × (diagnostic_dedupe_key y ≡ diagnostic_dedupe_key x)
          × (str_lt y.detected_at x.detected_at ≡ false))
dedupe_insights_lem_example = dedupe_insights_lem any_order (disk_item ∷ disk_item_later ∷ [])

abbrev items_of : Str → List (DiagnosticItem ℕ)
items_of id = disk_item ∷ disk_item_later ∷ []

diagnostics_page_lem_example :
    (bs : List (AgentBlock ℕ)) × (diagnostics_page any_order (agent_one ∷ []) items_of none
      ≡ blocks bs)
    × ((b : AgentBlock ℕ) → In b bs → IsOf any_order items_of (agent_one ∷ []) b)
    × ((c : AgentSummary ℕ) (x : DiagnosticItem ℕ)
        → In c (agent_one ∷ [])
        → In x (items_of c.agent_id)
        → Shows any_order items_of bs c x)
diagnostics_page_lem_example = diagnostics_page_lem any_order items_of agent_one []

abbrev two_services : List ServiceInfo
two_services = sshd_unit ∷ ssh_service ∷ []

-- No branch has been clicked on.
abbrev none_clicked : Str → Option Bool
none_clicked path = none

abbrev tree_split : SplitView
tree_split =
    service_split plain plain any_order (codes "/processes") two_services (sshd ∷ [])
      (some (codes "net.sshd")) (record { search = []; mode = tree_view; expanded = none_clicked })

abbrev list_split : SplitView
list_split =
    service_split plain plain any_order (codes "/processes") two_services (sshd ∷ [])
      (some (codes "net.sshd")) (record { search = []; mode = list_view; expanded = none_clicked })

-- The tree is not deeper than what is open at first.
all_open : AllOpen tree_split.rows
unfolding service_split rows_of tree_row render_tree build_tree insert_service insert_parts
    update_child child_rows concat sort_by filtered_services trim service_rows service_domain_path
    split_on same
all_open p o n (here e) = cc
all_open p o n (there (here e)) = cc
all_open p o n (there (there (here e))) = cc
all_open p o n (there (there (there (here e)))) = cc
all_open p o n (there (there (there (there m)))) = elim m [ ]

modes_agree_example :
    (list_split.rows
      ≡ list_rows (
          service_list
            (filtered_services plain two_services [])
            (selected_service (filtered_services plain two_services []) (some (codes "net.sshd")))))
    × Perm (marks_of tree_split.rows) (
        service_list
          (keep has_path (filtered_services plain two_services []))
          (selected_service (filtered_services plain two_services []) (some (codes "net.sshd"))))
    × (tree_split.detail ≡ list_split.detail)
modes_agree_example =
    modes_agree plain plain any_order (codes "/processes") two_services (sshd ∷ [])
      (some (codes "net.sshd")) [] none_clicked all_open
