-- ===== src/Examples/Selecting.antt =====
-- The selection of the pages, and the links between them, on examples.
use instace_metric_collector.Common.{
  trim, none, ℕ, Str, codes, same, split_on, includes, Option, some, [], ◌∷◌, ◌++◌, In, here, false,
  ◌≡◌, refl, ap, inl,
}
use instace_metric_collector.Common.Text.Digits.{read_digits, read_digits-show_nat}
use instace_metric_collector.Common.Sort.{sort_by}
use instace_metric_collector.Common.Floats.{nat_floats}
use instace_metric_collector.Api.Types.{ServiceInfo}
use instace_metric_collector.Domain.ServiceLink.{
  Scored, find_services_for_process, score_service_process, score_tokens, strip_ending,
  service_tokens, process_tokens,
}
use instace_metric_collector.Components.ServiceView.{page}
use instace_metric_collector.Components.DetailPanels.{
  RelatedLink, service_link, service_query, process_detail, default_service_prefix, ProcessDetail,
  service_detail, default_process_prefix,
}
use instace_metric_collector.Components.ProcessView.{
  filtered_processes, process_matches, process_le, key_le, selected_process,
}
use instace_metric_collector.Components.ProcessSplit.{
  TableView, start_table, process_split, panel_of,
}
use instace_metric_collector.Components.ServiceSplit.{start_split}
use instace_metric_collector.Navigation.Routing.{Route, routes, services_page}
use instace_metric_collector.Routes.ProcessesPage.{processes_content}
use instace_metric_collector.Routes.ServicesPage.{services_content}
use instace_metric_collector.Routes.Related.{related_service_opens, related_links_leave_agent}
use instace_metric_collector.Examples.Panels.{any_order}
use instace_metric_collector.Navigation.{is_hub_agent_context}
use instace_metric_collector.Routes.Query.Pairs.{pairs, pairs-IsQuery}
use instace_metric_collector.Routes.Workbench.{selected_name}
use instace_metric_collector.Routes.Workbench.Selecting.{ReadsNumbers}
use instace_metric_collector.Examples.Data.{plain, sshd, sshd_unit, snap_a, snap_b}

abbrev pub number_of : Str → Option ℕ
number_of s = some (read_digits 0 s)

pub reads : ReadsNumbers number_of
reads n = ap some (read_digits-show_nat n)

abbrev found : Scored ServiceInfo
found = record { item = sshd_unit; score = 100; likely = false }

abbrev shown_link : RelatedLink
shown_link = service_link plain default_service_prefix found

shown_link_In :
    In shown_link
      (process_detail plain plain plain default_service_prefix sshd (sshd_unit ∷ [])).related
unfolding process_detail service_link find_services_for_process sort_by score_service_process
    score_tokens service_tokens strip_ending split_on same process_tokens includes
shown_link_In = here refl

-- The page of the processes with the first process selected.
abbrev its_panel : ProcessDetail
its_panel = process_detail plain plain plain default_service_prefix sshd (sshd_unit ∷ [])

abbrev chosen_table : TableView
chosen_table = processes_content plain plain plain any_order page (some sshd.pid) start_table snap_a

panel_there : chosen_table.detail ≡ some its_panel
unfolding processes_content process_split filtered_processes sort_by process_matches process_le
    key_le selected_process trim panel_of
panel_there = refl

related_service_opens_example :
    (s : ServiceInfo) × In s snap_a.payload.service_infos
    × ((r : Route) × In r routes
        × (r.element ≡ services_page)
        × (shown_link.to ≡ r.path ++ codes "?" ++ service_query plain s.service_name))
    × ((x : ServiceInfo)
        → In x snap_b.payload.service_infos
        → x.service_name ≡ s.service_name
        → (other : ServiceInfo) × In other snap_b.payload.service_infos
          × (other.service_name ≡ s.service_name)
          × ((services_content plain plain any_order
                (selected_name pairs (pairs.parse (service_query plain s.service_name)))
                (start_split page)
                snap_b).detail
              ≡ some (
                  service_detail plain plain default_process_prefix other
                    snap_b.payload.process_infos)))
related_service_opens_example =
    related_service_opens pairs pairs-IsQuery plain plain any_order page page snap_a snap_b
      (some sshd.pid) start_table its_panel shown_link refl panel_there shown_link_In

related_links_leave_agent_example : is_hub_agent_context shown_link.to ≡ false
related_links_leave_agent_example =
    related_links_leave_agent plain plain plain any_order page snap_a (some sshd.pid) start_table
      none (start_split page) shown_link (inl (its_panel, panel_there, shown_link_In))
