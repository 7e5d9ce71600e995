-- ===== src/Routes/Workbench/Selecting.antt =====
-- The selection of a page, by a click in its table and by a link from another page.
use instace_metric_collector.Common.{
  ℕ, Str, codes, same, same→eq, same_refl, Bool-clash, starts_with, trim, show_nat, false, Option,
  some, List, [], ◌++◌, In, In_All, In-map, find-cases, ◌≡◌, refl, ap, inl, inr,
}
use instace_metric_collector.Common.Text.Digits.{show_nat_not_empty}
use instace_metric_collector.Common.Floats.{Floats}
use instace_metric_collector.Api.Types.{ProcessInfo, ServiceInfo}
use instace_metric_collector.Domain.ServiceLink.{
  find_services_for_process, find_processes_for_service, service_limit, process_limit,
  default_min_score,
}
use instace_metric_collector.Domain.ServiceLink.Ranking.{find_services_sound}
use instace_metric_collector.Components.ServiceView.{selected_service, filtered_services}
use instace_metric_collector.Components.DetailPanels.{
  RelatedLink, service_link, process_link, service_query, process_detail, service_detail,
  default_service_prefix, default_process_prefix,
}
use instace_metric_collector.Navigation.{is_hub_agent_context}
use instace_metric_collector.Routes.Query.{Query, IsKey, IsQuery}
use instace_metric_collector.Routes.Workbench.{
  pid_of, selected_pid, on_select_pid, selected_name, on_select_service, pid_key, service_key,
}

-- `Number` reads a natural number that was printed.
abbrev pub ReadsNumbers : (Str → Option ℕ) → Type 0
ReadsNumbers number = (n : ℕ) → number (show_nat n) ≡ some n

module _ (q : Query) {encode : Str → Str} (law : IsQuery q encode) where
  -- After a click on a process the page has its pid selected, and after a click on a service its
  -- name, whatever was selected before, and neither click touches the other page's selection.
  pub selection_read_back :
      (number : Str → Option ℕ)
      → ReadsNumbers number
      → (params : q.Params) (pid : ℕ) (name : Str)
      → (selected_pid q number (on_select_pid q params pid) ≡ some pid)
        × (selected_name q (on_select_service q params name) ≡ some name)
        × (selected_name q (on_select_pid q params pid) ≡ selected_name q params)
        × (selected_pid q number (on_select_service q params name) ≡ selected_pid q number params)
  unfolding selected_pid on_select_pid selected_name on_select_service pid_of same
  selection_read_back number reads params pid name = (
    rw (law.get-set params pid_key (show_nat pid) pid_key, show_nat_not_empty pid) (reads pid),
    law.get-set params service_key name service_key,
    law.get-set params pid_key (show_nat pid) service_key,
    rw (law.get-set params service_key name pid_key) refl,
  )

pub find_named :
    (services : List ServiceInfo) (s : ServiceInfo)
    → In s services
    → (found : ServiceInfo) × (selected_service services (some s.service_name) ≡ some found)
      × (found.service_name ≡ s.service_name)
      × In found services
unfolding selected_service
find_named services s m = elim (find-cases (λ x. same x.service_name s.service_name) services) [
  | inl (e, h) ↦ absurd (
      Bool-clash (same_refl s.service_name)
        (In_All (λ x. same x.service_name s.service_name ≡ false) services h m))
  | inr (found, e, k, h) ↦ (found, e, same→eq found.service_name s.service_name h, k)
]

pub service_key-IsKey : IsKey service_key
service_key-IsKey = (refl, (refl, (refl, (refl, (refl, (refl, (refl, tt)))))))

module _ (q : Query) {encode : Str → Str} (law : IsQuery q encode) {F : Type 0}
    ⦃fl : Floats F⦄ where
  -- Each related service in the panel of a process is a link for one of the given services; the
  -- page of the services that follows it, its search being empty, has a service of that name
  -- selected. It is supposed that the lower case of an empty text is empty.
  pub related_service_named :
      (lower t : Str → Str) (prefix : Str) (p : ProcessInfo F) (services : List ServiceInfo)
      → lower [] ≡ []
      → (l : RelatedLink) → In l (process_detail lower encode t prefix p services).related
      → (s : ServiceInfo) × In s services
        × (l.to ≡ prefix ++ codes "?" ++ service_query encode s.service_name)
        × ((found : ServiceInfo) × (selected_service
                (filtered_services lower services [])
                (selected_name q (q.parse (service_query encode s.service_name)))
              ≡ some found)
            × (found.service_name ≡ s.service_name))
  unfolding process_detail service_link selected_name filtered_services trim
  related_service_named lower t prefix p services blank l m =
      let (r, k, e) =
        In-map (service_link encode prefix)
          (find_services_for_process lower p services service_limit default_min_score) m in
      let (i, _, _, _) =
        (find_services_sound lower p services service_limit default_min_score).1 r k in
      let (found, f, n, _) = find_named services r.item i in
      (
        r.item,
        i,
        ap (λ x. x.to) e,
        (found, rw (blank, law.get-parse service_key r.item.service_name service_key-IsKey) f, n),
      )

module _ {F : Type 0} ⦃fl : Floats F⦄ (lower encode t : Str → Str) where
  -- With the default prefix no link to a related service stays under an agent of the hub.
  pub process_links_leave :
      (p : ProcessInfo F) (services : List ServiceInfo) (l : RelatedLink)
      → In l (process_detail lower encode t default_service_prefix p services).related
      → is_hub_agent_context l.to ≡ false
  unfolding process_detail service_link is_hub_agent_context starts_with
  process_links_leave p services l m =
      let (r, k, e) =
        In-map (service_link encode default_service_prefix)
          (find_services_for_process lower p services service_limit default_min_score) m in
      ap (λ x. starts_with x.to (codes "/hub/agents/")) e

module _ {F : Type 0} ⦃fl : Floats F⦄ (lower t : Str → Str) where
  -- With the default prefix no link to a related process stays under an agent of the hub.
  pub service_links_leave :
      (s : ServiceInfo) (processes : List (ProcessInfo F)) (l : RelatedLink)
      → In l (service_detail lower t default_process_prefix s processes).related
      → is_hub_agent_context l.to ≡ false
  unfolding service_detail process_link is_hub_agent_context starts_with
  service_links_leave s processes l m =
      let (r, k, e) =
        In-map (process_link default_process_prefix)
          (find_processes_for_service lower s processes process_limit default_min_score) m in
      ap (λ x. starts_with x.to (codes "/hub/agents/")) e
