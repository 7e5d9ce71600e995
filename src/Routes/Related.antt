-- ===== src/Routes/Related.antt =====
-- Where the related links lead that the pages of the processes and of the services show, with the
-- prefixes that go/web/frontend/src/routes/processes/ProcessesPage.tsx and
-- routes/services/ServicesPage.tsx leave at their defaults.
use instace_metric_collector.Common.{
  ℕ, Str, Bool, codes, trim, false, [], ◌++◌, List, In, here, there, Option, none, some, ◌≡◌, ◌⊎◌,
  refl, ◌∙◌, inl, inr,
}
use instace_metric_collector.Common.Floats.{Floats}
use instace_metric_collector.Api.Types.{ProcessInfo, ServiceInfo, MetricsSnapshot}
use instace_metric_collector.Components.ServiceView.{SplitSurface, filtered_services}
use instace_metric_collector.Components.DetailPanels.{
  RelatedLink, ProcessDetail, ServiceDetail, service_query, process_detail, service_detail,
  default_service_prefix, default_process_prefix,
}
use instace_metric_collector.Components.ProcessSplit.{TableState, process_split, panel_of}
use instace_metric_collector.Components.ServiceSplit.{
  SplitState, start_split, service_split, detail_of,
}
use instace_metric_collector.Navigation.{is_hub_agent_context}
use instace_metric_collector.Navigation.Routing.{Route, routes, services_page}
use instace_metric_collector.Routes.Query.{Query, IsQuery}
use instace_metric_collector.Routes.Workbench.{selected_name, service_key}
use instace_metric_collector.Routes.Workbench.Selecting.{
  related_service_named, process_links_leave, service_links_leave, find_named, service_key-IsKey,
}
use instace_metric_collector.Routes.ProcessesPage.{processes_content}
use instace_metric_collector.Routes.ServicesPage.{services_content}

module _ {F : Type 0} ⦃fl : Floats F⦄ (lower encode t : Str → Str)
    (name_le : Str → Str → Bool) where
  panel_process :
      (services : List ServiceInfo) (chosen : Option (ProcessInfo F)) (d : ProcessDetail)
      → panel_of lower encode t name_le default_service_prefix services chosen ≡ some d
      → (p : ProcessInfo F) × (d ≡ process_detail lower encode t default_service_prefix p services)
  unfolding panel_of
  panel_process services none d e = cc
  panel_process services (some p) d e = (p, cc)

  panel_service :
      (processes : List (ProcessInfo F)) (chosen : Option ServiceInfo) (d : ServiceDetail)
      → detail_of lower t name_le default_process_prefix processes chosen ≡ some d
      → (s : ServiceInfo) × (d ≡ service_detail lower t default_process_prefix s processes)
  unfolding detail_of
  panel_service processes none d e = cc
  panel_service processes (some s) d e = (s, cc)

  -- The panel of the page's process is that of the default prefix.
  content_process :
      (surface : SplitSurface) (pid : Option ℕ) (table : TableState) (snap : MetricsSnapshot F)
      (d : ProcessDetail)
      → (processes_content lower encode t name_le surface pid table snap).detail ≡ some d
      → (p : ProcessInfo F) × (d
          ≡ process_detail lower encode t default_service_prefix p snap.payload.service_infos)
  unfolding processes_content process_split
  content_process surface pid table snap d e = panel_process snap.payload.service_infos _ d e

  content_service :
      (name : Option Str) (split : SplitState) (snap : MetricsSnapshot F) (d : ServiceDetail)
      → (services_content lower t name_le name split snap).detail ≡ some d
      → (s : ServiceInfo) × (d
          ≡ service_detail lower t default_process_prefix s snap.payload.process_infos)
  unfolding services_content service_split
  content_service name split snap d e = panel_service snap.payload.process_infos _ d e

  -- No link to a related service in the panel of the processes, and none to a related process in the
  -- panel of the services, leads to a page under an agent of the hub, whatever snapshot, search and
  -- selection the pages have and wherever they stand: under an agent too.
  pub related_links_leave_agent :
      (surface : SplitSurface) (snap : MetricsSnapshot F) (pid : Option ℕ) (table : TableState)
      (name : Option Str) (split : SplitState) (l : RelatedLink)
      → ((d : ProcessDetail) × ((processes_content lower encode t name_le surface pid table
              snap).detail
            ≡ some d)
          × In l d.related)
        ⊎ ((d : ServiceDetail) × ((services_content lower t name_le name split snap).detail
              ≡ some d)
            × In l d.related)
      → is_hub_agent_context l.to ≡ false
  related_links_leave_agent surface snap pid table name split l (inl (d, e, m)) =
      let (p, f) = content_process surface pid table snap d e in
      process_links_leave lower encode t p snap.payload.service_infos l (rw f at m)
  related_links_leave_agent surface snap pid table name split l (inr (d, e, m)) =
      let (s, f) = content_service name split snap d e in
      service_links_leave lower t s snap.payload.process_infos l (rw f at m)

module _ (q : Query) {encode : Str → Str} (law : IsQuery q encode) {F : Type 0} ⦃fl : Floats F⦄
    (lower t : Str → Str) (name_le : Str → Str → Bool) where
  -- Each link to a related service in the panel of the processes is for a service of the page's
  -- snapshot, and leads to the path of the page of the services with a query. If the snapshot of
  -- that page, which need not be the same, has a service of that name, then with this query and a
  -- split view that has just been mounted its panel shows a service of that name. It is supposed
  -- that the lower case of an empty text is empty.
  pub related_service_opens :
      (surface after : SplitSurface) (snap later : MetricsSnapshot F) (pid : Option ℕ)
      (table : TableState) (d : ProcessDetail) (l : RelatedLink)
      → lower [] ≡ []
      → (processes_content lower encode t name_le surface pid table snap).detail ≡ some d
      → In l d.related
      → (s : ServiceInfo) × In s snap.payload.service_infos
        × ((r : Route) × In r routes
            × (r.element ≡ services_page)
            × (l.to ≡ r.path ++ codes "?" ++ service_query encode s.service_name))
        × ((x : ServiceInfo)
            → In x later.payload.service_infos
            → x.service_name ≡ s.service_name
            → (found : ServiceInfo) × In found later.payload.service_infos
              × (found.service_name ≡ s.service_name)
              × ((services_content lower t name_le
                    (selected_name q (q.parse (service_query encode s.service_name)))
                    (start_split after)
                    later).detail
                  ≡ some (
                      service_detail lower t default_process_prefix found
                        later.payload.process_infos)))
  unfolding services_content service_split detail_of start_split filtered_services selected_name
      trim
  related_service_opens surface after snap later pid table d l blank e m =
      let (p, f) = content_process lower encode t name_le surface pid table snap d e in
      let (s, i, k, _) =
        related_service_named q law lower t default_service_prefix p snap.payload.service_infos
          blank l (rw f at m) in
      (
        s,
        i,
        (
          record { path = codes "/services"; element = services_page },
          there (there (here refl)),
          refl,
          k,
        ),
        λ x j n.
            let (found, g, o, u) = find_named later.payload.service_infos x j in
            (
              found,
              u,
              o ∙ n,
              rw (blank, law.get-parse service_key s.service_name service_key-IsKey, ← n, g) refl,
            ),
      )
