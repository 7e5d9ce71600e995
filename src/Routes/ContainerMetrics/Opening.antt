-- ===== src/Routes/ContainerMetrics/Opening.antt =====
-- Where the links between the containers lead.
use mathlib.Core.List.{append_assoc}
use instace_metric_collector.Common.{
  ℕ, Str, codes, same, is_empty, nonempty, length, true, false, List, [], ◌∷◌, ◌++◌, In, All,
  Option, or_else, ◌≡◌, refl, ap, ◌∙◌, if◌then◌else◌,
}
use instace_metric_collector.Api.Types.{ContainerInfo}
use instace_metric_collector.Api.Polling.{ContainerState}
use instace_metric_collector.Domain.Format.{is_agent_container}
use instace_metric_collector.Routes.Query.{Query, IsPrinted, first_value}
use instace_metric_collector.Routes.ContainerMetrics.{
  id_key, tab_key, page_id, page_tab, or_overview, container_metrics_link, tab_parts, MetricsView,
  metrics_view, metrics_page,
}
use instace_metric_collector.Routes.ContainerMetrics.Stages.{metrics_page_lem}

-- The base of the pages, or none.
abbrev pub based : Str → Str → Str
based base path = if nonempty base then base ++ path else path

module _ {F : Type 0} (q : Query) (law : IsPrinted q) (lower : Str → Str)
    (date_ms : Str → Option ℕ) where
  -- Outside the hub, let the ids of the containers be of one length and `x` be the only one of its
  -- id, which is not empty, and an agent's. The link to `x` that the page of another container has
  -- in its tab leads to the page of the metrics with parameters from which the page reads the id of
  -- `x` and the same tab, so it shows `x`, with what stands under that tab.
  pub link_opens_container :
      (containers : List ContainerInfo) (x : ContainerInfo) (base tab : Str)
      (own : ContainerState F)
      → All (λ c. length c.id ≡ length x.id) containers
      → In x containers
      → ((d : ContainerInfo) → In d containers → d.id ≡ x.id → d ≡ x)
      → is_empty x.id ≡ false
      → is_agent_container lower x ≡ true
      → is_empty tab ≡ false
      → (query : Str) × (container_metrics_link q base tab x.id
          ≡ based base (codes "/container-metrics?" ++ query))
        × (page_id q (q.parse query) ≡ x.id)
        × (page_tab q (q.parse query) ≡ tab)
        × ((v : MetricsView F) × (metrics_page lower date_ms containers false
                (page_id q (q.parse query))
                (page_tab q (q.parse query))
                own
              ≡ metrics_view v)
            × (v.container ≡ x)
            × (v.parts ≡ tab_parts date_ms tab own))
  unfolding container_metrics_link page_id page_tab first_value same
  link_opens_container containers x base tab own long m one n agent given =
      let query = q.text (q.make ((id_key, x.id) ∷ (tab_key, tab) ∷ [])) in
      let read_id : page_id q (q.parse query) ≡ x.id =
        ap (λ v. or_else v []) (law.get-text ((id_key, x.id) ∷ (tab_key, tab) ∷ []) id_key) in
      let read_tab : page_tab q (q.parse query) ≡ tab =
        ap (λ v. or_overview (or_else v []))
          (law.get-text ((id_key, x.id) ∷ (tab_key, tab) ∷ []) tab_key)
        ∙ rw given refl in
      let (c, k, i, _, page) = metrics_page_lem lower date_ms containers x tab own long m n in
      let same_one : c ≡ x = one c k i in
      let (_, (v, e, f, g)) = page (ap (is_agent_container lower) same_one ∙ agent) in
      (
        query,
        rw (append_assoc base (codes "/container-metrics?") query) refl,
        read_id,
        read_tab,
        (v, rw (read_id, read_tab) e, f ∙ same_one, g),
      )
