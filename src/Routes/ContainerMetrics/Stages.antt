-- ===== src/Routes/ContainerMetrics/Stages.antt =====
-- The stages of the page of a container's metrics, its tabs and its links.
use instace_metric_collector.Common.{
  ℕ, Str, same, same→eq, same_refl, same_comm, is_empty, starts_with, length, ◌==◌, Bool, true,
  false, ◌||◌, List, [], ◌∷◌, find-cases, In, In_All, All, Option, none, some, or_else, ◌≡◌, refl,
  sym, ap, ◌∙◌, Bool-cases, Bool-clash, inl, inr, arith,
}
use instace_metric_collector.Common.Floats.{Floats}
use instace_metric_collector.Api.Types.{ContainerInfo}
use instace_metric_collector.Api.Polling.{ContainerState}
use instace_metric_collector.Domain.Format.{is_agent_container}
use instace_metric_collector.Components.Tabs.{marker, marker_index, find_index}
use instace_metric_collector.Routes.ContainerPanel.{
  OwnMetrics, own_metrics, container_panel, OverviewView, overview_tab, overview_body,
}
use instace_metric_collector.Routes.ContainerPanel.Hub.{hub_panel}
use instace_metric_collector.Routes.Query.{Query, IsQuery}
use instace_metric_collector.Routes.ContainerMetrics.{
  id_key, tab_key, overview_name, processes_name, services_name, page_id, page_tab, set_tab,
  id_fits, host_container, tab_list, tab_parts, tab_parts_of, MetricsView, not_found, not_agent,
  hub_unavailable, metrics_view, view_of, found_page, metrics_page,
}

-- A text that starts with one of its own length is that text.
starts_same : (s t : Str) → length s ≡ length t → starts_with s t ≡ true → same s t ≡ true
unfolding starts_with same
starts_same [] [] l h = refl
starts_same [] (c ∷ t) l h = h
starts_same (c ∷ s) [] l h = absurd (omega arith)
starts_same (c ∷ s) (d ∷ t) l h =
    let e : (c == d) ≡ true = ground arith in
    let r : same s t ≡ true = starts_same s t (omega arith) (ground arith) in ground (arith, e, r)

-- Ids of one length fit only if they are the same.
id_fits_exact :
    (id : Str) (c : ContainerInfo) → length c.id ≡ length id → id_fits id c ≡ true → c.id ≡ id
unfolding same starts_with
id_fits_exact id c l h = elim (Bool-cases (starts_with c.id id)) [
  | inl e ↦ same→eq c.id id (starts_same c.id id l e)
  | inr e ↦ elim (Bool-cases (starts_with id c.id)) [
    | inl e' ↦ sym (same→eq id c.id (starts_same id c.id (sym l) e'))
    | inr e' ↦ same→eq c.id id (ground arith)
  ]
]

-- Among containers whose ids are as long as the one asked for, one of that id is found.
host_container_exact :
    (containers : List ContainerInfo) (x : ContainerInfo)
    → All (λ c. length c.id ≡ length x.id) containers
    → In x containers
    → (c : ContainerInfo) × (host_container containers x.id ≡ some c)
      × In c containers
      × (c.id ≡ x.id)
unfolding host_container
host_container_exact containers x long m = elim (find-cases (id_fits x.id) containers) [
  | inl (e, h) ↦
      let k : same x.id x.id || (starts_with x.id x.id || starts_with x.id x.id) ≡ false =
        In_All (λ c. id_fits x.id c ≡ false) containers h m in
      absurd (
        Bool-clash
          (ap (λ b. b || (starts_with x.id x.id || starts_with x.id x.id)) (same_refl x.id)) k)
  | inr (c, e, k, h) ↦
      (c, e, k, id_fits_exact x.id c (In_All (λ c. length c.id ≡ length x.id) containers long k) h)
]

module _ {F : Type 0} (lower : Str → Str) (date_ms : Str → Option ℕ) where
  -- Where the ids of the containers are of one length, as those of docker are, the page of one of
  -- them finds a container of that id, and: it refuses one that is no agent, and an agent under the
  -- hub; for an agent elsewhere it shows that container, with what stands under the tabs.
  pub metrics_page_lem :
      (containers : List ContainerInfo) (x : ContainerInfo) (tab : Str) (own : ContainerState F)
      → All (λ c. length c.id ≡ length x.id) containers
      → In x containers
      → is_empty x.id ≡ false
      → (c : ContainerInfo) × In c containers
        × (c.id ≡ x.id)
        × (is_agent_container lower c ≡ false
            → (in_hub : Bool)
            → metrics_page lower date_ms containers in_hub x.id tab own ≡ not_agent)
        × (is_agent_container lower c ≡ true
            → (metrics_page lower date_ms containers true x.id tab own ≡ hub_unavailable)
              × ((v : MetricsView F) × (metrics_page lower date_ms containers false x.id tab own
                    ≡ metrics_view v)
                  × (v.container ≡ c)
                  × (v.parts ≡ tab_parts date_ms tab own)))
  unfolding metrics_page found_page view_of
  metrics_page_lem containers x tab own long m n =
      let (c, e, k, i) = host_container_exact containers x long m in
      (
        c,
        k,
        i,
        (λ a in_hub. rw (n, e, a) refl),
        (λ a. (
          rw (n, e, a) refl,
          (view_of lower date_ms containers tab own c, rw (n, e, a) refl, refl, refl),
        )),
      )

  -- Without a container that fits the page says that none is found, for any id but the empty one.
  pub metrics_page_not_found :
      (containers : List ContainerInfo) (in_hub : Bool) (id tab : Str) (own : ContainerState F)
      → is_empty id ≡ false
      → All (λ c. id_fits id c ≡ false) containers
      → metrics_page lower date_ms containers in_hub id tab own ≡ not_found
  unfolding metrics_page found_page host_container
  metrics_page_not_found containers in_hub id tab own n h =
      elim (find-cases (id_fits id) containers) [
        | inl (e, _) ↦ rw (n, e) refl
        | inr (c, e, k, f) ↦
            absurd (Bool-clash f (In_All (λ c. id_fits id c ≡ false) containers h k))
      ]

  -- For a text of the URL that names no tab, with the container's own metrics there, nothing stands
  -- under the tabs, while the marker stands behind the first of them.
  pub unknown_tab_blank :
      (t : Str → Str) (tab : Str) (own : ContainerState F) (m : OwnMetrics F)
      → own_metrics date_ms own ≡ some m
      → same overview_name tab ≡ false
      → same processes_name tab ≡ false
      → same services_name tab ≡ false
      → (tab_parts date_ms tab own ≡ []) × ((marker tab (tab_list t)).index ≡ 0)
  unfolding tab_parts tab_parts_of tab_list marker marker_index find_index
  unknown_tab_blank t tab own m e o p s = (
    rw (e, off overview_name o, off processes_name p, off services_name s) refl,
    rw (o, p, s) refl,
  )
    where
      off : (name : Str) → same name tab ≡ false → same tab name ≡ false
      off name h = same_comm tab name ∙ h

  -- Under the hub, where an agent's container is listed, with an id that is not empty and of the
  -- length of the others' ids, and the only container of that id: the panel's head has no link to
  -- its metrics, the overview has one, and the page of that id is the notice that the hub has none.
  pub overview_link_dead :
      ⦃fl : Floats F⦄ (t : Str → Str) (containers : List ContainerInfo) (path tab : Str)
      (own own_there : ContainerState F) (c : ContainerInfo)
      → All (λ d. length d.id ≡ length c.id) containers
      → In c containers
      → ((d : ContainerInfo) → In d containers → d.id ≡ c.id → d ≡ c)
      → is_empty c.id ≡ false
      → is_agent_container lower c ≡ true
      → ((container_panel lower t date_ms containers true path own overview_tab c).header_link
          ≡ none)
        × ((o : OverviewView F) × ((container_panel lower t date_ms containers true path own
                overview_tab c).body
              ≡ overview_body o)
            × (o.dashboard_link ≡ some path))
        × (metrics_page lower date_ms containers true c.id tab own_there ≡ hub_unavailable)
  overview_link_dead t containers path tab own own_there c long m one n a =
      let (_, head, body) = hub_panel lower t date_ms containers path own c a in
      let (d, k, i, _, page) = metrics_page_lem containers c tab own_there long m n in
      (head, body, (page (ap (is_agent_container lower) (one d k i) ∙ a)).0)

-- A change of the tab keeps the container, and the tab is then the one chosen.
pub set_tab_read_back :
    (q : Query) {encode : Str → Str}
    → IsQuery q encode
    → (params : q.Params) (next : Str) → is_empty next ≡ false
    → (page_tab q (set_tab q params next) ≡ next)
      × (page_id q (set_tab q params next) ≡ page_id q params)
unfolding page_tab page_id set_tab same
set_tab_read_back q law params next n = (
  rw (law.get-set params tab_key next tab_key) (rw n refl),
  ap (λ v. or_else v []) (law.get-set params tab_key next id_key),
)
