-- ===== src/Routes/ContainerMetrics.antt =====
-- go/web/frontend/src/routes/container-metrics: ContainerMetricsPage.tsx and ContainerMetricsOverview.tsx.
pub mod Stages
pub mod Opening
pub mod Contents
use instace_metric_collector.Common.{
  ℕ, Str, String, codes, same, is_empty, nonempty, starts_with, show_nat, length, take, keep, find,
  Bool, true, false, not, ◌&&◌, ◌||◌, List, [], ◌∷◌, ◌++◌, map, Option, none, some, if◌then◌else◌,
  or_else,
}
use instace_metric_collector.Common.Floats.{Floats}
use instace_metric_collector.Api.Types.{ContainerInfo, DiskUsageInfo, MetricsPayload}
use instace_metric_collector.Api.Polling.{ContainerState}
use instace_metric_collector.Domain.AgentStatus.{Tone, success, neutral}
use instace_metric_collector.Domain.Format.{format_bytes, format_percent, is_agent_container}
use instace_metric_collector.Domain.HistorySeries.{ratio_percent}
use instace_metric_collector.Components.Bars.{CardView, metric_card}
use instace_metric_collector.Components.Tabs.{Tab}
use instace_metric_collector.Routes.ContainerPanel.{OwnMetrics, own_metrics}
use instace_metric_collector.Routes.Dashboard.{
  is_healthy, NetworkRow, network_row, ContainerTile, container_tile,
}
use instace_metric_collector.Routes.Query.{Query}

abbrev pub id_key : Str
id_key = codes "id"

abbrev pub tab_key : Str
tab_key = codes "tab"

-- The names of the tabs.
abbrev pub overview_name : Str
overview_name = codes "overview"

abbrev pub processes_name : Str
processes_name = codes "processes"

abbrev pub services_name : Str
services_name = codes "services"

abbrev or_overview : Str → Str
or_overview s = if is_empty s then overview_name else s

module _ (q : Query) where
  unfoldable pub page_id : q.Params → Str
  page_id params = or_else (q.get params id_key) []

  -- The tab is any text of the URL.
  unfoldable pub page_tab : q.Params → Str
  page_tab params = or_overview (or_else (q.get params tab_key) [])

  unfoldable pub set_tab : q.Params → Str → q.Params
  set_tab params next = q.set params tab_key next

  -- `containerMetricsLink`.
  unfoldable pub container_metrics_link : Str → Str → Str → Str
  container_metrics_link base tab id =
      let query = q.text (q.make ((id_key, id) ∷ (tab_key, tab) ∷ [])) in
      if nonempty base
      then base ++ codes "/container-metrics?" ++ query
      else codes "/container-metrics?" ++ query

-- The container whose metrics are asked for: the id of the URL, outside the hub.
unfoldable pub asked_id : Bool → Str → Option Str
asked_id in_hub id = if in_hub then none else if is_empty id then none else some id

abbrev pub id_fits : Str → ContainerInfo → Bool
id_fits id c = same c.id id || (starts_with c.id id || starts_with id c.id)

unfoldable pub host_container : List ContainerInfo → Str → Option ContainerInfo
host_container containers id = find (id_fits id) containers

unfoldable pub agent_containers : (Str → Str) → List ContainerInfo → List ContainerInfo
agent_containers lower = keep (is_agent_container lower)

unfoldable pub tab_list : (Str → Str) → List Tab
tab_list t =
    record { id = overview_name; label = t (codes "containers.detail.overview") }
    ∷ record { id = processes_name; label = t (codes "section.processes") }
    ∷ record { id = services_name; label = t (codes "section.services") }
    ∷ []

-- What stands under the tabs: the pages of the three tabs, each if the tab is its own; a notice
-- that the page waits; or nothing.
pub data TabPart (F : Type 0) : Type 0 where
  overview_part processes_part services_part : OwnMetrics F → TabPart F
  waiting_part : TabPart F

abbrev when_tab : {A : Type 0} → Bool → A → List A → List A
when_tab true x rest = x ∷ rest
when_tab false x rest = rest

tab_parts_of : {F : Type 0} → Str → Bool → Option (OwnMetrics F) → List (TabPart F)
tab_parts_of tab unavailable none = if unavailable then [] else waiting_part ∷ []
tab_parts_of tab unavailable (some m) = when_tab (same tab overview_name) (overview_part m) (
    when_tab (same tab processes_name) (processes_part m)
      (when_tab (same tab services_name) (services_part m) []))

unfoldable pub tab_parts :
    {F : Type 0} → (Str → Option ℕ) → Str → ContainerState F → List (TabPart F)
unfolding tab_parts_of
tab_parts date_ms tab own = tab_parts_of tab own.unavailable (own_metrics date_ms own)

-- The page: one of the notices of the early returns, or the metrics of a container.
pub record MetricsView (F : Type 0) : Type 0 where
  pub container : ContainerInfo
  pub label : Str
  pub is_unavailable : Bool
  pub switches : List (ContainerInfo × Bool)
  pub is_workbench : Bool
  pub parts : List (TabPart F)

pub data MetricsPage (F : Type 0) : Type 0 where
  missing_id not_found not_agent hub_unavailable : MetricsPage F
  metrics_view : MetricsView F → MetricsPage F

module _ {F : Type 0} (lower : Str → Str) (date_ms : Str → Option ℕ) where
  view_of : List ContainerInfo → Str → ContainerState F → ContainerInfo → MetricsView F
  view_of containers tab own c = record {
    container = c;
    label = if is_empty c.health then c.status else c.health;
    is_unavailable = own.unavailable;
    switches = map (λ d. (d, same d.id c.id)) (agent_containers lower containers);
    is_workbench = same tab processes_name || same tab services_name;
    parts = tab_parts date_ms tab own;
  }

  found_page :
      List ContainerInfo → Bool → Str → ContainerState F → Option ContainerInfo → MetricsPage F
  unfolding view_of
  found_page containers in_hub tab own none = not_found
  found_page containers in_hub tab own (some c) =
      if not (is_agent_container lower c)
      then not_agent
      else if in_hub
      then hub_unavailable
      else metrics_view (view_of containers tab own c)

  unfoldable pub metrics_page :
      List ContainerInfo → Bool → Str → Str → ContainerState F → MetricsPage F
  unfolding found_page
  metrics_page containers in_hub id tab own =
      if is_empty id
      then missing_id
      else found_page containers in_hub tab own (host_container containers id)

-- `ContainerMetricsOverview`.
pub record OverviewDisk : Type 0 where
  pub mount : Str
  pub filesystem : Str
  pub used : Str
  pub total : Str

pub record MetricsOverview (F : Type 0) : Type 0 where
  pub cards : List (CardView F)
  pub disks : List OverviewDisk
  pub networks : List NetworkRow
  pub tiles : List ContainerTile

unfoldable pub overview_disk : {F : Type 0} ⦃fl : Floats F⦄ → DiskUsageInfo F → OverviewDisk
overview_disk d = record {
  mount = d.mount;
  filesystem = d.filesystem;
  used = format_percent d.use_percent;
  total = format_bytes d.total_bytes;
}

module _ {F : Type 0} ⦃fl : Floats F⦄ (lower encode t : Str → Str) where
  unfoldable pub overview_cards : MetricsPayload F → List (CardView F)
  overview_cards p =
      let mem : F = ratio_percent p.used_memory p.total_memory in
      let healthy = length (keep is_healthy p.containers) in
      metric_card (t (codes "card.cpu")) (format_percent p.cpu_load) (some p.cpu_load) none
      ∷ metric_card (t (codes "card.memory")) (format_percent mem) (some mem)
          (some (format_bytes p.used_memory ++ codes " / " ++ format_bytes p.total_memory))
      ∷ metric_card (t (codes "card.containers")) (show_nat (length p.containers))
          (some (ratio_percent healthy (length p.containers)))
          (some (show_nat healthy ++ codes " " ++ t (codes "card.healthy")))
      ∷ []

  -- The tiles differ from the dashboard's by where they lead.
  unfoldable pub metrics_overview : MetricsPayload F → MetricsOverview F
  metrics_overview p = record {
    cards = overview_cards p;
    disks = map overview_disk p.disk_usage;
    networks = map network_row p.network_usage;
    tiles = map (container_tile lower encode (codes "/container-metrics")) (take 6 p.containers);
  }
