-- ===== src/Routes/ContainerPanel.antt =====
-- go/web/frontend/src/routes/containers/ContainersPage.tsx: the panel of a container, its overview
-- and its tabs. `lower` is `toLowerCase`, `t` translates a key.
pub mod Hub
use instace_metric_collector.Common.{
  ℕ, Str, String, codes, same, is_empty, nonempty, includes, trim, show_nat, length, take, keep,
  find, Bool, true, false, not, ◌&&◌, ◌||◌, List, [], ◌∷◌, ◌++◌, map, Option, none, some,
  if◌then◌else◌,
}
use instace_metric_collector.Common.Floats.{Floats}
use instace_metric_collector.Api.Types.{ContainerInfo, MetricsPayload, MetricsSnapshot}
use instace_metric_collector.Api.Polling.{ContainerState}
use instace_metric_collector.Domain.AgentStatus.{Tone, success, warning, neutral}
use instace_metric_collector.Domain.Format.{format_bytes, format_percent, is_agent_container}
use instace_metric_collector.Domain.HistorySeries.{ratio_percent}
use instace_metric_collector.Components.Bars.{CardView, metric_card}
use instace_metric_collector.Routes.Layout.{ViewMode}
use instace_metric_collector.Routes.Workbench.{
  WorkbenchPage, waiting_page, in_workbench, is_history, is_some,
}
use instace_metric_collector.Routes.Containers.{is_running_status}

-- The other containers of the compose project.
unfoldable pub is_peer : ContainerInfo → ContainerInfo → Bool
is_peer c x =
    nonempty x.compose_project && (same x.compose_project c.compose_project && not (same x.id c.id))

unfoldable pub peers : List ContainerInfo → ContainerInfo → List ContainerInfo
peers containers c = keep (is_peer c) containers

abbrev or_dash : Str → Str
or_dash s = if is_empty s then codes "—" else s

-- `ContainerOverview`: its definitions, the cards of an agent's own metrics, the peers, and the link
-- to those metrics.
pub record OverviewView (F : Type 0) : Type 0 where
  pub items : List (Str × Str)
  pub cards : List (CardView F)
  pub peers : List ContainerInfo
  pub dashboard_link : Option Str

module _ {F : Type 0} ⦃fl : Floats F⦄ (lower t : Str → Str) where
  agent_cards : MetricsPayload F → List (CardView F)
  agent_cards m =
      metric_card (t (codes "card.cpu")) (format_percent m.cpu_load) (some m.cpu_load) none
      ∷ metric_card (t (codes "card.memory"))
          (format_percent {F = F} (ratio_percent m.used_memory m.total_memory))
          (some (ratio_percent m.used_memory m.total_memory)) (some (format_bytes m.used_memory))
      ∷ metric_card (t (codes "section.processes")) (show_nat (length m.process_infos)) none none
      ∷ []

  cards_of : Bool → Option (MetricsSnapshot F) → List (CardView F)
  cards_of false snapshot = []
  cards_of true none = []
  cards_of true (some s) = agent_cards s.payload

  unfoldable pub overview :
      List ContainerInfo → Str → Option (MetricsSnapshot F) → ContainerInfo → OverviewView F
  unfolding cards_of agent_cards
  overview containers metrics_path own c = record {
    items =
        (t (codes "container.id"), take 12 c.id ++ codes "…")
        ∷ (t (codes "container.image"), c.image)
        ∷ (t (codes "table.status"), c.status)
        ∷ (t (codes "container.health"), or_dash c.health)
        ∷ (t (codes "table.restarts"), show_nat c.restart_count)
        ∷ (
          t (codes "container.composeProject"),
          or_dash c.compose_project ++ codes " / " ++ or_dash c.compose_service,
        )
        ∷ [];
    cards = cards_of (is_agent_container lower c) own;
    peers = peers containers c;
    dashboard_link = if is_agent_container lower c then some metrics_path else none;
  }

pub data ContainerTab : Type 0 where
  overview_tab processes_tab services_tab : ContainerTab

-- `metricsCtx`, which the pages of the processes and the services find in the panel; the time of
-- the last update is read from the snapshot.
pub record OwnMetrics (F : Type 0) : Type 0 where
  pub snapshot : MetricsSnapshot F
  pub is_live : Bool
  pub last_update : Option ℕ

own_of : {F : Type 0} → (Str → Option ℕ) → Bool → Option (MetricsSnapshot F) → Option (OwnMetrics F)
own_of date_ms unavailable none = none
own_of date_ms unavailable (some s) =
    some (record { snapshot = s; is_live = not unavailable; last_update = date_ms s.collected_at })

unfoldable pub own_metrics :
    {F : Type 0} → (Str → Option ℕ) → ContainerState F → Option (OwnMetrics F)
unfolding own_of
own_metrics date_ms s = own_of date_ms s.unavailable s.snapshot

-- What stands under the tabs.
pub data PanelBody (F : Type 0) : Type 0 where
  overview_body : OverviewView F → PanelBody F
  processes_body services_body : OwnMetrics F → PanelBody F
  no_agent_metrics : PanelBody F

other_body :
    {F : Type 0} → (OwnMetrics F → PanelBody F) → Bool → Option (OwnMetrics F) → PanelBody F
other_body body false own = no_agent_metrics
other_body body true none = no_agent_metrics
other_body body true (some m) = body m

-- `ContainerDetail`.
pub record ContainerPanel (F : Type 0) : Type 0 where
  pub label : Str
  pub tone : Tone
  pub is_pulsing : Bool
  pub name : Str
  pub id : Str
  pub header_link : Option Str
  pub body : PanelBody F

-- The container whose own metrics the panel asks for.
unfoldable pub asked_container : (Str → Str) → Bool → ContainerInfo → Option Str
asked_container lower in_hub c =
    if is_agent_container lower c && not in_hub then some c.id else none

module _ {F : Type 0} ⦃fl : Floats F⦄ (lower t : Str → Str) (date_ms : Str → Option ℕ) where
  panel_body :
      List ContainerInfo → Str → ContainerState F → ContainerInfo → ContainerTab → PanelBody F
  unfolding other_body
  panel_body containers metrics_path own c overview_tab =
      overview_body (overview lower t containers metrics_path own.snapshot c)
  panel_body containers metrics_path own c processes_tab =
      other_body processes_body (is_agent_container lower c) (own_metrics date_ms own)
  panel_body containers metrics_path own c services_tab =
      other_body services_body (is_agent_container lower c) (own_metrics date_ms own)

  unfoldable pub container_panel :
      List ContainerInfo
      → Bool
      → Str
      → ContainerState F
      → ContainerTab
      → ContainerInfo
      → ContainerPanel F
  unfolding panel_body
  container_panel containers in_hub metrics_path own tab c = record {
    label = if is_empty c.health then c.status else c.health;
    tone = if same c.health (codes "healthy") then success else neutral;
    is_pulsing = is_running_status c.status;
    name = c.name;
    id = c.id;
    header_link = if is_agent_container lower c && not in_hub then some metrics_path else none;
    body = panel_body containers metrics_path own c tab;
  }
