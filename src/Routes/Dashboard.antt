-- ===== src/Routes/Dashboard.antt =====
-- go/web/frontend/src/routes/dashboard/DashboardPage.tsx in the live mode. `t` translates a key,
-- and `cores` is the translation of `cpu.coresActive` for a number of processors.
pub mod Agreement
use instace_metric_collector.Common.{
  ℕ, leb, Str, String, codes, same, is_empty, show_nat, Bool, true, false, List, [], ◌∷◌, ◌++◌, map,
  take, keep, length, Option, none, some, ◌==◌, if◌then◌else◌,
}
use instace_metric_collector.Common.Floats.{Floats}
use instace_metric_collector.Api.Types.{
  ContainerInfo, DiskUsageInfo, NetworkUsageInfo, MetricsPayload, MetricsSnapshot,
}
use instace_metric_collector.Domain.AgentStatus.{Tone, success, neutral}
use instace_metric_collector.Domain.Format.{format_bytes, format_percent, is_agent_container}
use instace_metric_collector.Domain.HistorySeries.{ratio_percent}
use instace_metric_collector.Components.Bars.{CardView, metric_card, bar_fill_class, bar_width}
use instace_metric_collector.Routes.Layout.{ViewMode, live_view, history_view}

pub record DiskRow (F : Type 0) : Type 0 where
  pub mount : Str
  pub filesystem : Str
  pub bar : String × F
  pub used : Str
  pub total : Str

pub record NetworkRow : Type 0 where
  pub name : Str
  pub received : Str
  pub sent : Str

pub record ContainerTile : Type 0 where
  pub to : Str
  pub name : Str
  pub is_agent : Bool
  pub label : Str
  pub tone : Tone

unfoldable pub is_healthy : ContainerInfo → Bool
is_healthy c = same c.health (codes "healthy")

module _ {F : Type 0} ⦃fl : Floats F⦄ (t : Str → Str) where
  unfoldable pub load_percent : MetricsPayload F → F
  load_percent p =
      if leb p.available_processors 0
      then fl.of_nat 0
      else fl.mul (fl.div p.system_load_average (fl.of_nat p.available_processors)) (fl.of_nat 100)

  unfoldable pub dashboard_cards : (ℕ → Str) → MetricsPayload F → List (CardView F)
  dashboard_cards cores p =
      let mem : F = ratio_percent p.used_memory p.total_memory in
      let healthy = length (keep is_healthy p.containers) in
      metric_card (t (codes "card.cpu")) (format_percent p.cpu_load) (some p.cpu_load) none
      ∷ metric_card (t (codes "card.memory")) (format_percent mem) (some mem)
          (some (format_bytes p.used_memory ++ codes " / " ++ format_bytes p.total_memory))
      ∷ metric_card (t (codes "card.containers")) (show_nat (length p.containers))
          (some (ratio_percent healthy (length p.containers)))
          (some (show_nat healthy ++ codes " " ++ t (codes "card.healthy")))
      ∷ metric_card (t (codes "card.load")) (fl.to_fixed p.system_load_average 2)
          (some (load_percent p)) (some (cores p.available_processors))
      ∷ []

module _ {F : Type 0} ⦃fl : Floats F⦄ where
  unfoldable pub disk_row : DiskUsageInfo F → DiskRow F
  disk_row d = record {
    mount = d.mount;
    filesystem = d.filesystem;
    bar = (bar_fill_class d.use_percent, bar_width d.use_percent);
    used = format_percent d.use_percent;
    total = format_bytes d.total_bytes;
  }

unfoldable pub network_row : NetworkUsageInfo → NetworkRow
network_row n = record {
  name = n.name;
  received = format_bytes n.bytes_received;
  sent = format_bytes n.bytes_sent;
}

unfoldable pub container_tile : (lower encode : Str → Str) → Str → ContainerInfo → ContainerTile
container_tile lower encode href c = record {
  to = href ++ codes "?id=" ++ encode c.id;
  name = c.name;
  is_agent = is_agent_container lower c;
  label = if is_empty c.health then c.status else c.health;
  tone = if is_healthy c then success else neutral;
}

-- What the page is: the history, a notice that it waits, or the live page.
pub data DashboardView (F : Type 0) : Type 0 where
  shows_history waiting : DashboardView F
  live_page :
      List (CardView F) → List (DiskRow F) → List NetworkRow → List ContainerTile → DashboardView F

module _ {F : Type 0} ⦃fl : Floats F⦄ (t : Str → Str) (cores : ℕ → Str)
    (lower encode : Str → Str) where
  unfoldable pub dashboard : ViewMode → Str → Option (MetricsSnapshot F) → DashboardView F
  dashboard history_view href snapshot = shows_history
  dashboard live_view href none = waiting
  dashboard live_view href (some s) =
      live_page (dashboard_cards t cores s.payload) (map disk_row s.payload.disk_usage)
        (map network_row s.payload.network_usage)
        (map (container_tile lower encode href) (take 6 s.payload.containers))
