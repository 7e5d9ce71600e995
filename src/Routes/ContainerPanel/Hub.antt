-- ===== src/Routes/ContainerPanel/Hub.antt =====
-- What the panel links to under the hub.
use instace_metric_collector.Common.{ℕ, Str, true, List, Option, none, some, ◌≡◌, refl}
use instace_metric_collector.Common.Floats.{Floats}
use instace_metric_collector.Api.Types.{ContainerInfo}
use instace_metric_collector.Api.Polling.{ContainerState}
use instace_metric_collector.Domain.Format.{is_agent_container}
use instace_metric_collector.Routes.ContainerPanel.{
  asked_container, container_panel, panel_body, overview, OverviewView, overview_body, overview_tab,
}

module _ {F : Type 0} ⦃fl : Floats F⦄ (lower t : Str → Str) (date_ms : Str → Option ℕ) where
  -- Under the hub the panel of an agent's container asks for no metrics and its head has no link to
  -- them, but the overview below has one.
  pub hub_panel :
      (containers : List ContainerInfo) (path : Str) (own : ContainerState F) (c : ContainerInfo)
      → is_agent_container lower c ≡ true
      → (asked_container lower true c ≡ none)
        × ((container_panel lower t date_ms containers true path own overview_tab c).header_link
            ≡ none)
        × ((o : OverviewView F) × ((container_panel lower t date_ms containers true path own
                overview_tab c).body
              ≡ overview_body o)
            × (o.dashboard_link ≡ some path))
  unfolding container_panel panel_body overview asked_container
  hub_panel containers path own c a =
      (rw a refl, rw a refl, (overview lower t containers path own.snapshot c, refl, rw a refl))
