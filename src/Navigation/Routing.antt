-- ===== src/Navigation/Routing.antt =====
-- The route table, go/web/frontend/src/app/router.tsx. How a path is matched with the table is the router's.
use instace_metric_collector.Common.{Str, codes, is_empty, List, [], ◌∷◌, ◌++◌, if◌then◌else◌}

-- The element of a route.
pub data Screen : Type 0 where
  dashboard_page processes_page services_page containers_page container_metrics_page : Screen
  hub_page agent_dashboard diagnostics_page alerts_page : Screen
  navigate : (to : Str) → Screen

pub record Route : Type 0 where
  pub path : Str
  pub element : Screen

-- The routes with a path of their own; every other path leads to `/`.
abbrev pub routes : List Route
routes =
    record { path = codes "/"; element = dashboard_page }
    ∷ record { path = codes "/processes"; element = processes_page }
    ∷ record { path = codes "/services"; element = services_page }
    ∷ record { path = codes "/containers"; element = containers_page }
    ∷ record { path = codes "/container-metrics"; element = container_metrics_page }
    ∷ record { path = codes "/hub"; element = hub_page }
    ∷ record { path = codes "/diagnostics"; element = navigate (codes "/hub") }
    ∷ record { path = codes "/alerts"; element = navigate (codes "/hub") }
    ∷ []

-- The routes below `/hub/agents/:agentId`; the index has the empty path.
abbrev pub agent_routes : List Route
agent_routes =
    record { path = []; element = agent_dashboard }
    ∷ record { path = codes "processes"; element = processes_page }
    ∷ record { path = codes "services"; element = services_page }
    ∷ record { path = codes "containers"; element = containers_page }
    ∷ record { path = codes "container-metrics"; element = container_metrics_page }
    ∷ record { path = codes "diagnostics"; element = diagnostics_page }
    ∷ record { path = codes "alerts"; element = alerts_page }
    ∷ []

-- The path of a child route under a base.
unfoldable pub child_path : Str → Str → Str
child_path base path = if is_empty path then base else base ++ codes "/" ++ path
