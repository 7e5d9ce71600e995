-- ===== src/Navigation/Matching.antt =====
-- The matching of a path with `/hub/agents/:agentId` and the routes below it, which is the router's:
-- an interface, with what the pages of go/web/frontend/src rely on.
pub mod Shifted
use instace_metric_collector.Common.{Str, codes, nonempty, true, ◌++◌, Avoids, Option, some, ◌≡◌}
use instace_metric_collector.Navigation.{is_slash}

-- `useParams().agentId` of the page at a path.
pub record Router : Type 0 where
  pub agent_id : Str → Option Str

-- The router decodes the parameter: it reads the id back that a link has encoded, at the agent's own
-- path and at a page below it.
pub record IsRouter (r : Router) (encode : Str → Str) : Type 0 where
  pub own :
      (id : Str) → nonempty id ≡ true → r.agent_id (codes "/hub/agents/" ++ encode id) ≡ some id
  pub below :
      (id segment : Str)
      → nonempty id ≡ true
      → Avoids is_slash segment
      → r.agent_id (codes "/hub/agents/" ++ encode id ++ codes "/" ++ segment) ≡ some id
