-- ===== src/Navigation.antt =====
-- Where the pages are: go/web/frontend/src/hooks/useAgentBasePath.ts, and which of them have a
-- history, `isHistoryCapableRoute` of app/AppShell.tsx. `encode` is `encodeURIComponent`.
pub mod Links
pub mod Matching
pub mod Sidebar
pub mod Shell
pub mod Routing
use instace_metric_collector.Common.{
  ℕ, ◌==◌, Str, String, codes, same, is_empty, nonempty, starts_with, split_on, any, Bool, true,
  false, not, ◌&&◌, ◌||◌, List, [], ◌∷◌, ◌++◌, map, Option, none, some, or_else, if◌then◌else◌,
}
use instace_metric_collector.Api.Types.{AppMode, agent, hub, MetaResponse}

abbrev pub is_slash : ℕ → Bool
is_slash c = c == b'/'

abbrev pub is_hub : Option MetaResponse → Bool
is_hub none = false
is_hub (some m) = mode_is_hub m.mode
  where
    mode_is_hub : AppMode → Bool
    mode_is_hub hub = true
    mode_is_hub agent = false

abbrev given : Option Str → Bool
given none = false
given (some id) = nonempty id

-- `agentId ?? match`.
abbrev chosen_id : Option Str → Option Str → Str
chosen_id none matched = or_else matched []
chosen_id (some id) matched = id

unfoldable pub agent_base_path : (Str → Str) → Option MetaResponse → Option Str → Option Str → Str
agent_base_path encode meta agent_id matched_id =
    if is_hub meta && (given agent_id || given matched_id)
    then codes "/hub/agents/" ++ encode (chosen_id agent_id matched_id)
    else []

-- `new URLSearchParams(query).toString()` is the argument `query`, `none` without a query.
unfoldable pub agent_href : Str → Option Str → Option Str → Str
agent_href base segment query = with_query (path_of segment) query
  where
    join_base : Str → Str
    join_base s = if is_empty base then codes "/" ++ s else base ++ codes "/" ++ s

    path_of : Option Str → Str
    path_of none = if is_empty base then codes "/" else base
    path_of (some []) = if is_empty base then codes "/" else base
    path_of (some (c ∷ s)) = join_base (c ∷ s)

    with_query : Str → Option Str → Str
    with_query path none = path
    with_query path (some q) = path ++ codes "?" ++ q

unfoldable pub is_hub_agent_context : Str → Bool
is_hub_agent_context base = starts_with base (codes "/hub/agents/")

abbrev pub history_views : List Str
history_views =
    codes "processes" ∷ codes "services" ∷ codes "containers" ∷ codes "container-metrics" ∷ []

unfoldable pub is_history_view : Str → Bool
is_history_view s = any (same s) history_views

-- `/^\/(…)(\/|$)/`: the first part, up to a slash or the end, is a view.
first_part : List Str → Bool
first_part (before ∷ part ∷ rest) = is_empty before && is_history_view part
first_part _ = false

-- `[^/]+(\/(…))?$`, on the pieces between the slashes.
agent_part : List Str → Bool
agent_part (id ∷ []) = nonempty id
agent_part (id ∷ view ∷ []) = nonempty id && is_history_view view
agent_part _ = false

-- What follows the prefix, if the text has it.
unfoldable pub strip_prefix : Str → Str → Option Str
strip_prefix [] s = some s
strip_prefix (c ∷ p) [] = none
strip_prefix (c ∷ p) (d ∷ s) = let rest = strip_prefix p s in if c == d then rest else none

abbrev agent_rest : Option Str → Bool
agent_rest none = false
agent_rest (some rest) = agent_part (split_on is_slash rest)

unfoldable pub is_history_capable_route : Str → Bool
unfolding first_part agent_part is_history_view
is_history_capable_route pathname =
    same pathname (codes "/")
    || (first_part (split_on is_slash pathname)
        || agent_rest (strip_prefix (codes "/hub/agents/") pathname))
