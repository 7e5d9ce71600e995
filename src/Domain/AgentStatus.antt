-- ===== src/Domain/AgentStatus.antt =====
-- go/web/frontend/src/lib/agentStatus.ts. A status is a string or `undefined`.
pub mod Laws
use instace_metric_collector.Common.{
  Str, String, codes, same, Option, none, some, Bool, false, true, ◌||◌, if◌then◌else◌,
}

pub data Tone : Type 0 where
  success warning error neutral : Tone

-- `status === literal`.
unfoldable pub is_status : Option Str → String → Bool
is_status none k = false
is_status (some s) k = same s (codes k)

unfoldable pub agent_status_label : Option Str → (Str → Str) → Str
unfolding is_status
agent_status_label status t =
    if is_status status "live"
    then t (codes "hub.status.live")
    else if is_status status "stale"
    then t (codes "hub.status.stale")
    else if is_status status "offline"
    then t (codes "hub.status.offline")
    else t (codes "hub.status.live")

unfoldable pub agent_status_tone : Option Str → Tone
unfolding is_status
agent_status_tone status =
    if is_status status "live"
    then success
    else if is_status status "stale"
    then warning
    else neutral

unfoldable pub is_agent_offline : Option Str → Bool
unfolding is_status
is_agent_offline status = is_status status "offline" || is_status status "stale"

pub data AgentListFilter : Type 0 where
  all live offline : AgentListFilter

unfoldable pub matches_agent_filter : Option Str → AgentListFilter → Bool
unfolding is_status
matches_agent_filter status all = true
matches_agent_filter status live = is_status status "live"
matches_agent_filter status offline = is_status status "stale" || is_status status "offline"
