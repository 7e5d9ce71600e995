-- ===== src/Routes/Hub.antt =====
-- go/web/frontend/src/routes/hub/HubPage.tsx. A key with a count is a constructor of `Ago`, `encode` is
-- `encodeURIComponent`, and the instants of `relativeTime` are those of valid dates, in milliseconds.
pub mod Cards
use instace_metric_collector.Common.{
  ℕ, ◌-◌, ◌/◌, ltb, Str, String, codes, is_empty, includes, trim, same, Bool, true, false, ◌&&◌,
  ◌||◌, List, map, keep, ◌++◌, if◌then◌else◌,
}
use instace_metric_collector.Common.Floats.{Floats}
use instace_metric_collector.Api.Types.{AgentSummary}
use instace_metric_collector.Domain.AgentStatus.{
  Tone, AgentListFilter, matches_agent_filter, agent_status_label, agent_status_tone,
  is_agent_offline, is_status,
}
use instace_metric_collector.Domain.Format.{format_bytes, format_percent}
use instace_metric_collector.Domain.HistorySeries.{ratio_percent}
use instace_metric_collector.Components.Bars.{hub_bar_tone, bar_width}

-- What `relativeTime` prints: a number of seconds, minutes or hours.
pub data Ago : Type 0 where
  seconds_ago minutes_ago hours_ago : ℕ → Ago

-- `Math.max(0, Math.floor((now - at) / 1000))`: an instant in the future is 0 seconds ago.
unfoldable pub relative_time : (now at : ℕ) → Ago
relative_time now at =
    let sec = (now - at) / 1000 in
    if ltb sec 60
    then seconds_ago sec
    else if ltb (sec / 60) 60
    then minutes_ago (sec / 60)
    else hours_ago (sec / 60 / 60)

module _ {F : Type 0} where
  unfoldable pub agent_matches : (Str → Str) → Str → AgentListFilter → AgentSummary F → Bool
  agent_matches lower q filter a =
      matches_agent_filter a.status filter
      && (is_empty q || (includes (lower a.hostname) q || includes (lower a.agent_id) q))

  -- The memo `filtered`.
  unfoldable pub filtered_agents :
      (Str → Str) → List (AgentSummary F) → Str → AgentListFilter → List (AgentSummary F)
  filtered_agents lower agents search filter =
      keep (agent_matches lower (lower (trim search)) filter) agents

-- The card of an agent.
pub record AgentCard (F : Type 0) : Type 0 where
  pub to : Str
  pub is_dimmed : Bool
  pub hostname : Str
  pub label : Str
  pub tone : Tone
  pub is_pulsing : Bool
  pub last_seen : Ago
  pub cpu : Str
  pub cpu_bar : String × F
  pub memory : Str
  pub memory_bar : String × F
  pub memory_bytes : Str
  pub containers : ℕ

module _ {F : Type 0} ⦃fl : Floats F⦄ (encode t : Str → Str) (date_ms : Str → ℕ) where
  unfoldable pub agent_card : ℕ → AgentSummary F → AgentCard F
  agent_card now a =
      let mem_pct : F = ratio_percent a.used_memory a.total_memory in
      record {
        to = codes "/hub/agents/" ++ encode a.agent_id;
        is_dimmed = is_agent_offline a.status;
        hostname = a.hostname;
        label = agent_status_label a.status t;
        tone = agent_status_tone a.status;
        is_pulsing = is_status a.status "live";
        last_seen = relative_time now (date_ms a.last_seen);
        cpu = format_percent a.cpu_load;
        cpu_bar = (hub_bar_tone a.cpu_load, bar_width a.cpu_load);
        memory = format_percent mem_pct;
        memory_bar = (hub_bar_tone mem_pct, bar_width mem_pct);
        memory_bytes = format_bytes a.used_memory ++ codes " / " ++ format_bytes a.total_memory;
        containers = a.container_count;
      }
