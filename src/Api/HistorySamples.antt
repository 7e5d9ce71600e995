-- ===== src/Api/HistorySamples.antt =====
-- go/web/frontend/src/api/useHistorySamples.ts: the effect, its loads, and the cancelling of a run
-- when the range, the agent or the switch changes. A run is one execution of the effect; its loads
-- carry its number, and its flag `cancelled` is set exactly when a later run has begun.
pub mod Runs
use instace_metric_collector.Common.{
  ℕ, ◌+◌, ◌==◌, Str, String, codes, is_empty, Bool, true, false, ◌&&◌, not, List, [], ◌∷◌, ◌++◌,
  Option, none, some, or_else, show_nat, if◌then◌else◌,
}
use instace_metric_collector.Api.Types.{MetricsSnapshot}
use instace_metric_collector.Api.Client.{Settled, resolved, rejected}
use instace_metric_collector.Domain.HistorySeries.{
  HistoryTimeRange, history_range_bounds, resolution_for_range, sort_samples_asc,
  filter_samples_by_range,
}

-- The dependencies of the effect.
pub record Params : Type 0 where
  pub enabled : Bool
  pub time_range : HistoryTimeRange
  pub is_hub_agent : Bool
  pub agent_id : Option Str

abbrev id_given : Option Str → Bool
id_given none = false
id_given (some id) = not (is_empty id)

-- `isHubAgent && agentId`: whether the hub is asked, and not the agent itself.
abbrev pub asks_hub : Params → Bool
asks_hub p = p.is_hub_agent && id_given p.agent_id

-- The query of the request to the hub, before it is encoded.
pub record HistoryQuery : Type 0 where
  pub agent_id : Str
  pub from : ℕ
  pub to : ℕ
  pub resolution : Str
  pub limit : ℕ

pub data HistoryRequest : Type 0 where
  hub_history : HistoryQuery → HistoryRequest
  local_history : ℕ → HistoryRequest

unfoldable pub request_of : ℕ → Params → HistoryRequest
request_of now p =
    let (from, to) = history_range_bounds now p.time_range in
    if asks_hub p
    then hub_history (record {
      agent_id = or_else p.agent_id [];
      from = from;
      to = to;
      resolution = resolution_for_range p.time_range;
      limit = 500;
    })
    else local_history 120

pub record HistoryState (F : Type 0) : Type 0 where
  pub samples : List (MetricsSnapshot F)
  pub loading : Bool
  pub error : Option Str

module _ {F : Type 0} where
  unfoldable pub initial : HistoryState F
  initial = record { samples = []; loading = false; error = none }

  -- The branch of the effect for a hook that is switched off.
  unfoldable pub switched_off : HistoryState F → HistoryState F
  switched_off s = record { samples = []; loading = false; error = none }

  -- `load` up to its request.
  unfoldable pub load_start : HistoryState F → HistoryState F
  load_start s = record s { loading = true; error = none }

module _ {F : Type 0} (date_ms : Str → Option ℕ) where
  -- What is made of the answer at the time `now`.
  unfoldable pub read_samples :
      ℕ → Params → Option (List (MetricsSnapshot F)) → List (MetricsSnapshot F)
  read_samples now p answer = sort_samples_asc date_ms (
      if asks_hub p
      then or_else answer []
      else filter_samples_by_range date_ms now (or_else answer []) p.time_range)

  -- The rest of `load`, for a run that is not cancelled.
  unfoldable pub load_finish :
      ℕ → Params → Settled (Option (List (MetricsSnapshot F))) → HistoryState F → HistoryState F
  load_finish now p (resolved answer) s = record s {
    samples = read_samples now p answer;
    loading = false;
  }
  load_finish now p (rejected message) s = record {
    samples = [];
    loading = false;
    error = some message;
  }

  -- With the flag: a cancelled run changes nothing.
  unfoldable pub load_settled :
      Bool
      → ℕ
      → Params
      → Settled (Option (List (MetricsSnapshot F)))
      → HistoryState F
      → HistoryState F
  load_settled true now p answer s = s
  load_settled false now p answer s = load_finish now p answer s
