-- ===== src/Api/Metrics.antt =====
-- The hooks that follow one agent: go/web/frontend/src/api/useMetrics.ts (a first request and an
-- event stream), useHubAgentMetrics.ts (a poll) and useMeta.ts. A `Date` is its instant, `none` if
-- invalid; `date_ms` reads it.
pub mod Laws
pub mod Agents
use instace_metric_collector.Common.{
  ℕ, Str, codes, is_empty, Bool, true, false, not, ◌&&◌, List, [], ◌∷◌, Option, none, some,
  if◌then◌else◌,
}
use instace_metric_collector.Api.Types.{MetricsSnapshot, MetaResponse}
use instace_metric_collector.Api.Client.{Settled, resolved, rejected}

pub record MetricsState (F : Type 0) : Type 0 where
  pub snapshot : Option (MetricsSnapshot F)
  pub live : Bool
  pub last_update : Option (Option ℕ)

module _ {F : Type 0} where
  unfoldable pub initial : MetricsState F
  initial = record { snapshot = none; live = false; last_update = none }

  unfoldable pub lost : MetricsState F → MetricsState F
  lost s = record s { live = false }

pub data Event (F : Type 0) : Type 0 where
  answered : Settled (Option (MetricsSnapshot F)) → Event F
  streamed : Option (MetricsSnapshot F) → Event F
  stream_failed : Event F

module _ {F : Type 0} (date_ms : Str → Option ℕ) where
  unfoldable pub apply : MetricsSnapshot F → MetricsState F → MetricsState F
  apply snap s = record {
    snapshot = some snap;
    live = true;
    last_update = some (date_ms snap.collected_at);
  }

  -- The first request of `useMetrics`, and each poll of `useHubAgentMetrics`.
  unfoldable pub current_settled :
      Settled (Option (MetricsSnapshot F)) → MetricsState F → MetricsState F
  current_settled (resolved none) s = s
  current_settled (resolved (some snap)) s = apply snap s
  current_settled (rejected message) s = lost s

  -- A message of the stream: `none` if it does not parse.
  unfoldable pub stream_message : Option (MetricsSnapshot F) → MetricsState F → MetricsState F
  stream_message none s = s
  stream_message (some snap) s = apply snap s

  unfoldable pub handle : Event F → MetricsState F → MetricsState F
  unfolding current_settled stream_message apply lost
  handle (answered a) s = current_settled a s
  handle (streamed m) s = stream_message m s
  handle stream_failed s = lost s

  unfoldable pub run : List (Event F) → MetricsState F → MetricsState F
  unfolding handle
  run [] s = s
  run (e ∷ es) s = run es (handle e s)

pub record MetaState : Type 0 where
  pub meta : Option MetaResponse
  pub error : Option Str

abbrev pub initial_meta : MetaState
initial_meta = record { meta = none; error = none }

unfoldable pub meta_settled : Settled (Option MetaResponse) → MetaState → MetaState
meta_settled (resolved (some given)) s = record s { meta = some given }
meta_settled (resolved none) s = record s { error = some (codes "meta unavailable") }
meta_settled (rejected message) s = record s { error = some message }

abbrev no_meta : Option MetaResponse → Bool
no_meta none = true
no_meta (some m) = false

-- `!error`: an empty message counts as none.
abbrev pub no_error : Option Str → Bool
no_error none = true
no_error (some message) = is_empty message

unfoldable pub is_loading : MetaState → Bool
is_loading s = no_meta s.meta && no_error s.error
