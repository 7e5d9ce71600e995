-- ===== src/Examples/Hooks.antt =====
-- The history samples, the poll of a container and the pages' hooks on examples.
use instace_metric_collector.Common.{
  ℕ, codes, true, false, [], ◌∷◌, none, some, In, here, ◌≡◌, ◌≢◌, ◌⊎◌, refl,
}
use instace_metric_collector.Common.Sort.{sort_by}
use instace_metric_collector.Api.Client.{resolved}
use instace_metric_collector.Api.HistorySamples.{Params, initial, load_finish, read_samples}
use instace_metric_collector.Api.HistorySamples.Runs
use instace_metric_collector.Api.HistorySamples.Runs.{
  Load, begin_load, rerun, receive, answer_is_current, read_samples_in_range,
}
use instace_metric_collector.Api.Polling.Races
use instace_metric_collector.Api.Polling.Races.{stale_snapshot_shown}
use instace_metric_collector.Domain.HistorySeries.{
  one_hour, day, history_range_bounds, sort_samples_asc, filter_samples_by_range,
}
use instace_metric_collector.Examples.Data.{snap_a, snap_b, dates}

abbrev pub on_agent : Params
on_agent = record { enabled = true; time_range = one_hour; is_hub_agent = false; agent_id = none }

-- The hook is mounted and has asked for the first time.
abbrev pub first_system : Runs.System ℕ
first_system = rerun on_agent (record { ui = initial; current = 0; params = on_agent; loads = [] })

abbrev first_load : Load
first_load = record { run = 1; params = on_agent }

first_load_In : In first_load first_system.loads
unfolding rerun
first_load_In = here refl

answer_is_current_example :
    (first_load.params ≢ first_system.params
      → receive dates first_load 100 (resolved (some (snap_a ∷ []))) first_system ≡ first_system)
    × ((receive dates first_load 100 (resolved (some (snap_a ∷ []))) first_system ≡ first_system)
        ⊎ ((first_load.run ≡ first_system.current)
            × (first_load.params ≡ first_system.params)
            × (receive dates first_load 100 (resolved (some (snap_a ∷ []))) first_system
                ≡ record first_system {
                  ui =
                      load_finish dates 100 first_system.params
                        (resolved (some (snap_a ∷ [])))
                        first_system.ui;
                })))
    × ((next_params : Params)
        → receive dates first_load 100
            (resolved (some (snap_a ∷ [])))
            (rerun next_params first_system)
          ≡ rerun next_params first_system)
answer_is_current_example =
    answer_is_current dates first_load 100 (resolved (some (snap_a ∷ []))) Runs.mounted
      first_load_In

read_In : In snap_a (read_samples dates 100 on_agent (some (snap_b ∷ snap_a ∷ [])))
unfolding read_samples sort_samples_asc filter_samples_by_range sort_by history_range_bounds
read_In = here refl

stale_snapshot_shown_example :
    (s : Races.System ℕ) × Races.Reach s
    × (s.container ≡ some (codes "c2"))
    × (s.ui ≡ record { snapshot = some snap_a; unavailable = false; loading = false })
stale_snapshot_shown_example =
    stale_snapshot_shown (codes "c1") (codes "c2") snap_a snap_b refl refl

abbrev drawn : ℕ
drawn = 0

abbrev on_hub : Params
on_hub = record {
  enabled = true;
  time_range = day;
  is_hub_agent = true;
  agent_id = some (codes "a1");
}
