-- ===== src/Examples/Containers.antt =====
-- The pages of the containers on examples.
use instace_metric_collector.Common.{
  ◌⊎◌, ℕ, Str, codes, same, same_refl, is_empty, includes, starts_with, trim, none, some, List, [],
  ◌∷◌, In, here, there, All, Bool, Bool-clash, true, false, length, ◌≡◌, ◌≢◌, refl, ap, sym, ◌∙◌,
}
use instace_metric_collector.Common.Floats.{nat_floats}
use instace_metric_collector.Api.Types.{ContainerInfo}
use instace_metric_collector.Api.Polling.{ContainerState}
use instace_metric_collector.Domain.Format.{is_agent_container}
use instace_metric_collector.Routes.ContainerPanel.{is_peer, peers, own_metrics}
use instace_metric_collector.Api.Types.{MetricsSnapshot}
use instace_metric_collector.Api.Metrics.{MetricsState}
use instace_metric_collector.Api.HistorySamples.{HistoryState}
use instace_metric_collector.Domain.HistorySeries.{day}
use instace_metric_collector.Components.ServiceView.{page}
use instace_metric_collector.Routes.Layout.{initial_view}
use instace_metric_collector.Routes.Snapshot.{Selection}
use instace_metric_collector.Routes.HistoryWorkbench.{
  history_workbench, Contexts, page_context, content_context, use_metrics_context,
}
use instace_metric_collector.Routes.PageView.{PageView, page_of, page_content, follows_history}
use instace_metric_collector.Routes.PageView.Following.{ShowsContent, BarAt}
use instace_metric_collector.Routes.ContainersPage.{containers_content, containers_shown}
use instace_metric_collector.Routes.ContainersPage.Shown.{clicked_container_shown}
use instace_metric_collector.Routes.Containers.{
  WorkbenchView, containers_page, select_container, WorkbenchState, container_matches,
  filtered_containers, containers_view, select_container,
}
use instace_metric_collector.Routes.Containers.Choosing.{hidden_peer_not_shown}
use instace_metric_collector.Routes.ContainerMetrics.{
  metrics_page, not_agent, hub_unavailable, metrics_view, MetricsView, tab_parts, overview_name,
}
use instace_metric_collector.Routes.ContainerMetrics.Stages.{metrics_page_lem}
use instace_metric_collector.Examples.Data.{
  payload, plain, dates, snap_a, web_container, db_container, agent_container,
}

abbrev containers : List ContainerInfo
containers = web_container ∷ db_container ∷ agent_container ∷ []

-- The list after a search.
abbrev searched : WorkbenchState
searched = record { search = codes "we"; selected_id = none; mobile_detail = false }

db_peer : In db_container (peers containers web_container)
unfolding peers is_peer same
db_peer = here refl

web_found : In web_container (filtered_containers plain containers (codes "we"))
unfolding filtered_containers container_matches includes starts_with trim
web_found = here refl

-- Two texts that a test tells apart.
differ : (s : Str) {u : Str} → s ≡ u → same s u ≢ false
differ s e n = Bool-clash (same_refl s) (ap (same s) e ∙ n)

db_hidden :
    (x : ContainerInfo)
    → In x containers
    → x.id ≡ codes "22"
    → container_matches plain (trim (codes "we")) x ≡ false
unfolding container_matches includes starts_with trim same
db_hidden x (here e) i = absurd (differ (codes "11") (sym (ap (λ c. c.id) e) ∙ i) refl)
db_hidden x (there (here e)) i = rw e refl
db_hidden x (there (there (here e))) i =
    absurd (differ (codes "33") (sym (ap (λ c. c.id) e) ∙ i) refl)
db_hidden x (there (there (there m))) i = elim m [ ]

filled : is_empty (trim (codes "we")) ≡ false
unfolding trim
filled = refl

hidden_peer_not_shown_example :
    (other : ContainerInfo) × ((containers_view plain containers
        (select_container false (codes "22") searched)).chosen
      ≡ some other)
    × (other.id ≢ codes "22")
hidden_peer_not_shown_example =
    hidden_peer_not_shown plain containers false web_container db_container searched db_peer
      web_found filled db_hidden

ids_long : All (λ c. length c.id ≡ 2) containers
ids_long = (refl, (refl, (refl, tt)))

third : In agent_container containers
third = there (there (here refl))

abbrev own : ContainerState ℕ
own = record { snapshot = some snap_a; unavailable = false; loading = false }

metrics_page_lem_example :
    (c : ContainerInfo) × In c containers
    × (c.id ≡ codes "33")
    × (is_agent_container plain c ≡ false
        → (in_hub : Bool)
        → metrics_page plain dates containers in_hub (codes "33") overview_name own ≡ not_agent)
    × (is_agent_container plain c ≡ true
        → (metrics_page plain dates containers true (codes "33") overview_name own
            ≡ hub_unavailable)
          × ((v : MetricsView ℕ) × (metrics_page plain dates containers false
                  (codes "33")
                  overview_name
                  own
                ≡ metrics_view v)
              × (v.container ≡ c)
              × (v.parts ≡ tab_parts dates overview_name own)))
metrics_page_lem_example =
    metrics_page_lem plain dates containers agent_container overview_name own ids_long third refl

own_given :
    own_metrics dates own
    ≡ some (record { snapshot = snap_a; is_live = true; last_update = dates (codes "aaaa") })
unfolding own_metrics
own_given = refl

one_of_id :
    (d : ContainerInfo) → In d (agent_container ∷ []) → d.id ≡ codes "33" → d ≡ agent_container
one_of_id d (here e) i = e
one_of_id d (there m) i = elim m [ ]

abbrev snap_c : MetricsSnapshot ℕ
snap_c = record { collected_at = codes "c"; payload = record payload { containers = containers } }

abbrev following : MetricsState ℕ
following = record { snapshot = some snap_c; live = true; last_update = none }

-- The page and its list, each with a hook of its own.
abbrev both_own : Contexts ℕ
both_own = record { provider = none; page_own = following; content_own = following }

abbrev no_history : HistoryState ℕ
no_history = record { samples = []; loading = false; error = none }

abbrev first_sample : Selection
first_sample = record { sample_index = 0; seen_range = day; seen_length = 0 }

abbrev fresh : WorkbenchState
fresh = record { search = []; selected_id = none; mobile_detail = false }

abbrev no_count : ℕ → Str
no_count n = []

abbrev with_db : WorkbenchView
with_db = containers_content plain (select_container true (codes "22") fresh) snap_c

abbrev live_page : PageView WorkbenchView
live_page =
    containers_shown plain plain dates no_count initial_view both_own no_history first_sample
      (select_container true (codes "22") fresh)

with_db_shown : ShowsContent live_page with_db
unfolding containers_shown containers_page page_of history_workbench page_content page_context
    content_context use_metrics_context
with_db_shown = here refl

clicked_container_shown_example :
    (snap : MetricsSnapshot ℕ) × (with_db
      ≡ containers_content plain (select_container true (codes "22") fresh) snap)
    × (((follows_history page initial_view ≡ false)
          × ((content_context both_own).snapshot ≡ some snap))
        ⊎ ((follows_history page initial_view ≡ true) × BarAt dates [] live_page snap))
    × ((x : ContainerInfo)
        → In x (filtered_containers plain snap.payload.containers [])
        → x.id ≡ codes "22"
        → (c : ContainerInfo) × (with_db.chosen ≡ some c) × (c.id ≡ codes "22"))
clicked_container_shown_example =
    clicked_container_shown plain plain dates no_count true (codes "22") fresh initial_view both_own
      no_history first_sample with_db with_db_shown
