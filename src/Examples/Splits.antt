-- ===== src/Examples/Splits.antt =====
-- The pages of the processes and of the services on examples.
use instace_metric_collector.Common.{
  same, ◌≢◌, List, ℕ, ◌==◌, Str, codes, true, false, [], ◌∷◌, In, here, map, none, some, ◌≡◌, ◌⊎◌,
  ◌↔◌, refl, trim,
}
use instace_metric_collector.Common.Floats.{nat_floats}
use instace_metric_collector.Common.Sort.{sort_by}
use instace_metric_collector.Api.Types.{ProcessInfo, MetricsSnapshot}
use instace_metric_collector.Api.Metrics.{MetricsState}
use instace_metric_collector.Api.HistorySamples.{HistoryState}
use instace_metric_collector.Domain.HistorySeries.{day}
use instace_metric_collector.Components.ServiceView.{page, container_detail, tree_view}
use instace_metric_collector.Components.DetailPanels.{process_detail, default_service_prefix}
use instace_metric_collector.Components.ProcessView.{
  ProcessRow, process_matches, filtered_processes, process_le, key_le, process_table,
  selected_process, is_highlighted,
}
use instace_metric_collector.Components.ProcessSplit.{TableView, start_table, process_split}
use instace_metric_collector.Components.ProcessSplit.Opening.{unmarked}
use instace_metric_collector.Routes.Layout.{HistoryView, live_view, history_view}
use instace_metric_collector.Routes.Snapshot.{Selection}
use instace_metric_collector.Routes.Query.Pairs.{pairs, pairs-IsQuery, lookup}
use instace_metric_collector.Routes.Workbench.{selected_pid, on_select_pid}
use instace_metric_collector.Routes.PageView.{PageView, waiting_view, follows_history}
use instace_metric_collector.Routes.PageView.Following.{ShowsContent, BarAt}
use instace_metric_collector.Routes.ProcessesPage.{processes_content, processes_page}
use instace_metric_collector.Routes.ProcessesPage.Offline.{offline_shows_history}
use instace_metric_collector.Routes.Layout.{initial_view, LayoutState, render, choose}
use instace_metric_collector.Routes.Layout.Switch.{LayoutEvent, rendered, ranged, happen_all, again}
use instace_metric_collector.Routes.HistoryWorkbench.{
  Contexts, page_context, content_context, within_provider,
}
use instace_metric_collector.Domain.AgentStatus.{is_agent_offline}
use instace_metric_collector.Api.Metrics.Agents.{System, Reach}
use instace_metric_collector.Routes.ProcessesPage.Agents.{other_agent_listed}
use instace_metric_collector.Api.Polling.{ContainerState}
use instace_metric_collector.Routes.ContainerPanel.{OwnMetrics, own_metrics, processes_body}
use instace_metric_collector.Routes.ContainerMetrics.{processes_part, processes_name, tab_parts}
use instace_metric_collector.Routes.ContainerMetrics.Contents.{
  PageInputs, TabContent, tab_content, panel_content,
}
use instace_metric_collector.Routes.ContainerMetrics.Contents.Following.{
  InTab, InPanel, container_processes_lem,
}
use instace_metric_collector.Routes.ProcessesPage.Shown.{processes_page_lem, click_opens}
use instace_metric_collector.Examples.Data.{plain, sshd_unit, snap_a, snap_b, dates}
use instace_metric_collector.Examples.Panels.{any_order}
use instace_metric_collector.Examples.Selecting.{number_of, reads}

abbrev some_samples : ℕ → Str
some_samples n = codes "samples"

abbrev in_history : HistoryView
in_history = record { view_mode = history_view; time_range = day }

abbrev no_metrics : MetricsState ℕ
no_metrics = record { snapshot = none; live = false; last_update = none }

abbrev live_b : MetricsState ℕ
live_b = record { snapshot = some snap_b; live = true; last_update = none }

-- The page's hook has an answer, that of its content has none yet.
abbrev own_hooks : Contexts ℕ
own_hooks = record { provider = none; page_own = live_b; content_own = no_metrics }

abbrev two_samples : HistoryState ℕ
two_samples = record { samples = snap_b ∷ snap_a ∷ []; loading = false; error = none }

abbrev second_sample : Selection
second_sample = record { sample_index = 1; seen_range = day; seen_length = 2 }

abbrev history_table : PageView TableView
history_table =
    processes_page plain plain plain any_order pairs number_of dates some_samples page true
      in_history own_hooks two_samples second_sample [] start_table

abbrev table_of : MetricsSnapshot ℕ → TableView
table_of =
    processes_content plain plain plain any_order page (selected_pid pairs number_of []) start_table

processes_page_lem_example :
    ((history_table ≡ waiting_view)
      ↔ ((follows_history page in_history ≡ false) × ((page_context own_hooks).snapshot ≡ none)))
    × ((v : TableView)
        → ShowsContent history_table v
        → (snap : MetricsSnapshot ℕ) × (v ≡ table_of snap)
          × (((follows_history page in_history ≡ false)
                × ((content_context own_hooks).snapshot ≡ some snap))
              ⊎ ((follows_history page in_history ≡ true)
                  × BarAt dates two_samples.samples history_table snap)))
    × ((own snap : MetricsSnapshot ℕ)
        → follows_history page in_history ≡ false
        → (page_context own_hooks).snapshot ≡ some own
        → (content_context own_hooks).snapshot ≡ some snap
        → ShowsContent history_table (table_of snap))
    × ((y : MetricsSnapshot ℕ)
        → follows_history page in_history ≡ true
        → In y two_samples.samples
        → (v : TableView) × ShowsContent history_table v)
processes_page_lem_example =
    processes_page_lem plain plain plain any_order pairs number_of dates some_samples page true
      in_history own_hooks two_samples second_sample [] start_table

abbrev nginx_row : ProcessRow
nginx_row = record {
  pid = 21;
  user = some (codes "www");
  cpu = nat_floats.to_fixed 40 1;
  memory = nat_floats.to_fixed 9 1;
  command = some (codes "/bin/nginx");
  is_selected = false;
}

nginx_row_In : In nginx_row (table_of snap_a).rows
unfolding processes_content process_split filtered_processes sort_by process_matches process_le
    key_le process_table selected_process is_highlighted selected_pid trim lookup
nginx_row_In = here refl

click_opens_example :
    ((p : ProcessInfo ℕ) × In p snap_a.payload.process_infos
      × (p.pid ≡ 21)
      × (process_matches plain [] p ≡ true)
      × ((processes_content plain plain plain any_order page
            (selected_pid pairs number_of (on_select_pid pairs [] 21))
            start_table
            snap_a).detail
          ≡ some (process_detail plain plain plain default_service_prefix p (sshd_unit ∷ []))))
    × ((x : ProcessRow)
        → In x
            (processes_content plain plain plain any_order page
              (selected_pid pairs number_of (on_select_pid pairs [] 21))
              start_table
              snap_a).rows
        → x.is_selected ≡ (x.pid == 21))
    × (map unmarked
          (processes_content plain plain plain any_order page
            (selected_pid pairs number_of (on_select_pid pairs [] 21))
            start_table
            snap_a).rows
        ≡ map unmarked (table_of snap_a).rows)
click_opens_example =
    click_opens plain plain plain any_order pairs pairs-IsQuery number_of reads page snap_a []
      start_table nginx_row nginx_row_In

-- The agent was live, goes stale, and is live again.
abbrev was_live : LayoutState
was_live = record { view = initial_view; seen = some (codes "live") }

abbrev back_again : List LayoutEvent
back_again = ranged day ∷ rendered (some (codes "live")) ∷ []

abbrev gone : LayoutState
gone = happen_all back_again (render (some (codes "stale")) was_live)

abbrev offline_table : PageView TableView
offline_table =
    processes_page plain plain plain any_order pairs number_of dates some_samples page true
      gone.view (within_provider live_b no_metrics no_metrics) two_samples second_sample []
      start_table

offline_shows_history_example :
    (offline_table ≢ waiting_view)
    × ((x : TableView)
        → ShowsContent offline_table x
        → (snap : MetricsSnapshot ℕ) × In snap two_samples.samples × (x ≡ table_of snap))
    × ((y : MetricsSnapshot ℕ)
        → In y two_samples.samples
        → (x : TableView) × ShowsContent offline_table x)
    × ((snap : MetricsSnapshot ℕ)
        → live_b.snapshot ≡ some snap
        → ShowsContent
            (processes_page plain plain plain any_order pairs number_of dates some_samples page true
              (happen_all (again 2 gone.seen) (choose live_view gone)).view
              (within_provider live_b no_metrics no_metrics)
              two_samples
              second_sample
              []
              start_table)
            (table_of snap))
unfolding is_agent_offline same
offline_shows_history_example =
    offline_shows_history plain plain plain any_order pairs number_of dates some_samples was_live
      (some (codes "stale")) back_again 2 true live_b no_metrics no_metrics two_samples
      second_sample [] start_table refl refl tt

abbrev live_now : HistoryView
live_now = record { view_mode = live_view; time_range = day }

other_agent_listed_example :
    (s : System ℕ) × Reach dates s
    × (s.agent ≡ some (codes "a2"))
    × (s.asked ≡ [])
    × (s.origin ≡ some (codes "a1"))
    × (s.ui.live ≡ true)
    × ShowsContent
        (processes_page plain plain plain any_order pairs number_of dates some_samples page true
          live_now
          (within_provider s.ui no_metrics no_metrics)
          two_samples
          second_sample
          []
          start_table)
        (table_of snap_a)
other_agent_listed_example =
    other_agent_listed plain plain plain any_order pairs number_of dates some_samples (codes "a1")
      (codes "a2") snap_a snap_b no_metrics no_metrics live_now true two_samples second_sample []
      start_table refl refl refl

abbrev inputs : PageInputs ℕ pairs
inputs = record {
  page_own = no_metrics;
  content_own = no_metrics;
  view = in_history;
  history = two_samples;
  selection = second_sample;
  params = [];
  table = start_table;
  split = record { search = []; mode = tree_view; expanded = λ path. none };
}

abbrev container_own : ContainerState ℕ
container_own = record { snapshot = some snap_b; unavailable = false; loading = false }

abbrev own_there : OwnMetrics ℕ
own_there = record { snapshot = snap_b; is_live = true; last_update = dates (codes "b") }

abbrev in_tab : TabContent ℕ
in_tab =
    tab_content plain plain plain any_order pairs number_of dates some_samples inputs
      (processes_part own_there)

own_read : own_metrics dates container_own ≡ some own_there
unfolding own_metrics
own_read = refl

container_processes_lem_example :
    (tab_parts dates processes_name container_own ≡ processes_part own_there ∷ [])
    × (inputs.view.view_mode ≡ live_view → InTab in_tab (table_of snap_b))
    × (inputs.view.view_mode ≡ history_view
        → (v : TableView) → InTab in_tab v
        → (snap : MetricsSnapshot ℕ) × In snap two_samples.samples × (v ≡ table_of snap))
    × (inputs.view.view_mode ≡ history_view
        → (y : MetricsSnapshot ℕ) → In y two_samples.samples
        → (v : TableView) × InTab in_tab v)
    × InPanel
        (panel_content plain plain plain any_order pairs number_of dates some_samples inputs
          (processes_body own_there))
        (processes_content plain plain plain any_order container_detail
          (selected_pid pairs number_of [])
          start_table
          snap_b)
container_processes_lem_example =
    container_processes_lem plain plain plain any_order pairs number_of dates some_samples inputs
      container_own own_there own_read
