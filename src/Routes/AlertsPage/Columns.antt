-- ===== src/Routes/AlertsPage/Columns.antt =====
-- The columns of the table, and the two lists of alerts.
use instace_metric_collector.Common.{
  ℕ, zero, suc, ◌+◌, Str, codes, same, Bool-cases, List, [], ◌∷◌, map, take, length, All, Option,
  none, some, ◌≡◌, ◌≢◌, inl, inr, refl, sym, ap, ◌∙◌,
}
use instace_metric_collector.Api.Types.{AgentSummary}
use instace_metric_collector.Api.Alerts.{AlertRecord, AlertsState}
use instace_metric_collector.Domain.AgentStatus.{Tone, success, neutral}
use instace_metric_collector.Routes.Alerts.{
  AlertActions, AlertRow, alert_row, alert_rows, ShortRow, short_row, short_rows, no_id,
  alert_actions, alert_status_label, alert_status_tone,
}
use instace_metric_collector.Routes.Alerts.Labels.{ack_of, resolved_shown_as_acked}
use instace_metric_collector.Routes.Dashboard.{DashboardView}
use instace_metric_collector.Routes.AlertsPage.{
  alert_heads, AlertsBody, no_alerts, alert_table, rows_or_notice, alerts_page, section_of,
  AgentDashboardView, hub_agent_dashboard,
}

-- The cells of a row: five, and one for the agent if it is there.
abbrev pub cells : AlertRow → ℕ
cells r = agent_cell r.agent + 5
  where
    agent_cell : Option Str → ℕ
    agent_cell none = 0
    agent_cell (some a) = 1

-- The table with the rows of all alerts, each as wide as the head, or the notice when there is none.
abbrev pub IsTableOf : List AlertRow → AlertsBody → Type 0
IsTableOf rows (no_alerts message) = rows ≡ []
IsTableOf rows (alert_table heads shown) =
    (rows ≢ []) × (shown ≡ rows) × All (λ r. cells r ≡ length heads) rows

-- What the short list makes of a row of the page: a row without buttons is called acknowledged.
label_as : (Str → Str) → Option AlertActions → Str → Str
label_as t none label = t (codes "alerts.status.ack")
label_as t (some actions) label = label

tone_as : Option AlertActions → Tone → Tone
tone_as none tone = success
tone_as (some actions) tone = tone

pub shorten : (Str → Str) → AlertRow → ShortRow
shorten t r = record {
  rule = r.rule;
  severity = r.severity;
  label = label_as t r.actions r.label;
  tone = tone_as r.actions r.tone;
  ack = ack_of r.actions;
}

-- The rows of the section under a dashboard.
abbrev pub shown_rows : {F : Type 0} → AgentDashboardView F → List ShortRow
shown_rows v = rows_of v.section
  where
    rows_of : Option (Str × List ShortRow) → List ShortRow
    rows_of none = []
    rows_of (some (heading, rows)) = rows

module _ {V : Type 0} (t : Str → Str) (page_id : Option Str) (s : AlertsState V) where
  cells-alert_row :
      (a : AlertRecord V) → cells (alert_row t page_id s a) ≡ length (alert_heads t page_id)
  unfolding alert_row alert_heads
  cells-alert_row a = elim (Bool-cases (no_id page_id)) [ inl e ↦ rw e refl | inr e ↦ rw e refl ]

  rows_fit :
      (alerts : List (AlertRecord V))
      → All (λ r. cells r ≡ length (alert_heads t page_id)) (map (alert_row t page_id s) alerts)
  rows_fit [] = tt
  rows_fit (a ∷ alerts) = (cells-alert_row a, rows_fit alerts)

  row_agrees : (a : AlertRecord V) → short_row t s a ≡ shorten t (alert_row t page_id s a)
  unfolding short_row alert_row alert_actions alert_status_label alert_status_tone shorten label_as
      tone_as
  row_agrees a = elim (Bool-cases (same a.status (codes "OPEN"))) [
    | inl e ↦ rw e refl
    | inr e ↦ rw e refl
  ]

  rows_agree :
      (n : ℕ) (alerts : List (AlertRecord V))
      → map (short_row t s) (take n alerts)
        ≡ map (shorten t) (take n (map (alert_row t page_id s) alerts))
  rows_agree zero alerts = refl
  rows_agree (suc n) [] = refl
  rows_agree (suc n) (a ∷ alerts) = rw (row_agrees a, rows_agree n alerts) refl

rows_or_notice-IsTableOf :
    (t : Str → Str) (page_id : Option Str) (rows : List AlertRow)
    → All (λ r. cells r ≡ length (alert_heads t page_id)) rows
    → IsTableOf rows (rows_or_notice t page_id rows)
unfolding rows_or_notice
rows_or_notice-IsTableOf t page_id [] h = refl
rows_or_notice-IsTableOf t page_id (r ∷ rows) h = ((λ e. cc), refl, h)

shown_section :
    {F : Type 0} (t : Str → Str) (dashboard : DashboardView F) (rows : List ShortRow)
    → shown_rows (record { dashboard = dashboard; section = section_of t rows }) ≡ rows
unfolding section_of
shown_section t dashboard [] = refl
shown_section t dashboard (r ∷ rows) = refl

module _ {F V : Type 0} (t : Str → Str) where
  -- On the page of all agents and on that of one agent alike, every row has as many cells as the
  -- table has columns, every alert has its row in the order of the list, and the notice is there
  -- exactly when there is no alert.
  pub alerts_page_lem :
      (page_id : Option Str) (agents : List (AgentSummary F)) (s : AlertsState V)
      → IsTableOf (alert_rows t page_id s) (alerts_page t page_id agents s).body
  unfolding alerts_page alert_rows
  alerts_page_lem page_id agents s =
      rows_or_notice-IsTableOf t page_id _ (rows_fit t page_id s s.alerts)

  -- The section under the dashboard of an agent has the first ten rows of the page of the alerts,
  -- with the same rule, severity and button to acknowledge, and an open alert with the same label
  -- and tone; every other alert it calls acknowledged, in the tone `success`, also one that is
  -- resolved, which the page calls resolved, in the tone `neutral`.
  pub short_list_lem :
      (dashboard : DashboardView F) (page_id : Option Str) (s : AlertsState V)
      → (shown_rows (hub_agent_dashboard t dashboard s)
          ≡ map (shorten t) (take 10 (alert_rows t page_id s)))
        × ((a : AlertRecord V)
            → a.status ≡ codes "RESOLVED"
            → ((shorten t (alert_row t page_id s a)).label ≡ t (codes "alerts.status.ack"))
              × ((shorten t (alert_row t page_id s a)).tone ≡ success)
              × ((alert_row t page_id s a).label ≡ t (codes "alerts.status.resolved"))
              × ((alert_row t page_id s a).tone ≡ neutral))
  unfolding hub_agent_dashboard short_rows alert_rows
  short_list_lem dashboard page_id s = (
    shown_section t dashboard _ ∙ rows_agree t page_id s 10 s.alerts,
    λ a e.
        let (label, tone, page_label, page_tone) = resolved_shown_as_acked t page_id s a e in
        (
          ap (λ r. r.label) (sym (row_agrees t page_id s a)) ∙ label,
          ap (λ r. r.tone) (sym (row_agrees t page_id s a)) ∙ tone,
          page_label,
          page_tone,
        ),
  )
