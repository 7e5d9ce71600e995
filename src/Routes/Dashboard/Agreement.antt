-- ===== src/Routes/Dashboard/Agreement.antt =====
-- The hub's card of an agent and the dashboard of the same agent.
use instace_metric_collector.Common.{
  ℕ, Str, String, get_elem?, Option, none, some, ◌≡◌, refl, ap, sym,
}
use instace_metric_collector.Common.Floats.{Floats}
use instace_metric_collector.Api.Types.{AgentSummary, MetricsPayload}
use instace_metric_collector.Domain.HistorySeries.{ratio_percent}
use instace_metric_collector.Components.Bars.{
  CardView, metric_card, bar_width, hub_bar_tone-bar_fill_class,
}
use instace_metric_collector.Routes.Hub.{agent_card}
use instace_metric_collector.Routes.Dashboard.{dashboard_cards}

-- The summary of an agent has the figures of its snapshot.
pub record Summarises {F : Type 0} (a : AgentSummary F) (p : MetricsPayload F) : Type 0 where
  pub cpu : a.cpu_load ≡ p.cpu_load
  pub used : a.used_memory ≡ p.used_memory
  pub total : a.total_memory ≡ p.total_memory

-- A card of the dashboard with this text, this bar and this second line.
abbrev pub Shows : {F : Type 0} → Str → String × F → Option Str → Option (CardView F) → Type 0
Shows value bar subtitle none = ⊥
Shows value bar subtitle (some c) = (c.value ≡ value) × (c.bar ≡ some bar) × (c.subtitle ≡ subtitle)

module _ {F : Type 0} ⦃fl : Floats F⦄ (encode t : Str → Str) (date_ms : Str → ℕ) (cores : ℕ → Str)
    (now : ℕ) where
  -- For an agent whose summary has the figures of its snapshot, the hub's card and the agent's
  -- dashboard say the same: the load of the processors and the memory in percent with the same
  -- colour and width of the bar, and the memory in bytes.
  pub agent_card-dashboard_cards :
      (a : AgentSummary F) (p : MetricsPayload F)
      → Summarises a p
      → Shows
          (agent_card encode t date_ms now a).cpu
          (agent_card encode t date_ms now a).cpu_bar
          none
          (get_elem? (dashboard_cards t cores p) 0)
        × Shows
            (agent_card encode t date_ms now a).memory
            (agent_card encode t date_ms now a).memory_bar
            (some (agent_card encode t date_ms now a).memory_bytes)
            (get_elem? (dashboard_cards t cores p) 1)
  unfolding agent_card dashboard_cards metric_card
  agent_card-dashboard_cards a p h =
      rw (h.cpu, h.used, h.total)
        (
          (
            refl,
            ap (λ c. some (c, bar_width p.cpu_load)) (sym (hub_bar_tone-bar_fill_class p.cpu_load)),
            refl,
          ),
          (
            refl,
            ap (λ c. some (c, bar_width (ratio_percent p.used_memory p.total_memory)))
                (sym (hub_bar_tone-bar_fill_class (ratio_percent p.used_memory p.total_memory))),
            refl,
          ),
        )
