-- ===== src/Routes/Diagnostics/Shown.antt =====
-- Which agents have a block, and what the blocks say of their items.
use mathlib.Core.Path.{subst}
use instace_metric_collector.Common.{
  Str, Bool, false, List, [], ◌∷◌, In, here, there, In-append_left, In-append_right,
  In-append_cases, none, ◌≡◌, inl, inr, refl, sym, ap, ◌∙◌,
}
use instace_metric_collector.Common.Floats.{Floats}
use instace_metric_collector.Api.Types.{AgentSummary}
use instace_metric_collector.Components.Diagnostics.{DiagnosticItem, diagnostic_dedupe_key, str_lt}
use instace_metric_collector.Components.Diagnostics.Unique.{dedupe_insights_lem}
use instace_metric_collector.Routes.Diagnostics.{
  AgentBlock, panel_cards, agent_block, blocks_of, blocks, all_agents, diagnostics_page,
}

module _ {F : Type 0} ⦃fl : Floats F⦄ (locale_le : Str → Str → Bool)
    (items_of : Str → List (DiagnosticItem F)) where
  -- For an item of an agent: the agent's block, in which a card stands for the item.
  abbrev pub Shows : List (AgentBlock F) → AgentSummary F → DiagnosticItem F → Type 0
  Shows bs a x =
      (b : AgentBlock F) × In b bs
      × (b.agent_id ≡ a.agent_id)
      × ((y : DiagnosticItem F) × In y b.cards
          × (diagnostic_dedupe_key y ≡ diagnostic_dedupe_key x)
          × (str_lt y.detected_at x.detected_at ≡ false))

  block-Shows :
      (a : AgentSummary F) (items : List (DiagnosticItem F)) {x : DiagnosticItem F}
      → In x items
      → Shows (agent_block locale_le a items) a x
  unfolding agent_block panel_cards
  block-Shows a [] m = elim m [ ]
  block-Shows a (z ∷ items) {x} m =
      (_, here refl, refl, (dedupe_insights_lem locale_le (z ∷ items)).2 x m)

  blocks-Shows :
      (agents : List (AgentSummary F)) {a : AgentSummary F} {x : DiagnosticItem F}
      → In a agents
      → In x (items_of a.agent_id)
      → Shows (blocks_of locale_le items_of agents) a x
  unfolding blocks_of
  blocks-Shows [] m k = elim m [ ]
  blocks-Shows (c ∷ agents) {a} {x} (here e) k =
      let (b, i, j, h) =
        block-Shows c (items_of c.agent_id) {x = x}
          (subst (λ (d : AgentSummary F). In x (items_of d.agent_id)) e k) in
      (b, In-append_left _ _ i, j ∙ ap (λ d. d.agent_id) (sym e), h)
  blocks-Shows (c ∷ agents) {a} {x} (there m) k =
      let (b, i, j, h) = blocks-Shows agents {a = a} {x = x} m k in
      (b, In-append_right (agent_block locale_le c (items_of c.agent_id)) _ i, j, h)

  -- A block is of an agent with an item, and has a card, and its cards are items of the agent.
  abbrev pub IsOf : List (AgentSummary F) → AgentBlock F → Type 0
  IsOf agents b =
      (a : AgentSummary F) × In a agents
      × (b.agent_id ≡ a.agent_id)
      × (b.hostname ≡ a.hostname)
      × ((y : DiagnosticItem F) × In y b.cards)
      × ((y : DiagnosticItem F) → In y b.cards → In y (items_of a.agent_id))

  block-IsOf :
      (a : AgentSummary F) (items : List (DiagnosticItem F)) {b : AgentBlock F}
      → In b (agent_block locale_le a items)
      → (b.agent_id ≡ a.agent_id)
        × (b.hostname ≡ a.hostname)
        × ((y : DiagnosticItem F) × In y b.cards)
        × ((y : DiagnosticItem F) → In y b.cards → In y items)
  unfolding agent_block panel_cards
  block-IsOf a [] m = elim m [ ]
  block-IsOf a (z ∷ items) (here e) = rw e (
      let (d, f, g) = dedupe_insights_lem locale_le (z ∷ items) in
      let (y, k, _, _) = g z (here refl) in (refl, refl, (y, k), d))
  block-IsOf a (z ∷ items) (there m) = elim m [ ]

  blocks-IsOf :
      (agents : List (AgentSummary F)) {b : AgentBlock F}
      → In b (blocks_of locale_le items_of agents)
      → IsOf agents b
  unfolding blocks_of
  blocks-IsOf [] m = elim m [ ]
  blocks-IsOf (c ∷ agents) {b} m =
      elim (In-append_cases (agent_block locale_le c (items_of c.agent_id)) _ m) [
        | inl k ↦
            let (p, q, r, t) = block-IsOf c (items_of c.agent_id) k in (c, here refl, p, q, r, t)
        | inr k ↦ let (a, i, p, q, r, t) = blocks-IsOf agents {b = b} k in (a, there i, p, q, r, t)
      ]

  -- With an agent, the page of all agents is a list of blocks: each block is of a listed agent, has
  -- a card, and its cards are items of that agent; and for each item of a listed agent there is a
  -- block of the agent's id with a card of the item's identity whose text `detected_at`, compared
  -- character by character and not as an instant, is not smaller.
  pub diagnostics_page_lem :
      (a : AgentSummary F) (agents : List (AgentSummary F))
      → (bs : List (AgentBlock F)) × (diagnostics_page locale_le (a ∷ agents) items_of none
          ≡ blocks bs)
        × ((b : AgentBlock F) → In b bs → IsOf (a ∷ agents) b)
        × ((c : AgentSummary F) (x : DiagnosticItem F)
            → In c (a ∷ agents)
            → In x (items_of c.agent_id)
            → Shows bs c x)
  unfolding diagnostics_page all_agents
  diagnostics_page_lem a agents = (
    blocks_of locale_le items_of (a ∷ agents),
    refl,
    (λ b m. blocks-IsOf (a ∷ agents) m),
    (λ c x m k. blocks-Shows (a ∷ agents) m k),
  )
