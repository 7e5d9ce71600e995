-- ===== src/Navigation/Sidebar/Tree.antt =====
-- The side bar's order, and where its links lead.
use mathlib.Core.List.{append_assoc}
use instace_metric_collector.Common.{
  Str, codes, same, same_refl, nonempty, Avoids, any, Bool, true, false, List, [], ◌∷◌, ◌++◌, map,
  Bool-cases, arith, inl, inr, In, In-map_intro, In-map, length, Option, none, some, ◌≡◌, refl, ap,
  ◌∙◌, if◌then◌else◌,
}
use instace_metric_collector.Common.Sort.{
  IsPreorder, IsSorted, Below, sort_by, sort_by-IsSorted, In-sort_by, sort_by-In,
}
use instace_metric_collector.Api.Types.{AgentSummary, MetaResponse, hub}
use instace_metric_collector.Navigation.{
  is_slash, agent_base_path, agent_href, is_history_capable_route, is_history_view,
}
use instace_metric_collector.Navigation.Links.{
  Encodes, agent_base_path_lem, root_capable, view_capable,
}
use instace_metric_collector.Navigation.Sidebar.{
  agent_views, AgentEntry, agent_base, view_link, agent_entry, hub_entries,
}

module _ {A B : Type 0} (f : A → B) (le : B → B → Bool) where
  Below-map : (x : A) (xs : List A) → Below (λ a b. le (f a) (f b)) x xs → Below le (f x) (map f xs)
  Below-map x [] h = tt
  Below-map x (y ∷ ys) (p, h) = (p, Below-map x ys h)

  IsSorted-map : (xs : List A) → IsSorted (λ a b. le (f a) (f b)) xs → IsSorted le (map f xs)
  IsSorted-map [] h = tt
  IsSorted-map (x ∷ xs) (b, h) = (Below-map x xs b, IsSorted-map xs h)

pub avoids : (s : Str) → any is_slash s ≡ false → Avoids is_slash s
avoids [] h = tt
avoids (c ∷ s) h = (ground arith, avoids s (ground arith))

-- The page of a view of an agent, for the segment `s`.
pub capable :
    {encode : Str → Str}
    → Encodes encode
    → (id s : Str) → nonempty id ≡ true
    → any is_slash s ≡ false
    → is_history_capable_route (codes "/hub/agents/" ++ encode id ++ codes "/" ++ s)
      ≡ is_history_view s
capable {encode} law id s n a =
    rw (append_assoc (encode id) (codes "/") s) (view_capable law id s n (avoids s a))

six :
    {A : Type 0} {a b c d e f a' b' c' d' e' f' : A}
    → a ≡ a'
    → b ≡ b'
    → c ≡ c'
    → d ≡ d'
    → e ≡ e'
    → f ≡ f'
    → Path (List A) (a ∷ b ∷ c ∷ d ∷ e ∷ f ∷ []) (a' ∷ b' ∷ c' ∷ d' ∷ e' ∷ f' ∷ [])
six p q r s t u = rw (p, q, r, s, t, u) refl

module _ (encode t : Str → Str) {F : Type 0} where
  -- If the comparison of host names is total and transitive, the entries are in its order; each
  -- agent has its entry, each entry is an agent's, and the agents with a link to their views are
  -- those of the active id.
  pub hub_entries_lem :
      (locale_le : Str → Str → Bool)
      → IsPreorder locale_le
      → (active : Str) (agents : List (AgentSummary F))
      → IsSorted
          (λ e d. locale_le e.hostname d.hostname)
          (hub_entries encode t locale_le (some active) agents)
        × ((a : AgentSummary F)
            → In a agents
            → In
                (agent_entry encode t (some active) a)
                (hub_entries encode t locale_le (some active) agents))
        × ((e : AgentEntry)
            → In e (hub_entries encode t locale_le (some active) agents)
            → (a : AgentSummary F) × In a agents
              × (e ≡ agent_entry encode t (some active) a)
              × (length e.views ≡ (if same active a.agent_id then 6 else 0)))
  unfolding hub_entries agent_entry
  hub_entries_lem locale_le o active agents = (
    IsSorted-map (agent_entry encode t (some active)) (λ e d. locale_le e.hostname d.hostname) _
        (sort_by-IsSorted by_name by_name-IsPreorder agents),
    (λ a m.
        In-map_intro (agent_entry encode t (some active)) (sort_by by_name agents)
          (In-sort_by by_name agents m)),
    (λ e m.
        let (a, k, p) = In-map (agent_entry encode t (some active)) (sort_by by_name agents) m in
        (a, sort_by-In by_name agents k, p, ap (λ d. length d.views) p ∙ views_length a)),
  )
    where
      by_name : AgentSummary F → AgentSummary F → Bool
      by_name a b = locale_le a.hostname b.hostname

      by_name-IsPreorder : IsPreorder by_name
      by_name-IsPreorder = record {
        total = λ a b h. o.total a.hostname b.hostname h;
        trans = λ a b c h k. o.trans a.hostname b.hostname c.hostname h k;
      }

      views_length :
          (a : AgentSummary F)
          → length (agent_entry encode t (some active) a).views
            ≡ (if same active a.agent_id then 6 else 0)
      views_length a = elim (Bool-cases (same active a.agent_id)) [
        | inl e ↦ rw e refl
        | inr e ↦ rw e refl
      ]

  -- The links to the views are those that `useAgentHref` makes under the hub, and of the active
  -- agent's six the first four, and no other, lead to a page with a history. The agent's id is not
  -- empty and codes of ids are as `Encodes` says.
  pub view_links_lem :
      Encodes encode
      → (url : Option Str) (m : MetaResponse) (a : AgentSummary F) → m.mode ≡ hub
      → nonempty a.agent_id ≡ true
      → (map (λ e. e.to) (agent_entry encode t (some a.agent_id) a).views
          ≡ map
              (λ v.
                agent_href
                  (agent_base_path encode (some m) (some a.agent_id) url)
                  (some v.segment)
                  none)
              agent_views)
        × (map (λ e. is_history_capable_route e.to) (agent_entry encode t (some a.agent_id) a).views
            ≡ true ∷ true ∷ true ∷ true ∷ false ∷ false ∷ [])
  unfolding agent_entry agent_base view_link agent_href is_history_view same
  view_links_lem law url m a h n = (
    rw (same_refl a.agent_id, agent_base_path_lem encode url m a.agent_id h n) refl,
    rw (same_refl a.agent_id) (
        six (root_capable law a.agent_id n) (capable law a.agent_id (codes "processes") n refl)
          (capable law a.agent_id (codes "services") n refl)
          (capable law a.agent_id (codes "containers") n refl)
          (capable law a.agent_id (codes "diagnostics") n refl)
          (capable law a.agent_id (codes "alerts") n refl)),
  )
