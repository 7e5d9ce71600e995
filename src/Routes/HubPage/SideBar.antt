-- ===== src/Routes/HubPage/SideBar.antt =====
-- Where the links of the side bar lead, and what it marks then.
use mathlib.Core.Path.{subst}
use instace_metric_collector.Common.{
  Str, codes, same, is_empty, nonempty, any, Bool, Bool-cases, true, false, ◌&&◌, List, [], ◌∷◌,
  ◌++◌, Avoids, All, In, In_All, In-map, Option, none, some, ◌≡◌, ◌⊎◌, inl, inr, refl, ap, ◌∙◌,
  if◌then◌else◌,
}
use instace_metric_collector.Common.Sort.{sort_by, sort_by-In}
use instace_metric_collector.Api.Types.{AgentSummary}
use instace_metric_collector.Domain.AgentStatus.{is_agent_offline}
use instace_metric_collector.Navigation.{is_slash}
use instace_metric_collector.Navigation.Matching.{Router, IsRouter}
use instace_metric_collector.Navigation.Sidebar.{
  NavEntry, AgentView, agent_views, AgentEntry, agent_base, view_link, agent_entry, hub_entries,
  is_active_agent,
}
use instace_metric_collector.Navigation.Sidebar.Tree.{avoids}
use instace_metric_collector.Routes.Layout.{agent_page, layout_view}
use instace_metric_collector.Routes.HubPage.Opening.{HasIds, opened_layout}

-- A link of an entry: its own, or one to a view of the agent.
abbrev pub IsLinkOf : AgentEntry → Str → Type 0
IsLinkOf e to = (to ≡ e.to) ⊎ ((n : NavEntry) × In n e.views × (to ≡ n.to))

view_segments : All (λ v. any is_slash v.segment ≡ false) agent_views
view_segments = (refl, (refl, (refl, (refl, (refl, (refl, tt))))))

module _ (encode t : Str → Str) (r : Router) (law : IsRouter r encode) where
  segment_read :
      (id s : Str)
      → nonempty id ≡ true
      → Avoids is_slash s
      → r.agent_id
          (if is_empty s then agent_base encode t id else agent_base encode t id ++ codes "/" ++ s)
        ≡ some id
  unfolding agent_base
  segment_read id [] n a = law.own id n
  segment_read id (c ∷ s) n a = law.below id (c ∷ s) n a

  view_read :
      (id : Str) (v : AgentView)
      → nonempty id ≡ true
      → In v agent_views
      → r.agent_id (view_link encode t (agent_base encode t id) v).to ≡ some id
  unfolding view_link
  view_read id v n m =
      segment_read id v.segment n (
        avoids v.segment (In_All (λ v. any is_slash v.segment ≡ false) agent_views view_segments m))

module _ {F : Type 0} (encode t : Str → Str) (r : Router) (law : IsRouter r encode) where
  link_read :
      (active : Option Str) (a : AgentSummary F) (e : AgentEntry) (to : Str)
      → nonempty a.agent_id ≡ true
      → e ≡ agent_entry encode t active a
      → IsLinkOf e to
      → r.agent_id to ≡ some a.agent_id
  unfolding agent_entry
  link_read active a e to n p (inl q) =
      ap r.agent_id (q ∙ ap (λ x. x.to) p) ∙ segment_read encode t r law a.agent_id [] n tt
  link_read active a e to n p (inr (link, m, q)) = of_view (subst (In link) (ap (λ x. x.views) p) m)
    where
      of_view : In link (agent_entry encode t active a).views → r.agent_id to ≡ some a.agent_id
      of_view k = elim (Bool-cases (is_active_agent active a.agent_id)) [
        | inl b ↦
            let (v, l, w) =
              In-map (view_link encode t (agent_base encode t a.agent_id)) agent_views
                (rw b at k) in
            ap r.agent_id (q ∙ ap (λ x. x.to) w) ∙ view_read encode t r law a.agent_id v n l
        | inr b ↦ elim (rw b at k) [ ]
      ]

  -- Let no two agents have the same id and no id be empty. When a link of an entry of the side bar
  -- has been followed, the entry's own or one to a view, the router reads the id of its agent, the
  -- side bar marks the entry of this agent and no other, and the layout draws the agent's page.
  pub side_bar_follows :
      (locale_le : Str → Str → Bool) (to_locale : Str → Str) (agents : List (AgentSummary F))
      (active : Option Str) (e : AgentEntry) (to : Str)
      → HasIds agents
      → In e (hub_entries encode t locale_le active agents)
      → IsLinkOf e to
      → (a : AgentSummary F) × In a agents
        × (e.title ≡ a.agent_id)
        × (r.agent_id to ≡ some a.agent_id)
        × ((d : AgentEntry)
            → In d (hub_entries encode t locale_le (r.agent_id to) agents)
            → d.is_active ≡ same e.title d.title)
        × (layout_view to_locale agents (r.agent_id to)
            ≡ agent_page (
                if is_agent_offline a.status && nonempty a.last_seen
                then some (to_locale a.last_seen)
                else none))
  unfolding hub_entries agent_entry
  side_bar_follows locale_le to_locale agents active e to ids m l =
      let (a, k, p) = In-map (agent_entry encode t active) (sort_by _ agents) m in
      let i : In a agents = sort_by-In _ agents k in
      let route = link_read active a e to (ids.given a i) p l in
      (
        a,
        i,
        ap (λ x. x.title) p,
        route,
        (λ d j.
            let (b, o, w) = In-map (agent_entry encode t (r.agent_id to)) (sort_by _ agents) j in
            ap (λ x. x.is_active) w
            ∙ ap (λ active. is_active_agent active b.agent_id) route
            ∙ rw (ap (λ x. x.title) p, ap (λ x. x.title) w) refl),
        rw route (opened_layout to_locale agents a ids i),
      )
