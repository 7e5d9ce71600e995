-- ===== src/Components/ServiceView/Selection.antt =====
-- The service that is selected, the search, and the branches that a click opens and closes.
use instace_metric_collector.Common.{
  ℕ, ltb, Str, same, same_refl, same_comm, same→eq, Bool, true, false, not, List, find-cases, In,
  In_All, Option, none, some, or_else, ◌≡◌, refl, sym, inl, inr,
}
use instace_metric_collector.Api.Types.{ServiceInfo}
use instace_metric_collector.Components.ServiceTree.{is_open_at}
use instace_metric_collector.Components.ServiceView.{
  selected_service, is_named, is_service_highlighted, toggle_expanded,
}

-- Of the services listed, those are marked whose name is the selected one, and no other.
pub is_service_highlighted_iff :
    (services : List ServiceInfo) (name : Option Str) (s : ServiceInfo)
    → In s services
    → is_service_highlighted (selected_service services name) s ≡ is_named name s.service_name
unfolding selected_service is_service_highlighted
is_service_highlighted_iff services none s m =
    elim (find-cases (λ s. is_named none s.service_name) services) [
      | inl (e, h) ↦ rw e refl
      | inr (q, e, k, h) ↦ cc
    ]
is_service_highlighted_iff services (some c) s m =
    elim (find-cases (λ s. same s.service_name c) services) [
      | inl (e, h) ↦ rw e (sym (In_All (λ s. same s.service_name c ≡ false) services h m))
      | inr (q, e, k, h) ↦ rw (e, same→eq q.service_name c h) (same_comm c s.service_name)
    ]

-- A click on a branch opens it if it is closed and closes it if it is open, leaves every other
-- branch as it is, and a second click on it restores what was shown.
pub toggle_expanded_lem :
    (name_le : Str → Str → Bool) (expanded : Str → Option Bool) (path : Str) (depth : ℕ)
    → (is_open_at name_le (toggle_expanded path depth expanded) path depth
        ≡ not (is_open_at name_le expanded path depth))
      × ((other : Str) (d : ℕ)
          → same other path ≡ false
          → is_open_at name_le (toggle_expanded path depth expanded) other d
            ≡ is_open_at name_le expanded other d)
      × (is_open_at name_le
            (toggle_expanded path depth (toggle_expanded path depth expanded))
            path
            depth
          ≡ is_open_at name_le expanded path depth)
unfolding toggle_expanded
toggle_expanded_lem name_le expanded path depth = (
  rw (same_refl path) refl,
  (λ other d e. rw e refl),
  rw (same_refl path) (not_not (or_else (expanded path) (ltb depth 2))),
)
  where
    not_not : (b : Bool) → not (not b) ≡ b
    not_not true = refl
    not_not false = refl
