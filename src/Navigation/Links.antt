-- ===== src/Navigation/Links.antt =====
-- Which of the links under an agent lead to a page with a history.
use mathlib.Core.List.{append_assoc}
use instace_metric_collector.Common.{
  Str, codes, same, nonempty, split_on, Avoids, true, [], ◌∷◌, ◌++◌, Option, none, some, ◌≡◌, refl,
}
use instace_metric_collector.Common.Text.Split.{split_on-append, split_on_whole}
use instace_metric_collector.Api.Types.{hub, MetaResponse}
use instace_metric_collector.Navigation.{
  is_slash, agent_base_path, agent_href, is_history_view, is_history_capable_route, agent_part,
  strip_prefix,
}

agent_pieces :
    (e s : Str)
    → Avoids is_slash e
    → Avoids is_slash s
    → split_on is_slash (e ++ b'/' ∷ s) ≡ e ∷ s ∷ []
agent_pieces e s h k = rw (
  split_on-append is_slash e b'/' s refl,
  split_on_whole is_slash e h,
  split_on_whole is_slash s k,
)

hub_route :
    (rest : Str)
    → is_history_capable_route (codes "/hub/agents/" ++ rest) ≡ agent_part (split_on is_slash rest)
unfolding is_history_capable_route same split_on strip_prefix
hub_route rest = refl

-- What the model takes of `encodeURIComponent`: a code keeps no slash, and a text that is not empty
-- has a code that is not empty.
pub record Encodes (encode : Str → Str) : Type 0 where
  pub no_slash : (s : Str) → Avoids is_slash (encode s)
  pub not_empty : (s : Str) → nonempty s ≡ true → nonempty (encode s) ≡ true

pub agent_base_path_lem :
    (encode : Str → Str) (url : Option Str) (m : MetaResponse) (id : Str)
    → m.mode ≡ hub
    → nonempty id ≡ true
    → agent_base_path encode (some m) (some id) url ≡ codes "/hub/agents/" ++ encode id
unfolding agent_base_path
agent_base_path_lem encode url m id h n = simp (h, n)

agent_href_lem :
    (e s : Str)
    → nonempty s ≡ true
    → agent_href (codes "/hub/agents/" ++ e) (some s) none ≡ codes "/hub/agents/" ++ (e ++ b'/' ∷ s)
unfolding agent_href
agent_href_lem e [] n = cc
agent_href_lem e (c ∷ s) n = rw (append_assoc e (codes "/") (c ∷ s)) refl

agent_part_view : (e s : Str) → nonempty e ≡ true → agent_part (e ∷ s ∷ []) ≡ is_history_view s
unfolding agent_part
agent_part_view e s n = rw n refl

agent_part_root : (e : Str) → nonempty e ≡ true → agent_part (e ∷ []) ≡ true
unfolding agent_part
agent_part_root e n = n

root_href : (e : Str) → agent_href (codes "/hub/agents/" ++ e) none none ≡ codes "/hub/agents/" ++ e
unfolding agent_href
root_href e = refl

-- The page of a view of an agent has a history exactly if the view is one of the four.
pub view_capable :
    {encode : Str → Str}
    → Encodes encode
    → (id s : Str) → nonempty id ≡ true
    → Avoids is_slash s
    → is_history_capable_route (codes "/hub/agents/" ++ (encode id ++ b'/' ∷ s)) ≡ is_history_view s
view_capable {encode} law id s n a =
    rw (hub_route (encode id ++ b'/' ∷ s), agent_pieces (encode id) s (law.no_slash id) a)
      (agent_part_view (encode id) s (law.not_empty id n))

-- The page of an agent has a history.
pub root_capable :
    {encode : Str → Str}
    → Encodes encode
    → (id : Str) → nonempty id ≡ true
    → is_history_capable_route (codes "/hub/agents/" ++ encode id) ≡ true
root_capable {encode} law id n =
    rw (hub_route (encode id), split_on_whole is_slash (encode id) (law.no_slash id))
      (agent_part_root (encode id) (law.not_empty id n))

-- On the hub, for an agent with an id that is not empty, and a code of ids as `Encodes` says: the
-- link to a view of that agent (a text that is not empty and has no slash) leads to a page with a
-- history exactly if the view is one of the four that have one; the link to the agent itself
-- always does.
pub agent_link_capable :
    (encode : Str → Str)
    → Encodes encode
    → (url : Option Str) (m : MetaResponse) (id s : Str) → m.mode ≡ hub
    → nonempty id ≡ true
    → nonempty s ≡ true
    → Avoids is_slash s
    → (is_history_capable_route
          (agent_href (agent_base_path encode (some m) (some id) url) (some s) none)
        ≡ is_history_view s)
      × (is_history_capable_route
            (agent_href (agent_base_path encode (some m) (some id) url) none none)
          ≡ true)
agent_link_capable encode law url m id s h n k a = (
  rw (agent_base_path_lem encode url m id h n, agent_href_lem (encode id) s k)
      (view_capable law id s n a),
  rw (agent_base_path_lem encode url m id h n, root_href (encode id)) (root_capable law id n),
)
