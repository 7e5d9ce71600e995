-- ===== src/Navigation/Matching/Shifted.antt =====
-- A code of ids that has no slash, and a router that reads it: what the interface asks can be met.
use mathlib.Core.List.{append_assoc}
use instace_metric_collector.Common.{
  ◌+◌, ◌-◌, Str, codes, nonempty, split_on, Avoids, true, List, [], ◌∷◌, ◌++◌, map, Option, none,
  some, ◌≡◌, refl, ap, arith,
}
use instace_metric_collector.Common.Text.Split.{split_on-append, split_on_whole}
use instace_metric_collector.Navigation.{is_slash, strip_prefix}
use instace_metric_collector.Navigation.Links.{Encodes}
use instace_metric_collector.Navigation.Matching.{Router, IsRouter}

-- Every code is moved beyond that of the slash.
pub shift_up : Str → Str
shift_up s = map (λ c. c + 48) s

shift_down : Str → Str
shift_down s = map (λ c. c - 48) s

first_piece : List Str → Option Str
first_piece [] = none
first_piece (s ∷ rest) = some (shift_down s)

piece_of : Option Str → Option Str
piece_of none = none
piece_of (some rest) = first_piece (split_on is_slash rest)

pub match_agent : Str → Option Str
unfolding piece_of
match_agent path = piece_of (strip_prefix (codes "/hub/agents/") path)

abbrev pub shifted_router : Router
shifted_router = record { agent_id = match_agent }

shift_back : (s : Str) → shift_down (shift_up s) ≡ s
unfolding shift_up shift_down
shift_back [] = refl
shift_back (c ∷ s) = let e : c + 48 - 48 ≡ c = omega arith in rw (e, shift_back s) refl

shift_up-Avoids : (s : Str) → Avoids is_slash (shift_up s)
unfolding shift_up
shift_up-Avoids [] = tt
shift_up-Avoids (c ∷ s) = (ground arith, shift_up-Avoids s)

pub shift_up-Encodes : Encodes shift_up
unfolding shift_up
shift_up-Encodes = record { no_slash = shift_up-Avoids; not_empty = kept }
  where
    kept : (s : Str) → nonempty s ≡ true → nonempty (shift_up s) ≡ true
    kept [] n = n
    kept (c ∷ s) n = refl

match_prefix :
    (rest : Str) → match_agent (codes "/hub/agents/" ++ rest) ≡ first_piece (split_on is_slash rest)
unfolding match_agent piece_of strip_prefix
match_prefix rest = refl

below_lem :
    (e id segment : Str)
    → Avoids is_slash e
    → Avoids is_slash segment
    → shift_down e ≡ id
    → match_agent (codes "/hub/agents/" ++ e ++ codes "/" ++ segment) ≡ some id
unfolding first_piece
below_lem e id segment h k d =
    rw
      (
        append_assoc (codes "/hub/agents/" ++ e) (codes "/") segment,
        append_assoc (codes "/hub/agents/") e (b'/' ∷ segment),
        match_prefix (e ++ b'/' ∷ segment),
        split_on-append is_slash e b'/' segment refl,
        split_on_whole is_slash e h,
      )
      (ap some d)

pub shifted-IsRouter : IsRouter shifted_router shift_up
unfolding first_piece
shifted-IsRouter = record {
  own = λ id n.
      rw (match_prefix (shift_up id), split_on_whole is_slash (shift_up id) (shift_up-Avoids id))
        (ap some (shift_back id));
  below =
      λ id segment n a. below_lem (shift_up id) id segment (shift_up-Avoids id) a (shift_back id);
}
