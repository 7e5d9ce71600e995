-- ===== src/Routes/Query/Pairs.antt =====
-- Parameters as a list of pairs, with texts that need no code: what the interface asks can be met.
use mathlib.Core.List.{append_assoc}
use instace_metric_collector.Common.{
  ◌==◌, Str, codes, same, same_refl, false, Option, none, some, List, [], ◌∷◌, ◌++◌, ◌≡◌, refl,
  arith, if◌then◌else◌,
}
use instace_metric_collector.Routes.Query.{Query, IsKey, IsQuery}

unfoldable pub lookup : List (Str × Str) → Str → Option Str
lookup [] j = none
lookup ((k, v) ∷ p) j = let rest = lookup p j in if same j k then some v else rest

-- What stands before the first `=`, and after it.
unfoldable pub before : Str → Str
before [] = []
before (c ∷ s) = let rest = c ∷ before s in if c == b'=' then [] else rest

unfoldable pub after : Str → Str
after [] = []
after (c ∷ s) = let rest = after s in if c == b'=' then s else rest

unfoldable pub print_pairs : List (Str × Str) → Str
print_pairs [] = []
print_pairs ((k, v) ∷ p) = k ++ codes "=" ++ v ++ codes "&" ++ print_pairs p

abbrev pub pairs : Query
pairs = record {
  Params = List (Str × Str);
  get = lookup;
  set = λ p k v. (k, v) ∷ p;
  make = λ p. p;
  text = print_pairs;
  parse = λ s. (before s, after s) ∷ [];
}

before_key : (k s : Str) → IsKey k → before (k ++ b'=' ∷ s) ≡ k
unfolding before
before_key [] s h = refl
before_key (c ∷ k) s (e, h) =
    let n : (c == b'=') ≡ false = ground arith in rw (n, before_key k s h) refl

after_key : (k s : Str) → IsKey k → after (k ++ b'=' ∷ s) ≡ s
unfolding after
after_key [] s h = refl
after_key (c ∷ k) s (e, h) =
    let n : (c == b'=') ≡ false = ground arith in rw (n, after_key k s h) refl

get_parsed :
    (k s : Str) → IsKey k → lookup ((before (k ++ b'=' ∷ s), after (k ++ b'=' ∷ s)) ∷ []) k ≡ some s
unfolding lookup
get_parsed k s h = rw (before_key k s h, after_key k s h, same_refl k) refl

pub pairs-IsQuery : IsQuery pairs (λ s. s)
unfolding lookup
pairs-IsQuery = record {
  get-set = λ p k v j. refl;
  get-parse = λ k s h. rw (append_assoc k (codes "=") s) (get_parsed k s h);
}
