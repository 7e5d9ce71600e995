-- ===== src/Routes/Query.antt =====
-- The parameters of a URL, which the pages keep their selection in. `URLSearchParams` and the
-- router that reads a link are the browser's: an interface, with what the pages rely on.
pub mod Pairs
pub mod Escaped
use instace_metric_collector.Common.{
  ℕ, leb, Str, String, codes, same, Bool, true, ◌&&◌, Option, none, some, List, [], ◌∷◌, ◌++◌, All,
  ◌≡◌, if◌then◌else◌,
}

pub record Query : Type 1 where
  pub Params : Type 0
  -- `params.get(key)`, and a copy of `params` with `set(key, value)`.
  pub get : Params → Str → Option Str
  pub set : Params → Str → Str → Params
  -- `new URLSearchParams(pairs)`, and its `toString()`.
  pub make : List (Str × Str) → Params
  pub text : Params → Str
  -- The parameters of a link, from what follows its `?`.
  pub parse : Str → Params

-- The keys of the program are small letters.
abbrev pub IsKey : Str → Type 0
IsKey = All (λ c. leb b'a' c && leb c b'z' ≡ true)

-- What the pages rely on: a parameter that was set is read back, the others are left alone, and a
-- link with one encoded parameter is read as written.
pub record IsQuery (q : Query) (encode : Str → Str) : Type 0 where
  pub get-set :
      (p : q.Params) (k v j : Str)
      → q.get (q.set p k v) j ≡ (if same j k then some v else q.get p j)
  pub get-parse : (k s : Str) → IsKey k → q.get (q.parse (k ++ codes "=" ++ encode s)) k ≡ some s

-- The first value of a key.
unfoldable pub first_value : List (Str × Str) → Str → Option Str
first_value [] j = none
first_value ((k, v) ∷ p) j = let rest = first_value p j in if same j k then some v else rest

-- What the links with several parameters rely on: what is written of pairs is read back.
pub record IsPrinted (q : Query) : Type 0 where
  pub get-text :
      (p : List (Str × Str)) (j : Str) → q.get (q.parse (q.text (q.make p))) j ≡ first_value p j
