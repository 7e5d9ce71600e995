-- ===== src/Routes/Query/Escaped.antt =====
-- Parameters as pairs, written with a code that has neither `=` nor `&`: what the interface asks of
-- texts with several parameters can be met.
use instace_metric_collector.Common.{
  ℕ, ◌+◌, ◌-◌, ◌==◌, Str, split_on, Avoids, Bool, false, List, [], ◌∷◌, ◌++◌, map, ◌≡◌, refl, ap,
  ◌∙◌, arith,
}
use instace_metric_collector.Common.Text.Split.{split_on-append, split_on_whole}
use instace_metric_collector.Routes.Query.{Query, IsPrinted, first_value}

abbrev is_and : ℕ → Bool
is_and c = c == b'&'

abbrev is_equals : ℕ → Bool
is_equals c = c == b'='

code_up : Str → Str
code_up s = map (λ c. c + 62) s

code_down : Str → Str
code_down s = map (λ c. c - 62) s

write_pairs : List (Str × Str) → Str
write_pairs [] = []
write_pairs ((k, v) ∷ p) = (code_up k ++ b'=' ∷ code_up v) ++ b'&' ∷ write_pairs p

-- A piece between two `&`, as a pair in front of others; it is dropped if it has no `=`.
add_pair : List Str → List (Str × Str) → List (Str × Str)
add_pair (k ∷ v ∷ []) p = (code_down k, code_down v) ∷ p
add_pair _ p = p

read_pieces : List Str → List (Str × Str)
read_pieces [] = []
read_pieces (s ∷ rest) = add_pair (split_on is_equals s) (read_pieces rest)

read_pairs : Str → List (Str × Str)
read_pairs s = read_pieces (split_on is_and s)

pub escaped : Query
escaped = record {
  Params = List (Str × Str);
  get = first_value;
  set = λ p k v. (k, v) ∷ p;
  make = λ p. p;
  text = write_pairs;
  parse = read_pairs;
}

code_back : (s : Str) → code_down (code_up s) ≡ s
unfolding code_up code_down
code_back [] = refl
code_back (c ∷ s) = let e : c + 62 - 62 ≡ c = omega arith in rw (e, code_back s) refl

module _ (sep : ℕ → Bool) where
  Avoids-append :
      (s : Str) (c : ℕ) (t : Str)
      → Avoids sep s
      → sep c ≡ false
      → Avoids sep t
      → Avoids sep (s ++ c ∷ t)
  Avoids-append [] c t h e k = (e, k)
  Avoids-append (d ∷ s) c t (g, h) e k = (g, Avoids-append s c t h e k)

code_up-Avoids_and : (s : Str) → Avoids is_and (code_up s)
unfolding code_up
code_up-Avoids_and [] = tt
code_up-Avoids_and (c ∷ s) = (ground arith, code_up-Avoids_and s)

code_up-Avoids_equals : (s : Str) → Avoids is_equals (code_up s)
unfolding code_up
code_up-Avoids_equals [] = tt
code_up-Avoids_equals (c ∷ s) = (ground arith, code_up-Avoids_equals s)

read_pair :
    (k v : Str) (p : List (Str × Str))
    → add_pair (split_on is_equals (code_up k ++ b'=' ∷ code_up v)) p ≡ (k, v) ∷ p
unfolding add_pair
read_pair k v p =
    rw
      (
        split_on-append is_equals (code_up k) b'=' (code_up v) refl,
        split_on_whole is_equals (code_up k) (code_up-Avoids_equals k),
        split_on_whole is_equals (code_up v) (code_up-Avoids_equals v),
        code_back k,
        code_back v,
      )
      refl

read_back : (p : List (Str × Str)) → read_pairs (write_pairs p) ≡ p
unfolding read_pairs write_pairs read_pieces split_on add_pair
read_back [] = refl
read_back ((k, v) ∷ p) =
    rw
      (
        split_on-append is_and (code_up k ++ b'=' ∷ code_up v) b'&' (write_pairs p) refl,
        split_on_whole is_and (code_up k ++ b'=' ∷ code_up v) (
            Avoids-append is_and (code_up k) b'=' (code_up v) (code_up-Avoids_and k) refl
              (code_up-Avoids_and v)),
      )
      (read_pair k v (read_pairs (write_pairs p)) ∙ ap (λ x. (k, v) ∷ x) (read_back p))

pub escaped-IsPrinted : IsPrinted escaped
unfolding escaped
escaped-IsPrinted = record { get-text = λ p j. ap (λ x. first_value x j) (read_back p) }
