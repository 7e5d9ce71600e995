-- ===== src/Domain/ServiceLink/Leaf.antt =====
-- The last part of a service's name, and the `.service` ending that is to be cut off it.
use instace_metric_collector.Common.{
  ℕ, Str, codes, same, split_on, Avoids, nonempty, lower_ascii, true, false, [], ◌∷◌, ◌++◌, map,
  some, last?, In_All, ◌≡◌, refl, arith, ◌==◌, ap,
}
use instace_metric_collector.Common.Text.Split.{
  split_on-Avoids, split_on-append, split_on_whole, last_of_keep, last_kept-In,
}
use instace_metric_collector.Domain.ServiceLink.{
  is_separator, strip_ending, service_ending, service_domain_path, service_tokens,
}

lower_ascii_dot : (c : ℕ) → (lower_ascii c == 46) ≡ true → is_separator c ≡ true
lower_ascii_dot c h = ground arith

not_ending :
    (c : ℕ) (s : Str)
    → is_separator c ≡ false
    → same (map lower_ascii (c ∷ s)) (codes ".service") ≡ false
unfolding same
not_ending c s h = ground (arith, lower_ascii_dot c)

-- A text without a dot has no `.service` ending.
strip_ending_of_Avoids : (p : Str) → Avoids is_separator p → strip_ending service_ending p ≡ p
unfolding strip_ending
strip_ending_of_Avoids [] h = refl
strip_ending_of_Avoids (c ∷ s) (e, h) =
    rw (not_ending c s e) (ap (◌∷◌ c) (strip_ending_of_Avoids s h))

module _ (lower : Str → Str) where
  -- Whatever the name, cutting a `.service` ending off its last part changes nothing: the name
  -- has been split at its dots, so the last part holds none.
  pub leaf_of_last :
      (name p : Str)
      → last? (service_domain_path (lower name)) ≡ some p
      → (service_tokens lower name).leaf ≡ p
  unfolding service_tokens service_domain_path
  leaf_of_last name p e =
      let pieces = split_on-Avoids is_separator (lower name) in
      let (m, k) = last_kept-In (split_on is_separator (lower name)) e in
      rw e (strip_ending_of_Avoids p (In_All (Avoids is_separator) _ pieces m))

  -- Of a service whose name in lower case ends in a dot and a text that is not empty and has no
  -- dot or slash, such as "ssh.service", the leaf, by which processes are matched, is that text
  -- ("service").
  pub leaf_of_unit :
      (name base unit : Str)
      → Avoids is_separator unit
      → nonempty unit ≡ true
      → lower name ≡ base ++ b'.' ∷ unit
      → (service_tokens lower name).leaf ≡ unit
  unfolding service_domain_path
  leaf_of_unit name base unit a k e = leaf_of_last name unit (
      rw (e, split_on-append is_separator base b'.' unit refl, split_on_whole is_separator unit a)
        (last_of_keep (split_on is_separator base) unit k))
