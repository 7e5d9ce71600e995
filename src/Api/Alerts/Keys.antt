-- ===== src/Api/Alerts/Keys.antt =====
-- The key by which a silence in progress is told apart.
use mathlib.Core.Path.{ap₂}
use mathlib.Core.List.{append_assoc}
use instace_metric_collector.Common.{
  ℕ, Str, codes, Bool, false, [], ◌∷◌, ◌++◌, ◌≡◌, ◌==◌, refl, arith, sym,
}
use instace_metric_collector.Common.Text.{Avoids}
use instace_metric_collector.Api.Alerts.{silence_key}

abbrev pub is_bar : ℕ → Bool
is_bar c = c == b'|'

cons_head : {c d : ℕ} {s t : Str} → ◌≡◌ {A = Str} (c ∷ s) (d ∷ t) → c ≡ d
cons_head e = cc

cons_tail : {c d : ℕ} {s t : Str} → ◌≡◌ {A = Str} (c ∷ s) (d ∷ t) → s ≡ t
cons_tail e = cc

bar_head : (c : ℕ) → b'|' ≡ c → is_bar c ≡ false → ⊥
bar_head c e h = ground arith

-- Agents whose ids hold no bar and rules have the same key only if they are the same.
pub silence_key_injective :
    (a b r q : Str)
    → Avoids is_bar a
    → Avoids is_bar b
    → silence_key a r ≡ silence_key b q
    → (a ≡ b) × (r ≡ q)
unfolding silence_key
silence_key_injective [] [] r q h k e = (refl, cons_tail e)
silence_key_injective [] (c ∷ b) r q h k e = absurd (bar_head c (cons_head e) k.0)
silence_key_injective (c ∷ a) [] r q h k e = absurd (bar_head c (sym (cons_head e)) h.0)
silence_key_injective (c ∷ a) (d ∷ b) r q (h, hs) (k, ks) e =
    let (p, m) = silence_key_injective a b r q hs ks (cons_tail e) in (ap₂ ◌∷◌ (cons_head e) p, m)

-- With a bar in an id the key is ambiguous: moving the text behind it to the rule gives the same.
pub silence_key_ambiguous :
    (a b r : Str) → silence_key (a ++ codes "|" ++ b) r ≡ silence_key a (b ++ codes "|" ++ r)
unfolding silence_key
silence_key_ambiguous a b r = simp append_assoc
