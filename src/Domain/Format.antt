-- ===== src/Domain/Format.antt =====
-- go/web/frontend/src/lib/format.ts. The argument of `formatBytes` is a size in bytes, below
-- 2^53: dividing a double by 1024 is then exact, so the value `v` of the loop is kept as the
-- fraction bytes / den, and `toFixed(1)` rounds that fraction to the nearest tenth, halves up.
pub mod Laws
use instace_metric_collector.Common.{
  ℕ, zero, suc, ◌+◌, ◌*◌, ◌/◌, ◌%◌, Str, String, codes, show_nat, includes, ltb, leb, Bool, ◌&&◌,
  ◌||◌, ◌++◌, ◌∷◌, [], List, Option, none, some, get_elem?, or_else, if◌then◌else◌,
}
use instace_metric_collector.Common.Floats.{Floats}
use instace_metric_collector.Api.Types.{ContainerInfo}

abbrev pub units : List Str
units = codes "KB" ∷ codes "MB" ∷ codes "GB" ∷ codes "TB" ∷ []

-- The `do … while`: after the body has run, the value is bytes / den and the unit is `i`. The
-- index grows to 3 at most, so four rounds are enough.
scale : ℕ → ℕ → ℕ → ℕ → ℕ × ℕ
scale zero bytes den i = (den, i)
scale (suc rounds) bytes den i =
    let next = scale rounds bytes (den * 1024) (i + 1) in
    if leb (den * 1024) bytes && ltb i 3 then next else (den, i)

-- The denominator and the unit with which the loop ends.
unfoldable pub unit_of : ℕ → ℕ × ℕ
unfolding scale
unit_of bytes = scale 4 bytes 1024 0

-- The tenths of num / den that `toFixed(1)` shows.
unfoldable pub tenths : ℕ → ℕ → ℕ
tenths num den = (20 * num + den) / (2 * den)

unfoldable pub fixed1 : ℕ → Str
fixed1 n = show_nat (n / 10) ++ codes "." ++ show_nat (n % 10)

unfoldable pub format_bytes : ℕ → Str
format_bytes bytes =
    let (den, i) = unit_of bytes in
    if ltb bytes 1024
    then show_nat bytes ++ codes " B"
    else fixed1 (tenths bytes den) ++ codes " " ++ or_else (get_elem? units i) []

unfoldable pub format_percent : {F : Type 0} ⦃fl : Floats F⦄ → F → Str
format_percent ⦃fl⦄ n = fl.to_fixed n 1 ++ codes "%"

-- A date is a text that the locale prints.
unfoldable pub format_time : {D : Type 0} → (D → Str → Str) → Option D → Str → Str
format_time to_locale_time none locale = codes "—"
format_time to_locale_time (some d) locale = to_locale_time d locale

unfoldable pub is_agent_container : (Str → Str) → ContainerInfo → Bool
is_agent_container lower c =
    let hay = lower (c.name ++ codes " " ++ c.image) in
    includes hay (codes "metrics-collector") || includes hay (codes "metric-collector")
