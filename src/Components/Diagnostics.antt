-- ===== src/Components/Diagnostics.antt =====
-- go/web/frontend/src/components/DiagnosticPanel.tsx: the identity of an insight, the removal of
-- duplicates, and the texts of a card. `t` is the translation function of i18next, `show_bytes` is
-- `formatBytes` on a number that need not be whole.
pub mod Text
pub mod Shown
pub mod Upsert
pub mod Unique
pub mod Card
use instace_metric_collector.Common.{
  ℕ, ltb, ◌==◌, Str, String, codes, same, is_empty, trim, Bool, true, false, not, ◌||◌, List, [],
  ◌∷◌, ◌++◌, map, Option, none, some, or_else, if◌then◌else◌,
}
use instace_metric_collector.Common.Sort.{sort_by}
use instace_metric_collector.Common.Floats.{Floats}

-- A value of `Record<string, unknown>`. Of an object or array the text and the number that
-- `String` and `Number` make of it are given.
pub data Value (F : Type 0) : Type 0 where
  null : Value F
  bool : Bool → Value F
  num : F → Value F
  str : Str → Value F
  object : Str → F → Value F

abbrev pub Details : Type 0 → Type 0
Details F = List (Str × Value F)

pub record DiagnosticItem (F : Type 0) : Type 0 where
  pub id : Str
  pub type : Str
  pub severity : Str
  pub detected_at : Str
  pub summary_key : Str
  pub details : Option (Details F)

module _ {F : Type 0} where
  unfoldable pub entry_of : Str → Details F → Option (Value F)
  entry_of key [] = none
  entry_of key ((k, v) ∷ d) = let rest = entry_of key d in if same k key then some v else rest

  abbrev pub not_null : Option (Value F) → Option (Value F)
  not_null none = none
  not_null (some null) = none
  not_null (some (bool b)) = some (bool b)
  not_null (some (num x)) = some (num x)
  not_null (some (str s)) = some (str s)
  not_null (some (object s x)) = some (object s x)

  -- `d.key`, with `null` as missing: what `??` and `== null` see.
  unfoldable pub field : DiagnosticItem F → String → Option (Value F)
  unfolding entry_of
  field item key = not_null (entry_of (codes key) (or_else item.details []))

  abbrev pub or_other : Option (Value F) → Option (Value F) → Option (Value F)
  or_other none other = other
  or_other (some v) other = some v

module _ {F : Type 0} ⦃fl : Floats F⦄ where
  -- `String(v)` and `Number(v)`.
  unfoldable pub string_of : Value F → Str
  string_of null = codes "null"
  string_of (bool true) = codes "true"
  string_of (bool false) = codes "false"
  string_of (num x) = fl.show x
  string_of (str s) = s
  string_of (object s x) = s

  unfoldable pub number_of : Value F → F
  number_of null = fl.of_nat 0
  number_of (bool true) = fl.of_nat 1
  number_of (bool false) = fl.of_nat 0
  number_of (num x) = x
  number_of (str s) = fl.number s
  number_of (object s x) = x

  -- `String(v ?? '')`.
  abbrev pub string_or_empty : Option (Value F) → Str
  string_or_empty none = []
  string_or_empty (some v) = string_of v

  unfoldable pub diagnostic_dedupe_key : DiagnosticItem F → Str
  diagnostic_dedupe_key item =
      if same item.type (codes "DISK_FILLING")
      then item.type ++ codes "|" ++ string_or_empty (field item "mount")
      else if same item.type (codes "CONTAINER_FLAP")
      then item.type
        ++ codes "|"
        ++ string_or_empty (or_other (field item "containerId") (field item "containerName"))
      else if same item.type (codes "CONNECTIVITY_FAIL")
      then item.type ++ codes "|" ++ string_or_empty (field item "target")
      else item.type

-- `a < b` on strings: by code units.
unfoldable pub str_lt : Str → Str → Bool
str_lt [] [] = false
str_lt [] (d ∷ t) = true
str_lt (c ∷ s) [] = false
str_lt (c ∷ s) (d ∷ t) = if c == d then str_lt s t else ltb c d

module _ {F : Type 0} where
  -- One round of the loop on the `Map`: a new key goes to the end, a newer item takes the place
  -- of the one with its key.
  unfoldable pub upsert :
      Str → DiagnosticItem F → List (Str × DiagnosticItem F) → List (Str × DiagnosticItem F)
  upsert key item [] = (key, item) ∷ []
  upsert key item ((k, existing) ∷ seen) =
      let later = (k, existing) ∷ upsert key item seen in
      if same k key
      then (if str_lt existing.detected_at item.detected_at
          then (k, item) ∷ seen
          else (k, existing) ∷ seen)
      else later

  abbrev pub value_of : Str × DiagnosticItem F → DiagnosticItem F
  value_of (key, item) = item

module _ {F : Type 0} ⦃fl : Floats F⦄ where
  unfoldable pub collect :
      List (DiagnosticItem F) → List (Str × DiagnosticItem F) → List (Str × DiagnosticItem F)
  collect [] seen = seen
  collect (item ∷ items) seen = collect items (upsert (diagnostic_dedupe_key item) item seen)

  -- `locale_le x y` is `x.localeCompare(y) <= 0`; the order is descending.
  unfoldable pub dedupe_insights :
      (Str → Str → Bool) → List (DiagnosticItem F) → List (DiagnosticItem F)
  dedupe_insights locale_le items =
      sort_by (λ a b. locale_le b.detected_at a.detected_at) (map value_of (collect items []))
