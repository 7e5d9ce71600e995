-- ===== src/Components/ProcessView.antt =====
-- go/web/frontend/src/components/ProcessSplitView.tsx: the search, the sorting and the selection.
-- `toLowerCase` is the parameter `lower`, `a.localeCompare(b) <= 0` the parameter `name_le`. The
-- figures come from JSON, so none is NaN, and a comparison by their difference is one by `<=`.
pub mod Order
use instace_metric_collector.Common.{
  ℕ, ◌==◌, leb, Str, String, codes, is_empty, includes, trim, show_nat, Bool, true, false, not,
  ◌&&◌, ◌||◌, List, [], ◌∷◌, map, keep, find, Option, none, some, if◌then◌else◌,
}
use instace_metric_collector.Common.Sort.{sort_by}
use instace_metric_collector.Common.Floats.{Floats}
use instace_metric_collector.Api.Types.{ProcessInfo}

pub data SortKey : Type 0 where
  by_pid by_cpu by_mem by_user : SortKey

abbrev pub key_eq : SortKey → SortKey → Bool
key_eq by_pid by_pid = true
key_eq by_cpu by_cpu = true
key_eq by_mem by_mem = true
key_eq by_user by_user = true
key_eq _ _ = false

pub record ProcessSort : Type 0 where
  pub sort_key : SortKey
  pub sort_asc : Bool

abbrev pub initial_sort : ProcessSort
initial_sort = record { sort_key = by_cpu; sort_asc = false }

unfoldable pub toggle_sort : SortKey → ProcessSort → ProcessSort
toggle_sort key s =
    if key_eq s.sort_key key
    then record s { sort_asc = not s.sort_asc }
    else record { sort_key = key; sort_asc = false }

-- A row of the table; a compact table has neither the user nor the command.
pub record ProcessRow : Type 0 where
  pub pid : ℕ
  pub user : Option Str
  pub cpu : Str
  pub memory : Str
  pub command : Option Str
  pub is_selected : Bool

abbrev unless : Bool → Str → Option Str
unless true s = none
unless false s = some s

abbrev pub has_pid : Option ℕ → ℕ → Bool
has_pid none pid = false
has_pid (some chosen) pid = pid == chosen

module _ {F : Type 0} ⦃fl : Floats F⦄ (lower : Str → Str) where
  unfoldable pub process_matches : Str → ProcessInfo F → Bool
  process_matches search p =
      let q = lower (trim search) in
      is_empty q
      || (includes (show_nat p.pid) q
          || (includes (lower p.user) q || includes (lower p.command) q))

module _ {F : Type 0} ⦃fl : Floats F⦄ (name_le : Str → Str → Bool) where
  -- `cmp <= 0`.
  unfoldable pub key_le : SortKey → ProcessInfo F → ProcessInfo F → Bool
  key_le by_pid a b = leb a.pid b.pid
  key_le by_cpu a b = fl.le a.cpu_usage b.cpu_usage
  key_le by_mem a b = fl.le a.memory_usage b.memory_usage
  key_le by_user a b = name_le a.user b.user

  -- `(sortAsc ? cmp : -cmp) <= 0`.
  unfoldable pub process_le : ProcessSort → ProcessInfo F → ProcessInfo F → Bool
  process_le s a b = if s.sort_asc then key_le s.sort_key a b else key_le s.sort_key b a

  -- The memo `filtered`.
  unfoldable pub filtered_processes :
      (Str → Str) → List (ProcessInfo F) → Str → ProcessSort → List (ProcessInfo F)
  filtered_processes lower processes search s =
      sort_by (process_le s) (keep (process_matches lower search) processes)

module _ {F : Type 0} ⦃fl : Floats F⦄ where
  unfoldable pub selected_process : List (ProcessInfo F) → Option ℕ → Option (ProcessInfo F)
  selected_process rows pid = find (λ p. has_pid pid p.pid) rows

  -- `selected?.pid === p.pid`.
  unfoldable pub is_highlighted : Option (ProcessInfo F) → ProcessInfo F → Bool
  is_highlighted none p = false
  is_highlighted (some s) p = s.pid == p.pid

  unfoldable pub process_table :
      Bool → List (ProcessInfo F) → Option (ProcessInfo F) → List ProcessRow
  process_table compact rows selected =
      map
        (λ p. record {
          pid = p.pid;
          user = unless compact p.user;
          cpu = fl.to_fixed p.cpu_usage 1;
          memory = fl.to_fixed p.memory_usage 1;
          command = unless compact p.command;
          is_selected = is_highlighted selected p;
        })
        rows
