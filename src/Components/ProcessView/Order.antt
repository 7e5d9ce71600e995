-- ===== src/Components/ProcessView/Order.antt =====
-- The rows of the process table: which they are, their order, and which of them is marked.
use mathlib.Core.List.{Perm}
use instace_metric_collector.Common.{
  ℕ, ◌==◌, ◌≤◌, ◌<◌, ◌||◌, ◌⊎◌, ◌↔◌, get_elem?, includes, is_empty, trim, show_nat, In-keep,
  In-keep_intro, Str, true, false, Bool, List, keep, find-cases, In, In_All, Option, none, some,
  ◌≡◌, refl, sym, ap, ◌∙◌, not, arith, Bool-cases, inl, inr,
}
use instace_metric_collector.Common.Sort.{
  IsPreorder, sorted_at, In-sort_by, sort_by-In, sort_by-perm, sort_by-IsSorted,
}
use instace_metric_collector.Common.Floats.{Floats}
use instace_metric_collector.Api.Types.{ProcessInfo}
use instace_metric_collector.Components.ProcessView.{
  SortKey, by_pid, by_cpu, by_mem, by_user, key_eq, toggle_sort, ProcessSort, key_le, process_le,
  process_matches, filtered_processes, selected_process, is_highlighted, has_pid,
}

or_iff : (a b : Bool) → ((a || b) ≡ true) ↔ ((a ≡ true) ⊎ (b ≡ true))
or_iff true b = ((λ e. inl refl), λ e. refl)
or_iff false b = ((λ e. inr e), λ e. elim e [ inl h ↦ cc | inr h ↦ h ])

or_right : {A : Type 0} (a b : Bool) → ((b ≡ true) ↔ A) → ((a || b) ≡ true) ↔ ((a ≡ true) ⊎ A)
or_right a b (f, g) = (
  (λ e. elim ((or_iff a b).0 e) [ inl h ↦ inl h | inr h ↦ inr (f h) ]),
  λ e. (or_iff a b).1 (elim e [ inl h ↦ inl h | inr h ↦ inr (g h) ]),
)

module _ {F : Type 0} ⦃fl : Floats F⦄ where
  -- The text searched for is blank, or stands in the pid, the user or the command.
  abbrev pub Found : (Str → Str) → Str → ProcessInfo F → Type 0
  Found lower search p =
      (is_empty (lower (trim search)) ≡ true)
      ⊎ ((includes (show_nat p.pid) (lower (trim search)) ≡ true)
          ⊎ ((includes (lower p.user) (lower (trim search)) ≡ true)
              ⊎ (includes (lower p.command) (lower (trim search)) ≡ true)))

  -- `a` may stand before `b`.
  abbrev pub Ordered : (Str → Str → Bool) → SortKey → Bool → ProcessInfo F → ProcessInfo F → Type 0
  Ordered name_le by_pid true a b = a.pid ≤ b.pid
  Ordered name_le by_pid false a b = b.pid ≤ a.pid
  Ordered name_le by_cpu true a b = fl.le a.cpu_usage b.cpu_usage ≡ true
  Ordered name_le by_cpu false a b = fl.le b.cpu_usage a.cpu_usage ≡ true
  Ordered name_le by_mem true a b = fl.le a.memory_usage b.memory_usage ≡ true
  Ordered name_le by_mem false a b = fl.le b.memory_usage a.memory_usage ≡ true
  Ordered name_le by_user true a b = name_le a.user b.user ≡ true
  Ordered name_le by_user false a b = name_le b.user a.user ≡ true

  matches_iff :
      (lower : Str → Str) (search : Str) (p : ProcessInfo F)
      → (process_matches lower search p ≡ true) ↔ Found lower search p
  unfolding process_matches
  matches_iff lower search p = or_right _ _ (or_right _ _ (or_iff _ _))

module _ {F : Type 0} ⦃fl : Floats F⦄ (name_le : Str → Str → Bool) where
  key_le-IsPreorder :
      IsPreorder fl.le
      → IsPreorder name_le
      → (key : SortKey) → IsPreorder (key_le {F = F} name_le key)
  unfolding key_le
  key_le-IsPreorder f n by_pid = record {
    total = λ a b h. ground arith;
    trans = λ a b c h k. ground arith;
  }
  key_le-IsPreorder f n by_cpu = record {
    total = λ a b. f.total a.cpu_usage b.cpu_usage;
    trans = λ a b c. f.trans a.cpu_usage b.cpu_usage c.cpu_usage;
  }
  key_le-IsPreorder f n by_mem = record {
    total = λ a b. f.total a.memory_usage b.memory_usage;
    trans = λ a b c. f.trans a.memory_usage b.memory_usage c.memory_usage;
  }
  key_le-IsPreorder f n by_user = record {
    total = λ a b. n.total a.user b.user;
    trans = λ a b c. n.trans a.user b.user c.user;
  }

  process_le-IsPreorder :
      IsPreorder fl.le
      → IsPreorder name_le
      → (s : ProcessSort) → IsPreorder (process_le {F = F} name_le s)
  unfolding process_le
  process_le-IsPreorder f n s = elim (Bool-cases s.sort_asc) [
    | inl e ↦ rw e (key_le-IsPreorder f n s.sort_key)
    | inr e ↦
        let o = key_le-IsPreorder f n s.sort_key in
        rw e (record { total = λ a b. o.total b a; trans = λ a b c h k. o.trans c b a k h })
  ]

  process_le-Ordered :
      (key : SortKey) (asc : Bool) (a b : ProcessInfo F)
      → process_le name_le (record { sort_key = key; sort_asc = asc }) a b ≡ true
      → Ordered name_le key asc a b
  unfolding process_le key_le
  process_le-Ordered by_pid true a b h = ground arith
  process_le-Ordered by_pid false a b h = ground arith
  process_le-Ordered by_cpu true a b h = h
  process_le-Ordered by_cpu false a b h = h
  process_le-Ordered by_mem true a b h = h
  process_le-Ordered by_mem false a b h = h
  process_le-Ordered by_user true a b h = h
  process_le-Ordered by_user false a b h = h

  -- Whatever the search and the order chosen, the table has a process exactly if it was delivered
  -- and the text searched for, without the spaces around it and in lower case, is empty or stands in
  -- the digits of its pid, or in its user or command in lower case; it has each as often as it was
  -- delivered; and of any two rows the earlier one has, by the column chosen, the smaller pid, share
  -- of the processor or of the memory, or user if the order is ascending, and the larger one if it is
  -- descending, or the same. It is supposed that numbers and names are compared by total preorders.
  pub filtered_processes_lem :
      IsPreorder fl.le
      → IsPreorder name_le
      → (lower : Str → Str) (processes : List (ProcessInfo F)) (search : Str) (s : ProcessSort)
      → let rows = filtered_processes name_le lower processes search s in
        ((p : ProcessInfo F) → In p rows ↔ (In p processes × Found lower search p))
        × Perm rows (keep (process_matches lower search) processes)
        × ((i j : ℕ) (a b : ProcessInfo F)
            → i < j
            → get_elem? rows i ≡ some a
            → get_elem? rows j ≡ some b
            → Ordered name_le s.sort_key s.sort_asc a b)
  unfolding filtered_processes
  filtered_processes_lem f n lower processes search s = (
    (λ p. (
      (λ m.
          let (k, e) =
            In-keep (process_matches lower search) processes
              (sort_by-In (process_le name_le s) _ m) in
          (k, (matches_iff lower search p).0 e)),
      λ (k, e). In-sort_by (process_le name_le s) _ (
          In-keep_intro (process_matches lower search) processes k
            ((matches_iff lower search p).1 e)),
    )),
    sort_by-perm _ (keep (process_matches lower search) processes),
    λ i j a b h k m. process_le-Ordered s.sort_key s.sort_asc a b (
        sorted_at (process_le name_le s) _
          (sort_by-IsSorted _ (process_le-IsPreorder f n s)
            (keep (process_matches lower search) processes))
          i j h k m),
  )

module _ {F : Type 0} ⦃fl : Floats F⦄ where
  -- Of the rows shown, those are marked whose pid is the selected one, and no other.
  pub is_highlighted_iff :
      (rows : List (ProcessInfo F)) (pid : Option ℕ) (p : ProcessInfo F)
      → In p rows
      → is_highlighted (selected_process rows pid) p ≡ has_pid pid p.pid
  unfolding selected_process is_highlighted
  is_highlighted_iff rows none p m = elim (find-cases (λ p. has_pid none p.pid) rows) [
    | inl (e, h) ↦ rw e refl
    | inr (q, e, k, h) ↦ cc
  ]
  is_highlighted_iff rows (some c) p m = elim (find-cases (λ p. p.pid == c) rows) [
    | inl (e, h) ↦ rw e (sym (In_All (λ p. (p.pid == c) ≡ false) rows h m))
    | inr (q, e, k, h) ↦ rw e ground arith
  ]

key_eq_refl : (key : SortKey) → key_eq key key ≡ true
key_eq_refl by_pid = refl
key_eq_refl by_cpu = refl
key_eq_refl by_mem = refl
key_eq_refl by_user = refl

key_eq→eq : (a b : SortKey) → key_eq a b ≡ true → a ≡ b
key_eq→eq by_pid by_pid h = refl
key_eq→eq by_cpu by_cpu h = refl
key_eq→eq by_mem by_mem h = refl
key_eq→eq by_user by_user h = refl
key_eq→eq _ _ h = cc

toggle_key : (key : SortKey) (s : ProcessSort) → (toggle_sort key s).sort_key ≡ key
unfolding toggle_sort
toggle_key key s = elim (Bool-cases (key_eq s.sort_key key)) [
  | inl e ↦ rw e (key_eq→eq s.sort_key key e)
  | inr e ↦ rw e refl
]

toggle_again :
    (key : SortKey) (s : ProcessSort)
    → s.sort_key ≡ key
    → toggle_sort key s ≡ record s { sort_asc = not s.sort_asc }
unfolding toggle_sort
toggle_again key s e =
    let k : key_eq s.sort_key key ≡ true = ap (λ c. key_eq c key) e ∙ key_eq_refl key in rw k refl

module _ {F : Type 0} ⦃fl : Floats F⦄ (name_le : Str → Str → Bool) where
  reversed :
      (s : ProcessSort) (a b : ProcessInfo F)
      → process_le name_le (record s { sort_asc = not s.sort_asc }) a b ≡ process_le name_le s b a
  unfolding process_le
  reversed s a b = elim (Bool-cases s.sort_asc) [ inl e ↦ rw e refl | inr e ↦ rw e refl ]

  -- After a click on the head of a column the table is in the order of that column, whatever its
  -- order was before, and a second click reverses that order; a click on another column than the
  -- one in force begins with the descending order.
  pub toggle_sort_lem :
      (key : SortKey) (s : ProcessSort)
      → ((toggle_sort key s).sort_key ≡ key)
        × ((a b : ProcessInfo F)
            → process_le name_le (toggle_sort key (toggle_sort key s)) a b
              ≡ process_le name_le (toggle_sort key s) b a)
        × (key_eq s.sort_key key ≡ false
            → (a b : ProcessInfo F)
            → process_le name_le (toggle_sort key s) a b ≡ key_le name_le key b a)
  unfolding process_le toggle_sort
  toggle_sort_lem key s = (
    toggle_key key s,
    (λ a b.
        ap (λ t. process_le name_le t a b) (toggle_again key (toggle_sort key s) (toggle_key key s))
        ∙ reversed (toggle_sort key s) a b),
    λ e a b. rw e refl,
  )
