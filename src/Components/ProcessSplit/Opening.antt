-- ===== src/Components/ProcessSplit/Opening.antt =====
-- Which process the panel beside the table shows, and which rows are marked.
use instace_metric_collector.Common.{
  ℕ, ◌==◌, ==_iff, Str, Bool, Bool-clash, true, false, List, [], ◌∷◌, map, In, In-map, In-keep,
  In-keep_intro, In_All, find-cases, Option, none, some, ◌≡◌, ◌⊎◌, inl, inr, refl, sym, ap, ◌∙◌,
}
use instace_metric_collector.Common.Sort.{In-sort_by, sort_by-In}
use instace_metric_collector.Common.Floats.{Floats}
use instace_metric_collector.Api.Types.{ServiceInfo, ProcessInfo}
use instace_metric_collector.Components.ServiceView.{SplitSurface}
use instace_metric_collector.Components.ProcessView.{
  ProcessSort, ProcessRow, has_pid, process_matches, filtered_processes, selected_process,
  is_highlighted, process_table,
}
use instace_metric_collector.Components.ProcessView.Order.{is_highlighted_iff}
use instace_metric_collector.Components.DetailPanels.{process_detail}
use instace_metric_collector.Components.ProcessSplit.{
  TableState, panel_of, process_split, is_compact,
}

-- A row without its mark.
abbrev pub unmarked : ProcessRow → ProcessRow
unmarked r = record r { is_selected = false }

same_pid : (pid : Option ℕ) (a b : ℕ) → has_pid pid a ≡ true → has_pid pid b ≡ true → a ≡ b
same_pid none a b h k = absurd (Bool-clash h refl)
same_pid (some c) a b h k = (==_iff a c).0 h ∙ sym ((==_iff b c).0 k)

module _ {F : Type 0} ⦃fl : Floats F⦄ where
  In-process_table :
      (compact : Bool) (rows : List (ProcessInfo F)) (selected : Option (ProcessInfo F))
      {r : ProcessRow}
      → In r (process_table compact rows selected)
      → (p : ProcessInfo F) × In p rows
        × (r.pid ≡ p.pid)
        × (r.is_selected ≡ is_highlighted selected p)
  unfolding process_table
  In-process_table compact rows selected m =
      let (p, k, e) = In-map _ rows m in (p, k, ap (λ r. r.pid) e, ap (λ r. r.is_selected) e)

  unmarked_table :
      (compact : Bool) (rows : List (ProcessInfo F)) (a b : Option (ProcessInfo F))
      → map unmarked (process_table compact rows a) ≡ map unmarked (process_table compact rows b)
  unfolding process_table
  unmarked_table compact [] a b = refl
  unmarked_table compact (p ∷ rows) a b = rw (unmarked_table compact rows a b) refl

  -- A pid that a row has is found.
  found_by_pid :
      (rows : List (ProcessInfo F)) (pid : ℕ) {p : ProcessInfo F}
      → In p rows
      → pid ≡ p.pid
      → (q : ProcessInfo F) × (selected_process rows (some pid) ≡ some q)
        × In q rows
        × (q.pid ≡ pid)
  unfolding selected_process
  found_by_pid rows pid {p} m e = elim (find-cases (λ x. x.pid == pid) rows) [
    | inl (n, h) ↦
        absurd (
          Bool-clash ((==_iff p.pid pid).1 (sym e)) (In_All (λ x. (x.pid == pid) ≡ false) rows h m))
    | inr (q, f, k, h) ↦ (q, f, k, (==_iff q.pid pid).0 h)
  ]

  selected_process-cases :
      (rows : List (ProcessInfo F)) (pid : Option ℕ)
      → ((selected_process rows pid ≡ none)
          × ((x : ProcessInfo F) → In x rows → has_pid pid x.pid ≡ false))
        ⊎ ((q : ProcessInfo F) × (selected_process rows pid ≡ some q)
            × In q rows
            × (has_pid pid q.pid ≡ true))
  unfolding selected_process
  selected_process-cases rows pid = elim (find-cases (λ x. has_pid pid x.pid) rows) [
    | inl (n, h) ↦ inl (n, λ x m. In_All (λ x. has_pid pid x.pid ≡ false) rows h m)
    | inr r ↦ inr r
  ]

module _ {F : Type 0} ⦃fl : Floats F⦄ (lower encode t : Str → Str)
    (name_le : Str → Str → Bool) where
  In-filtered :
      (processes : List (ProcessInfo F)) (search : Str) (s : ProcessSort) {p : ProcessInfo F}
      → In p (filtered_processes name_le lower processes search s)
      → In p processes × (process_matches lower search p ≡ true)
  unfolding filtered_processes
  In-filtered processes search s m =
      In-keep (process_matches lower search) processes (sort_by-In _ _ m)

  In-filtered_intro :
      (processes : List (ProcessInfo F)) (search : Str) (s : ProcessSort) {p : ProcessInfo F}
      → In p processes
      → process_matches lower search p ≡ true
      → In p (filtered_processes name_le lower processes search s)
  unfolding filtered_processes
  In-filtered_intro processes search s m h =
      In-sort_by _ _ (In-keep_intro (process_matches lower search) processes m h)

  -- Whichever row of the table has been clicked on, the pid selected then is that of the row: the
  -- panel shows a process of the list that has it and matches the search, the rows with that pid
  -- are marked and no other, and but for the marks the table is as it was.
  pub row_opens :
      (surface : SplitSurface) (prefix : Str) (processes : List (ProcessInfo F))
      (services : List ServiceInfo) (s : TableState) (selected : Option ℕ) (r : ProcessRow)
      → let before =
          process_split lower encode t name_le surface prefix processes services selected s in
        let after =
          process_split lower encode t name_le surface prefix processes services (some r.pid) s in
        In r before.rows
        → ((p : ProcessInfo F) × In p processes
            × (p.pid ≡ r.pid)
            × (process_matches lower s.search p ≡ true)
            × (after.detail ≡ some (process_detail lower encode t prefix p services)))
          × ((x : ProcessRow) → In x after.rows → x.is_selected ≡ (x.pid == r.pid))
          × (map unmarked after.rows ≡ map unmarked before.rows)
  unfolding process_split panel_of
  row_opens surface prefix processes services s selected r m =
      let rows = filtered_processes name_le lower processes s.search s.sort in
      let (p, k, e, _) =
        In-process_table (is_compact surface) rows (selected_process rows selected) m in
      let (q, f, i, n) = found_by_pid rows r.pid k e in
      let (j, h) = In-filtered processes s.search s.sort i in
      (
        (q, j, n, h, ap (panel_of lower encode t name_le prefix services) f),
        (λ x l.
            let (y, o, g, w) =
              In-process_table (is_compact surface) rows (selected_process rows (some r.pid)) l in
            w ∙ is_highlighted_iff rows (some r.pid) y o ∙ ap (λ c. c == r.pid) (sym g)),
        unmarked_table (is_compact surface) rows _ _,
      )

  -- When no two processes of the list have the same pid, the panel is the same in whichever order
  -- the table is, so a click on the head of a column leaves it as it is.
  pub sort_keeps_panel :
      (surface : SplitSurface) (prefix : Str) (processes : List (ProcessInfo F))
      (services : List ServiceInfo) (selected : Option ℕ) (search : Str) (a b : ProcessSort)
      → ((x y : ProcessInfo F) → In x processes → In y processes → x.pid ≡ y.pid → x ≡ y)
      → (process_split lower encode t name_le surface prefix processes services selected
          (record { search = search; sort = a })).detail
        ≡ (process_split lower encode t name_le surface prefix processes services selected
            (record { search = search; sort = b })).detail
  unfolding process_split
  sort_keeps_panel surface prefix processes services selected search a b distinct =
      ap (panel_of lower encode t name_le prefix services) same_selected
    where
      rows : ProcessSort → List (ProcessInfo F)
      rows s = filtered_processes name_le lower processes search s

      moved : (s u : ProcessSort) {p : ProcessInfo F} → In p (rows s) → In p (rows u)
      moved s u m =
          let (k, h) = In-filtered processes search s m in In-filtered_intro processes search u k h

      same_selected : selected_process (rows a) selected ≡ selected_process (rows b) selected
      same_selected = elim (selected_process-cases (rows a) selected) [
        | inl (e, h) ↦ elim (selected_process-cases (rows b) selected) [
          | inl (f, k) ↦ e ∙ sym f
          | inr (q, f, m, w) ↦ absurd (Bool-clash w (h q (moved b a m)))
        ]
        | inr (p, e, m, w) ↦ elim (selected_process-cases (rows b) selected) [
          | inl (f, k) ↦ absurd (Bool-clash w (k p (moved a b m)))
          | inr (q, f, l, v) ↦
              let (i, _) = In-filtered processes search a m in
              let (j, _) = In-filtered processes search b l in
              e ∙ ap some (distinct p q i j (same_pid selected p.pid q.pid w v)) ∙ sym f
        ]
      ]
