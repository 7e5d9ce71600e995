-- ===== src/Components/ServiceTree/Rows.antt =====
-- Which services `renderTree` shows when every branch is open.
use mathlib.Core.List.{Perm, append-nil, append_assoc, perm_middle, perm_append_comm}
use mathlib.Core.List.Perm
use mathlib.Core.Path.{subst}
use instace_metric_collector.Common.{
  ℕ, ◌+◌, Str, same, Bool, true, false, List, [], ◌∷◌, ◌++◌, keep, Option, ◌≡◌, refl, ap, sym, In,
  here, there, In-append_left, In-append_right, In-append_cases, Bool-cases, inl, inr,
  if◌then◌else◌,
}
use instace_metric_collector.Common.Sort.{sort_by, insert_by, In-sort_by}
use instace_metric_collector.Api.Types.{ServiceInfo}
use instace_metric_collector.Domain.ServiceLink.{service_domain_path}
use instace_metric_collector.Components.ServiceTree.{
  TreeNode, node, Children, leaf, child, root, update_child, extend, insert_parts, insert_service,
  insert_all, build_tree, Row, branch, service, service_rows, Group, concat, group_le, is_open_at,
  child_rows, groups_of, render_tree, children_of,
}

-- All services of a subtree, and of the subtrees of some children.
mutual
  services_of : TreeNode → List ServiceInfo
  services_of (node name full_path children services) = services ++ services_below children

  services_below : Children → List ServiceInfo
  services_below leaf = []
  services_below (child key t rest) = services_of t ++ services_below rest

abbrev shown_in : Row → List ServiceInfo → List ServiceInfo
shown_in (branch full_path name depth is_open) rest = rest
shown_in (service s depth label) rest = s ∷ rest

-- The services that rows show.
unfoldable pub shown : List Row → List ServiceInfo
shown [] = []
shown (r ∷ rows) = shown_in r (shown rows)

shown-append : (rows more : List Row) → shown (rows ++ more) ≡ shown rows ++ shown more
unfolding shown
shown-append [] more = refl
shown-append (branch f n d o ∷ rows) more = shown-append rows more
shown-append (service s d l ∷ rows) more = ap (◌∷◌ s) (shown-append rows more)

shown-service_rows :
    (depth : ℕ) (services : List ServiceInfo) → shown (service_rows depth services) ≡ services
unfolding shown service_rows
shown-service_rows depth [] = refl
shown-service_rows depth (s ∷ services) = ap (◌∷◌ s) (shown-service_rows depth services)

swap_front {ℓ} : {A : Type ℓ} (xs ys zs : List A) → Perm (xs ++ (ys ++ zs)) (ys ++ (xs ++ zs))
swap_front xs ys zs =
    rw (← append_assoc xs ys zs, ← append_assoc ys xs zs)
      (Perm.append_right zs (perm_append_comm xs ys))

-- Sorting the groups changes only the order.
module _ (le : Group → Group → Bool) where
  insert-shown :
      (g : Group) (groups : List Group)
      → Perm (shown (concat (insert_by le g groups))) (shown g.rows ++ shown (concat groups))
  unfolding insert_by concat
  insert-shown g [] = rw (shown-append g.rows []) Perm.rfl
  insert-shown g (h ∷ groups) = elim (Bool-cases (le g h)) [
    | inl e ↦ rw e (rw (shown-append g.rows (h.rows ++ concat groups)) Perm.rfl)
    | inr e ↦ rw e (
        rw
          (
            shown-append h.rows (concat (insert_by le g groups)),
            shown-append h.rows (concat groups),
          )
          (Perm.trans (Perm.append_left (shown h.rows) (insert-shown g groups))
            (swap_front (shown h.rows) (shown g.rows) (shown (concat groups)))))
  ]

  sort-shown :
      (groups : List Group) → Perm (shown (concat (sort_by le groups))) (shown (concat groups))
  unfolding sort_by concat
  sort-shown [] = Perm.rfl
  sort-shown (g ∷ groups) = rw (shown-append g.rows (concat groups)) (
      Perm.trans (insert-shown g (sort_by le groups))
        (Perm.append_left (shown g.rows) (sort-shown groups)))

-- An insertion adds the one service to its subtree.
insert-update_child :
    (part : Str) (change : TreeNode → TreeNode) (fresh : TreeNode) (s : ServiceInfo)
    → ((t : TreeNode) → Perm (services_of (change t)) (s ∷ services_of t))
    → services_of fresh ≡ []
    → (children : Children)
    → Perm (services_below (update_child part change fresh children)) (s ∷ services_below children)
unfolding update_child services_of
insert-update_child part change fresh s step new leaf =
    rw (append-nil (services_of (change fresh))) (rw new at (step fresh))
insert-update_child part change fresh s step new (child k t rest) =
    elim (Bool-cases (same k part)) [
      | inl e ↦ rw e (Perm.append_right (services_below rest) (step t))
      | inr e ↦ rw e (
          Perm.trans
            (Perm.append_left (services_of t)
              (insert-update_child part change fresh s step new rest))
            (perm_middle (services_of t) (services_below rest)))
    ]

services_of-insert_parts :
    (parts : List Str) (path : Str) (s : ServiceInfo) (t : TreeNode)
    → Perm (services_of (insert_parts parts path s t)) (s ∷ services_of t)
unfolding insert_parts services_of
services_of-insert_parts [] path s (node n f c l) =
    rw (append_assoc l (s ∷ []) (services_below c)) (perm_middle l (services_below c))
services_of-insert_parts (p ∷ ps) path s (node n f c l) =
    Perm.trans
      (Perm.append_left l (
        insert-update_child p (insert_parts ps (extend path p) s) (node p (extend path p) leaf []) s
          (services_of-insert_parts ps (extend path p) s) refl c))
      (perm_middle l (services_below c))

abbrev pub not_nil : List Str → Bool
not_nil [] = false
not_nil (p ∷ ps) = true

-- The name of a service has a part, so it has a place below the root.
abbrev pub has_path : ServiceInfo → Bool
has_path s = not_nil (service_domain_path s.service_name)

abbrev below_root : TreeNode → List ServiceInfo
below_root t = services_below (children_of t)

below-insert_parts :
    (parts : List Str) (s : ServiceInfo) (t : TreeNode)
    → Perm
        (below_root (insert_parts parts [] s t))
        ((if not_nil parts then s ∷ [] else []) ++ below_root t)
unfolding insert_parts services_of
below-insert_parts [] s (node n f c l) = Perm.rfl
below-insert_parts (p ∷ ps) s (node n f c l) =
    insert-update_child p (insert_parts ps p s) (node p p leaf []) s
      (services_of-insert_parts ps p s) refl c

below-insert_all :
    (t : TreeNode) (services : List ServiceInfo)
    → Perm (below_root (insert_all t services)) (keep has_path services ++ below_root t)
unfolding insert_all insert_service
below-insert_all t [] = Perm.rfl
below-insert_all t (s ∷ services) = Perm.trans (below-insert_all (insert_service t s) services) (
    Perm.trans
      (Perm.append_left (keep has_path services)
        (below-insert_parts (service_domain_path s.service_name) s t))
      (one_kept (has_path s) s (keep has_path services) (below_root t)))
  where
    one_kept :
        (b : Bool) (s : ServiceInfo) (kept below : List ServiceInfo)
        → Perm
            (kept ++ ((if b then s ∷ [] else []) ++ below))
            ((if b then s ∷ kept else kept) ++ below)
    one_kept true s kept below = perm_middle kept below
    one_kept false s kept below = Perm.rfl

-- Each branch among the rows is open.
abbrev pub Opened : List Row → Type 0
Opened rows =
    (path name : Str) (depth : ℕ) (is_open : Bool)
    → In (branch path name depth is_open) rows
    → is_open ≡ true

In-concat :
    {g : Group} {r : Row} (groups : List Group) → In g groups → In r g.rows → In r (concat groups)
unfolding concat
In-concat [] m k = elim m [ ]
In-concat {r = r} (h ∷ groups) (here e) k =
    In-append_left h.rows (concat groups) (subst (λ x. In r x.rows) e k)
In-concat (h ∷ groups) (there m) k = In-append_right h.rows (concat groups) (In-concat groups m k)

In-concat_elim :
    {r : Row} (groups : List Group) → In r (concat groups) → (g : Group) × In g groups × In r g.rows
unfolding concat
In-concat_elim [] m = elim m [ ]
In-concat_elim (h ∷ groups) m = elim (In-append_cases h.rows (concat groups) m) [
  | inl k ↦ (h, here refl, k)
  | inr k ↦ let (g, i, j) = In-concat_elim groups k in (g, there i, j)
]

-- The order of the groups does not matter to the rows that there are.
In-sorted :
    (le : Group → Group → Bool) (groups : List Group) {r : Row}
    → In r (concat groups)
    → In r (concat (sort_by le groups))
In-sorted le groups m =
    let (g, i, j) = In-concat_elim groups m in
    In-concat (sort_by le groups) (In-sort_by le groups i) j

module _ (name_le : Str → Str → Bool) (expanded : Str → Option Bool) where
  child_rows-open :
      (n f k : Str) (t : TreeNode) (rest : Children) (l : List ServiceInfo) (depth : ℕ)
      → is_open_at name_le expanded f depth ≡ true
      → child_rows name_le expanded (node n f (child k t rest) l) depth
        ≡ branch f n depth true
          ∷ (service_rows depth l
              ++ concat (
                  sort_by
                    (group_le name_le expanded)
                    (groups_of name_le expanded (child k t rest) (depth + 1))))
  unfolding child_rows
  child_rows-open n f k t rest l depth e = rw e refl

  branch_open :
      (n f k : Str) (t : TreeNode) (rest : Children) (l : List ServiceInfo) (depth : ℕ)
      → Opened (child_rows name_le expanded (node n f (child k t rest) l) depth)
      → is_open_at name_le expanded f depth ≡ true
  unfolding child_rows
  branch_open n f k t rest l depth h = h f n depth _ (here refl)

  mutual
    unfolding child_rows services_of shown

    child_rows-shown :
        (t : TreeNode) (depth : ℕ)
        → Opened (child_rows name_le expanded t depth)
        → Perm (shown (child_rows name_le expanded t depth)) (services_of t)
    child_rows-shown (node n f leaf l) depth h =
        rw (shown-service_rows depth l, append-nil l) Perm.rfl
    child_rows-shown (node n f (child k t rest) l) depth h =
        let e = child_rows-open n f k t rest l depth (branch_open n f k t rest l depth h) in
        let groups = groups_of name_le expanded (child k t rest) (depth + 1) in
        let below : Opened (concat groups) = (λ p m d o i. h p m d o (
          subst (λ rows. In (branch p m d o) rows) (sym e)
            (there (
              In-append_right (service_rows depth l) _
                (In-sorted (group_le name_le expanded) groups i))))) in
        subst (λ rows. Perm (shown rows) (l ++ services_below (child k t rest))) (sym e)
          (rw
            (
              shown-append (service_rows depth l)
                  (concat (sort_by (group_le name_le expanded) groups)),
              shown-service_rows depth l,
            )
            (Perm.append_left l (
              Perm.trans (sort-shown (group_le name_le expanded) groups)
                (groups_of-shown (child k t rest) (depth + 1) below))))

    groups_of-shown :
        (children : Children) (depth : ℕ)
        → Opened (concat (groups_of name_le expanded children depth))
        → Perm
            (shown (concat (groups_of name_le expanded children depth)))
            (services_below children)
    groups_of-shown leaf depth h = Perm.rfl
    groups_of-shown (child k t rest) depth h =
        rw
          (shown-append (child_rows name_le expanded t depth)
            (concat (groups_of name_le expanded rest depth)))
          (Perm.append
            (child_rows-shown t depth (λ p m d o i.
              h p m d o (In-append_left _ (concat (groups_of name_le expanded rest depth)) i)))
            (groups_of-shown rest depth
              (λ p m d o i. h p m d o (In-append_right (child_rows name_le expanded t depth) _ i))))

  -- When each branch that the tree shows is open, it shows each service once whose name has a part
  -- between its dots and slashes, and no other: one with no such part is not shown at all.
  pub render_tree-shown :
      (services : List ServiceInfo)
      → Opened (render_tree name_le expanded (build_tree services) 0)
      → Perm (shown (render_tree name_le expanded (build_tree services) 0)) (keep has_path services)
  unfolding render_tree build_tree services_below
  render_tree-shown services h =
      let groups = groups_of name_le expanded (children_of (insert_all root services)) 0 in
      Perm.trans (sort-shown (group_le name_le expanded) groups) (
        Perm.trans
          (groups_of-shown (children_of (insert_all root services)) 0
            (λ p m d o i. h p m d o (In-sorted (group_le name_le expanded) groups i)))
          (rw append-nil at (below-insert_all root services)))
