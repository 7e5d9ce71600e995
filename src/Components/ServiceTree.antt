-- ===== src/Components/ServiceTree.antt =====
-- The tree of services in go/web/frontend/src/components/ServiceSplitView.tsx: `insertService`
-- and `renderTree`. The `Map` of children is a list in the order of insertion; a node's children
-- are a type of their own, since a type holds no list of itself.
pub mod Placement
pub mod Rows
use instace_metric_collector.Common.{
  ℕ, zero, suc, ◌+◌, ltb, Str, String, codes, same, is_empty, Bool, true, false, List, [], ◌∷◌,
  ◌++◌, map, Option, none, some, or_else, last?, if◌then◌else◌,
}
use instace_metric_collector.Common.Sort.{sort_by}
use instace_metric_collector.Api.Types.{ServiceInfo}
use instace_metric_collector.Domain.ServiceLink.{service_domain_path}

mutual
  pub data TreeNode : Type 0 where
    node : (name full_path : Str) → Children → List ServiceInfo → TreeNode

  pub data Children : Type 0 where
    leaf : Children
    child : (key : Str) → TreeNode → Children → Children

abbrev pub root : TreeNode
root = node [] [] leaf []

-- `if (!children.has(part)) children.set(part, fresh)`, and then the child is changed.
unfoldable pub update_child : Str → (TreeNode → TreeNode) → TreeNode → Children → Children
update_child part change fresh leaf = child part (change fresh) leaf
update_child part change fresh (child key t rest) =
    let later = child key t (update_child part change fresh rest) in
    if same key part then child key (change t) rest else later

abbrev pub extend : Str → Str → Str
extend path part = if is_empty path then part else path ++ codes "." ++ part

-- The loop over the parts that are left, at the node and the path reached so far.
unfoldable pub insert_parts : List Str → Str → ServiceInfo → TreeNode → TreeNode
insert_parts [] path service (node name full_path children services) =
    node name full_path children (services ++ service ∷ [])
insert_parts (part ∷ parts) path service (node name full_path children services) =
    let path' = extend path part in
    node name full_path
      (update_child part (insert_parts parts path' service) (node part path' leaf []) children)
      services

unfoldable pub insert_service : TreeNode → ServiceInfo → TreeNode
insert_service tree service =
    insert_parts (service_domain_path service.service_name) [] service tree

insert_all : TreeNode → List ServiceInfo → TreeNode
insert_all tree [] = tree
insert_all tree (s ∷ services) = insert_all (insert_service tree s) services

-- The memo `tree`.
unfoldable pub build_tree : List ServiceInfo → TreeNode
unfolding insert_all
build_tree services = insert_all root services

unfoldable pub service_leaf_name : Str → Str
service_leaf_name name = or_else (last? (service_domain_path name)) name

pub data Row : Type 0 where
  branch : (full_path name : Str) (depth : ℕ) (is_open : Bool) → Row
  service : ServiceInfo → (depth : ℕ) (label : Str) → Row

unfoldable pub service_rows : ℕ → List ServiceInfo → List Row
service_rows depth = map (λ s. service s depth (service_leaf_name s.service_name))

abbrev pub name_of : TreeNode → Str
name_of (node name full_path children services) = name

abbrev pub children_of : TreeNode → Children
children_of (node name full_path children services) = children

-- The rows of one child, with its name for the sorting.
pub record Group : Type 0 where
  pub name : Str
  pub rows : List Row

unfoldable pub concat : List Group → List Row
concat [] = []
concat (g ∷ groups) = g.rows ++ concat groups

-- `a.name.localeCompare(b.name) <= 0` is the parameter `name_le`; `expanded` is the state.
module _ (name_le : Str → Str → Bool) (expanded : Str → Option Bool) where
  abbrev pub group_le : Group → Group → Bool
  group_le a b = name_le a.name b.name

  abbrev pub is_open_at : Str → ℕ → Bool
  is_open_at full_path depth = or_else (expanded full_path) (ltb depth 2)

  -- The rows of the children do not depend on their order, so they are made before the sort.
  unfoldable mutual
    unfolding service_rows concat

    pub child_rows : TreeNode → ℕ → List Row
    child_rows (node name full_path leaf services) depth = service_rows depth services
    child_rows (node name full_path (child key t rest) services) depth =
        let open_rows =
          service_rows depth services
          ++ concat (sort_by group_le (groups_of (child key t rest) (depth + 1))) in
        branch full_path name depth (is_open_at full_path depth)
        ∷ (if is_open_at full_path depth then open_rows else [])

    pub groups_of : Children → ℕ → List Group
    groups_of leaf depth = []
    groups_of (child key t rest) depth =
        record { name = name_of t; rows = child_rows t depth } ∷ groups_of rest depth

  unfoldable pub render_tree : TreeNode → ℕ → List Row
  unfolding child_rows
  render_tree tree depth = concat (sort_by group_le (groups_of (children_of tree) depth))
