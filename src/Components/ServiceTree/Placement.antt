-- ===== src/Components/ServiceTree/Placement.antt =====
-- Where `insertService` puts the services: the tree is a map from paths to lists of services.
use mathlib.Core.List.{append-nil, append_assoc}
use instace_metric_collector.Common.{
  Str, same, same→eq, same_refl, Bool, true, false, ◌&&◌, List, [], ◌∷◌, ◌++◌, keep, ◌≡◌, refl, sym,
  ap, ◌∙◌, Bool-cases, inl, inr, if◌then◌else◌,
}
use instace_metric_collector.Api.Types.{ServiceInfo}
use instace_metric_collector.Domain.ServiceLink.{service_domain_path}
use instace_metric_collector.Components.ServiceTree.{
  TreeNode, node, Children, leaf, child, root, update_child, extend, insert_parts, insert_service,
  insert_all, build_tree,
}

-- The first child of the key, if there is one.
in_child : Str → (TreeNode → List ServiceInfo) → Children → List ServiceInfo
in_child part look leaf = []
in_child part look (child key t rest) =
    let later = in_child part look rest in if same key part then look t else later

-- The services of the node that a path leads to.
pub services_at : List Str → TreeNode → List ServiceInfo
services_at [] (node name full_path children services) = services
services_at (part ∷ parts) (node name full_path children services) =
    in_child part (services_at parts) children

pub same_path : List Str → List Str → Bool
same_path [] [] = true
same_path [] (q ∷ qs) = false
same_path (p ∷ ps) [] = false
same_path (p ∷ ps) (q ∷ qs) = same p q && same_path ps qs

other_key : (k part key : Str) → same k part ≡ false → same k key ≡ true → same part key ≡ false
other_key k part key e f = elim (Bool-cases (same part key)) [
  | inl h ↦
      let p : k ≡ part = same→eq k key f ∙ sym (same→eq part key h) in
      let q : same k part ≡ true = rw p (same_refl part) in cc
  | inr h ↦ h
]

module _ (part key : Str) (look : TreeNode → List ServiceInfo) (change : TreeNode → TreeNode)
    (fresh : TreeNode) (extra : List ServiceInfo) where
  in_child-update_child :
      (same part key ≡ true → (t : TreeNode) → look (change t) ≡ look t ++ extra)
      → look fresh ≡ []
      → (children : Children)
      → in_child key look (update_child part change fresh children)
        ≡ in_child key look children ++ (if same part key then extra else [])
  unfolding in_child update_child
  in_child-update_child step new leaf = elim (Bool-cases (same part key)) [
    | inl e ↦ rw e (step e fresh ∙ ap (λ l. l ++ extra) new)
    | inr e ↦ rw e
  ]
  in_child-update_child step new (child k t rest) = elim (Bool-cases (same k part)) [
    | inl e ↦
        rw (e, same→eq k part e)
          (elim (Bool-cases (same part key)) [
            | inl f ↦ rw f (step f t)
            | inr f ↦ rw f (sym (append-nil (in_child key look rest)))
          ])
    | inr e ↦ rw e (elim (Bool-cases (same k key)) [
      | inl f ↦ rw (f, other_key k part key e f) (sym (append-nil (look t)))
      | inr f ↦ rw f (in_child-update_child step new rest)
    ])
  ]

nothing_at :
    (parts : List Str) (name full_path : Str) → services_at parts (node name full_path leaf []) ≡ []
unfolding services_at in_child
nothing_at [] name full_path = refl
nothing_at (p ∷ ps) name full_path = refl

-- An insertion adds the service at the end of the list at its path, and changes no other list.
services_at-insert_parts :
    (parts query : List Str) (path : Str) (s : ServiceInfo) (t : TreeNode)
    → services_at query (insert_parts parts path s t)
      ≡ services_at query t ++ (if same_path parts query then s ∷ [] else [])
unfolding services_at insert_parts same_path
services_at-insert_parts [] [] path s (node n f c l) = refl
services_at-insert_parts [] (q ∷ qs) path s (node n f c l) = sym (append-nil _)
services_at-insert_parts (p ∷ ps) [] path s (node n f c l) = sym (append-nil _)
services_at-insert_parts (p ∷ ps) (q ∷ qs) path s (node n f c l) =
    in_child-update_child p q (services_at qs) (insert_parts ps (extend path p) s)
      (node p (extend path p) leaf []) (if same_path ps qs then s ∷ [] else [])
      (λ e t. services_at-insert_parts ps qs (extend path p) s t) (nothing_at qs p (extend path p))
      c
    ∙ ap (λ l. in_child q (services_at qs) c ++ l) (both (same p q) (same_path ps qs))
  where
    both :
        (a b : Bool)
        → (if a then (if b then s ∷ [] else []) else []) ≡ (if a && b then s ∷ [] else [])
    both true b = refl
    both false b = refl

one_more :
    (b : Bool) (found : List ServiceInfo) (s : ServiceInfo) (rest : List ServiceInfo)
    → (found ++ (if b then s ∷ [] else [])) ++ rest ≡ found ++ (if b then s ∷ rest else rest)
one_more true found s rest = append_assoc found (s ∷ []) rest
one_more false found s rest = ap (λ l. l ++ rest) (append-nil found)

services_at-insert_all :
    (query : List Str) (t : TreeNode) (services : List ServiceInfo)
    → services_at query (insert_all t services)
      ≡ services_at query t
        ++ keep (λ s. same_path (service_domain_path s.service_name) query) services
unfolding insert_all insert_service
services_at-insert_all query t [] = sym (append-nil _)
services_at-insert_all query t (s ∷ services) =
    let rest = keep (λ x. same_path (service_domain_path x.service_name) query) services in
    services_at-insert_all query (insert_service t s) services
    ∙ ap (λ l. l ++ rest)
        (services_at-insert_parts (service_domain_path s.service_name) query [] s t)
    ∙ one_more (same_path (service_domain_path s.service_name) query) (services_at query t) s rest

-- The tree refines a map from paths to lists: the node at a path holds exactly the services whose
-- name splits into that path, in the order in which they were given.
pub services_at-build_tree :
    (query : List Str) (services : List ServiceInfo)
    → services_at query (build_tree services)
      ≡ keep (λ s. same_path (service_domain_path s.service_name) query) services
unfolding build_tree
services_at-build_tree query services =
    services_at-insert_all query root services
    ∙ ap (λ l. l ++ keep (λ s. same_path (service_domain_path s.service_name) query) services)
        (nothing_at query [] [])
