-- ===== src/Routes/Containers/Choosing.antt =====
-- Which container the panel shows, and which containers are peers.
use instace_metric_collector.Common.{
  Str, same, same→eq, same_refl, same_comm, nonempty, is_empty, trim, Bool, Bool-clash, true, false,
  List, [], ◌∷◌, find-cases, In, here, In-keep, In-keep_intro, In_All, All, some, ◌≡◌, ◌≢◌, ◌⊎◌,
  refl, sym, ap, ◌∙◌, inl, inr, arith,
}
use instace_metric_collector.Api.Types.{ContainerInfo}
use instace_metric_collector.Routes.Containers.{
  WorkbenchState, container_matches, filtered_containers, has_id, first?, selected_container,
  select_container, containers_view,
}
use instace_metric_collector.Routes.ContainerPanel.{is_peer, peers}

first_some :
    (cs : List ContainerInfo) {x : ContainerInfo}
    → In x cs
    → (c : ContainerInfo) × (first? cs ≡ some c) × In c cs
first_some [] m = elim m [ ]
first_some (c ∷ cs) m = (c, refl, here refl)

first_In : (cs : List ContainerInfo) {c : ContainerInfo} → first? cs ≡ some c → In c cs
first_In [] e = cc
first_In (d ∷ cs) e = here (cc)

-- With a container of the id in the list, one of that id is chosen; without one, the first of the
-- list is, and none only of an empty list.
selected_cases :
    (cs : List ContainerInfo) (id : Str)
    → ((selected_container cs (some id) ≡ first? cs) × All (λ c. same c.id id ≡ false) cs)
      ⊎ ((c : ContainerInfo) × (selected_container cs (some id) ≡ some c)
          × In c cs
          × (same c.id id ≡ true))
unfolding selected_container
selected_cases cs id = elim (find-cases (has_id (some id)) cs) [
  | inl (e, h) ↦ inl (rw e refl, h)
  | inr (c, e, m, h) ↦ inr (c, rw e refl, m, h)
]

-- A click on a container, or on a peer in the panel, shows a container of that id if the search
-- leaves one in the list. If it leaves none, the panel shows the first one of the list.
pub select_container_shows :
    (lower : Str → Str) (containers : List ContainerInfo) (narrow : Bool) (id : Str)
    (s : WorkbenchState)
    → ((x : ContainerInfo)
        → In x (filtered_containers lower containers s.search)
        → x.id ≡ id
        → (c : ContainerInfo) × ((containers_view lower containers
              (select_container narrow id s)).chosen
            ≡ some c)
          × (c.id ≡ id))
      × (All (λ c. same c.id id ≡ false) (filtered_containers lower containers s.search)
          → (containers_view lower containers (select_container narrow id s)).chosen
            ≡ first? (filtered_containers lower containers s.search))
unfolding containers_view select_container
select_container_shows lower containers narrow id s =
    elim (selected_cases (filtered_containers lower containers s.search) id) [
      | inl (e, h) ↦ (
        (λ x m p.
            let k : same x.id id ≡ false = In_All (λ c. same c.id id ≡ false) _ h m in
            let j : same x.id id ≡ true = ap (same x.id) (sym p) ∙ same_refl x.id in
            absurd (Bool-clash j k)),
        λ _. e,
      )
      | inr (c, e, m, h) ↦ (
        (λ x _ _. (c, e, same→eq c.id id h)),
        λ n. absurd (Bool-clash h (In_All (λ c. same c.id id ≡ false) _ n m)),
      )
    ]

filtered_In :
    (lower : Str → Str) (containers : List ContainerInfo) (search : Str) {x : ContainerInfo}
    → is_empty (lower (trim search)) ≡ false
    → In x (filtered_containers lower containers search)
    → In x containers × (container_matches lower (lower (trim search)) x ≡ true)
unfolding filtered_containers
filtered_In lower containers search n m = In-keep _ containers (rw n at m)

-- A search that leaves the container in the panel but hides its peer makes the peer's button show
-- another container: for a peer whose id no container has that matches the search, the click shows
-- a container whose id is not the peer's.
pub hidden_peer_not_shown :
    (lower : Str → Str) (containers : List ContainerInfo) (narrow : Bool) (c p : ContainerInfo)
    (s : WorkbenchState)
    → In p (peers containers c)
    → In c (filtered_containers lower containers s.search)
    → is_empty (lower (trim s.search)) ≡ false
    → ((x : ContainerInfo)
        → In x containers
        → x.id ≡ p.id
        → container_matches lower (lower (trim s.search)) x ≡ false)
    → (other : ContainerInfo) × ((containers_view lower containers
          (select_container narrow p.id s)).chosen
        ≡ some other)
      × (other.id ≢ p.id)
unfolding containers_view select_container
hidden_peer_not_shown lower containers narrow c p s peer m n hides =
    elim (selected_cases (filtered_containers lower containers s.search) p.id) [
      | inl (e, h) ↦
          let (d, f, k) = first_some (filtered_containers lower containers s.search) m in
          (d, e ∙ f, not_p d k)
      | inr (d, e, k, h) ↦ (d, e, not_p d k)
    ]
  where
    not_p : (d : ContainerInfo) → In d (filtered_containers lower containers s.search) → d.id ≢ p.id
    not_p d k e =
        let (i, j) = filtered_In lower containers s.search n k in Bool-clash j (hides d i e)

peer_project : (c x : ContainerInfo) → is_peer c x ≡ true → x.compose_project ≡ c.compose_project
unfolding is_peer
peer_project c x h = same→eq x.compose_project c.compose_project (ground arith)

peer_id : (c x : ContainerInfo) → is_peer c x ≡ true → x.id ≢ c.id
unfolding is_peer
peer_id c x h e =
    let i : same x.id c.id ≡ false = ground arith in
    Bool-clash (ap (same x.id) (sym e) ∙ same_refl x.id) i

is_peer_symm : (c x : ContainerInfo) → is_peer c x ≡ true → is_peer x c ≡ true
unfolding is_peer
is_peer_symm c x h =
    let e : x.compose_project ≡ c.compose_project = peer_project c x h in
    let n : nonempty c.compose_project ≡ true = ap nonempty (sym e) ∙ ground arith in
    let r : same c.compose_project x.compose_project ≡ true =
      same_comm c.compose_project x.compose_project ∙ ground arith in
    let i : same c.id x.id ≡ false = same_comm c.id x.id ∙ ground arith in ground (arith, n, r, i)

-- Among the containers of the host the relation of the peers is symmetric and of one project, and
-- no container is a peer of itself.
pub peers_symm :
    (containers : List ContainerInfo) (c x : ContainerInfo)
    → In c containers
    → In x (peers containers c)
    → In c (peers containers x) × (x.compose_project ≡ c.compose_project) × (x.id ≢ c.id)
unfolding peers
peers_symm containers c x m p =
    let (k, h) = In-keep (is_peer c) containers p in
    (In-keep_intro (is_peer x) containers m (is_peer_symm c x h), peer_project c x h, peer_id c x h)
