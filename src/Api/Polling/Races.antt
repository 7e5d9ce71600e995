-- ===== src/Api/Polling/Races.antt =====
-- `useContainerMetrics` with its requests in flight, whose answers come in any order.
use instace_metric_collector.Common.{
  erase, same_refl, Str, is_empty, true, false, List, [], ◌∷◌, Option, none, some, In, here, ◌≡◌,
  refl, if◌then◌else◌,
}
use instace_metric_collector.Api.Types.{MetricsSnapshot}
use instace_metric_collector.Api.Client.{Settled, resolved}
use instace_metric_collector.Api.Polling.{
  ContainerState, no_container, container_effect, container_settled,
}

pub record System (F : Type 0) : Type 0 where
  pub ui : ContainerState F
  pub container : Option Str
  -- The containers whose metrics are asked for, the latest first.
  pub asked : List Str

abbrev ask : Option Str → List Str → List Str
ask none asked = asked
ask (some id) asked = if is_empty id then asked else id ∷ asked

module _ {F : Type 0} where
  pub data Step (s : System F) : System F → Type 0 where
    select :
        (id : Option Str)
        → Step s (record { ui = container_effect id s.ui; container = id; asked = ask id s.asked })
    settled :
        (id : Str) (answer : Settled (Option (MetricsSnapshot F)))
        → In id s.asked
        → Step s (record s { ui = container_settled answer s.ui; asked = erase id s.asked })

  pub data Reach : System F → Type 0 where
    mounted : Reach (record { ui = no_container; container = none; asked = [] })
    next : {s t : System F} → Reach s → Step s t → Reach t

  -- For any two containers with ids that are not empty, and any snapshots of theirs, a state can
  -- be reached in which the second one is selected, nothing is loading, and the snapshot of the
  -- first one is shown as available.
  pub stale_snapshot_shown :
      (a b : Str) (snap_a snap_b : MetricsSnapshot F)
      → is_empty a ≡ false
      → is_empty b ≡ false
      → (s : System F) × Reach s
        × (s.container ≡ some b)
        × (s.ui ≡ record { snapshot = some snap_a; unavailable = false; loading = false })
  unfolding container_settled erase
  stale_snapshot_shown a b snap_a snap_b p q =
      let one = next mounted (select (some a)) in
      let two = next one (select (some b)) in
      let three = next two (settled b (resolved (some snap_b)) (rw (p, q) (here refl))) in
      let four =
        next three
          (settled a (resolved (some snap_a)) (rw (p, q) (rw (same_refl b) (here refl)))) in
      (_, four, refl, refl)

  -- When the second container's metrics are not available, the first one's stay.
  pub unavailable_keeps_snapshot :
      (a b : Str) (snap_a : MetricsSnapshot F)
      → is_empty a ≡ false
      → is_empty b ≡ false
      → (s : System F) × Reach s
        × (s.container ≡ some b)
        × (s.ui ≡ record { snapshot = some snap_a; unavailable = true; loading = false })
  unfolding container_settled container_effect erase
  unavailable_keeps_snapshot a b snap_a p q =
      let one = next mounted (select (some a)) in
      let two = next one (settled a (resolved (some snap_a)) (rw p (here refl))) in
      let three = next two (select (some b)) in
      let four = next three (settled b (resolved none) (rw q (here refl))) in (_, four, refl, rw q)
