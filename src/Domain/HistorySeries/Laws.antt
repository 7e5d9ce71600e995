-- ===== src/Domain/HistorySeries/Laws.antt =====
-- Sorting and filtering of samples, and the series that the charts draw.
use mathlib.Core.List.{Perm}
use instace_metric_collector.Common.{
  ℕ, ◌+◌, ◌*◌, ◌≤◌, Str, leb, true, List, [], ◌∷◌, map, Option, none, some, All, In, here, there,
  In-keep, In-map, ap, not, All-mono, In-keep_intro, or_else, ◌≡◌, ◌↔◌, refl, arith, Bool-cases,
  inl, inr,
}
use instace_metric_collector.Common.Sort.{
  IsSorted, IsPreorder, sort_by-perm, sort_by-IsSorted, sort_by_congr,
}
use instace_metric_collector.Common.Floats.{Floats}
use instace_metric_collector.Api.Types.{MetricsSnapshot, DiskUsageInfo}
use instace_metric_collector.Domain.HistorySeries.{
  HistoryTimeRange, range_hours, history_range_bounds, larger, maximum, max_of_disks,
  max_disk_percent, not_after, within, sort_samples_asc, filter_samples_by_range, disk_series,
  HistoryPoint,
}

within_iff :
    (now : ℕ) (range : HistoryTimeRange) (o : Option ℕ)
    → (within (history_range_bounds now range) o ≡ true)
      ↔ ((t : ℕ) × (o ≡ some t) × (t ≤ now) × (now ≤ t + range_hours range * 3600000))
unfolding history_range_bounds
within_iff now range none = ((λ h. cc), λ (t, e, a, b). cc)
within_iff now range (some u) =
    ((λ h. (u, refl, ground arith, ground arith)), λ (t, e, a, b). ground arith)

pub leb-IsPreorder {ℓ} : {A : Type ℓ} (key : A → ℕ) → IsPreorder (λ a b. leb (key a) (key b))
leb-IsPreorder key = record { total = λ a b h. ground arith; trans = λ a b c h k. ground arith }

module _ {F : Type 0} (date_ms : Str → Option ℕ) where
  abbrev pub IsDated : MetricsSnapshot F → Type 0
  IsDated s = (t : ℕ) × (date_ms s.collected_at ≡ some t)

  -- The instant of a sample, for one that has one.
  abbrev pub instant : MetricsSnapshot F → ℕ
  instant s = or_else (date_ms s.collected_at) 0

  not_after-instant :
      (a b : MetricsSnapshot F)
      → IsDated a
      → IsDated b
      → not_after (date_ms a.collected_at) (date_ms b.collected_at) ≡ leb (instant a) (instant b)
  not_after-instant a b (t, p) (u, q) = rw (p, q)

  -- Sorting samples whose dates are valid loses and invents none, and leaves every sample at or
  -- before each later one in time.
  pub sort_samples_asc_sorts :
      (samples : List (MetricsSnapshot F))
      → All IsDated samples
      → Perm (sort_samples_asc date_ms samples) samples
        × IsSorted (λ a b. leb (instant a) (instant b)) (sort_samples_asc date_ms samples)
  unfolding sort_samples_asc
  sort_samples_asc_sorts samples d = (
    sort_by-perm _ samples,
    rw (sort_by_congr _ (λ a b. leb (instant a) (instant b)) IsDated not_after-instant samples d)
        (sort_by-IsSorted _ (leb-IsPreorder instant) samples),
  )

  -- A sample is kept by the range filter exactly when it is one of the samples, its date is
  -- valid, it is not in the future, and it is no older than the hours of the range.
  pub filter_samples_by_range_iff :
      (now : ℕ) (samples : List (MetricsSnapshot F)) (range : HistoryTimeRange)
      (s : MetricsSnapshot F)
      → In s (filter_samples_by_range date_ms now samples range) ↔ (
          In s samples
          × ((t : ℕ) × (date_ms s.collected_at ≡ some t)
              × (t ≤ now)
              × (now ≤ t + range_hours range * 3600000)))
  unfolding filter_samples_by_range
  filter_samples_by_range_iff now samples range s = (
    (λ m.
        let (k, h) = In-keep _ samples m in
        (k, (within_iff now range (date_ms s.collected_at)).0 h)),
    λ (m, q). In-keep_intro _ samples m ((within_iff now range (date_ms s.collected_at)).1 q),
  )

-- What the order on numbers gives: `<` is the failure of `>=`, and `<=` is a total preorder.
pub record IsOrdered {F : Type 0} (fl : Floats F) : Type 0 where
  pub lt_le : (a b : F) → fl.lt a b ≡ not (fl.le b a)
  pub preorder : IsPreorder fl.le

module _ {F : Type 0} ⦃fl : Floats F⦄ (o : IsOrdered fl) where
  le_refl : (a : F) → fl.le a a ≡ true
  le_refl a = elim (Bool-cases (fl.le a a)) [ inl e ↦ e | inr e ↦ o.preorder.total a a e ]

  larger_bounds : (a b : F) → (fl.le a (larger a b) ≡ true) × (fl.le b (larger a b) ≡ true)
  larger_bounds a b = elim (Bool-cases (fl.lt a b)) [
    | inl e ↦ rw e (o.preorder.total b a (ground (arith, o.lt_le a b)), le_refl b)
    | inr e ↦ rw e (le_refl a, ground (arith, o.lt_le a b))
  ]

  -- The largest of some numbers is at or above each of them, and is one of them.
  pub maximum_lem :
      (x : F) (xs : List F)
      → All (λ y. fl.le y (maximum x xs) ≡ true) (x ∷ xs) × In (maximum x xs) (x ∷ xs)
  unfolding maximum
  maximum_lem x [] = ((le_refl x, tt), here refl)
  maximum_lem x (y ∷ ys) =
      let (all, m) = maximum_lem y ys in
      let (left, right) = larger_bounds x (maximum y ys) in
      (
        (left, All-mono _ _ (λ z h. o.preorder.trans z _ _ h right) (y ∷ ys) all),
        elim (Bool-cases (fl.lt x (maximum y ys))) [
          | inl e ↦ rw e (there m)
          | inr e ↦ rw e (here refl)
        ],
      )

  All-of_map :
      {A : Type 0} (f : A → F) (m : F) (xs : List A)
      → All (λ y. fl.le y m ≡ true) (map f xs)
      → All (λ a. fl.le (f a) m ≡ true) xs
  All-of_map f m [] h = tt
  All-of_map f m (x ∷ xs) (p, h) = (p, All-of_map f m xs h)

  max_of_disks_bound :
      (ds : List (DiskUsageInfo F)) → All (λ d. fl.le d.use_percent (max_of_disks ds) ≡ true) ds
  unfolding max_of_disks
  max_of_disks_bound [] = tt
  max_of_disks_bound (d ∷ ds) =
      let (all, m) = maximum_lem d.use_percent (map (λ e. e.use_percent) ds) in
      (all.0, All-of_map (λ e. e.use_percent) _ ds all.1)

  -- For numbers ordered as `IsOrdered` says, every point of the disk chart belongs to one of the
  -- samples: it stands at the time of that sample, its value is positive, and every disk of the
  -- sample is used at most so much.
  pub disk_series_points :
      (samples : List (MetricsSnapshot F)) (p : HistoryPoint F)
      → In p (disk_series samples)
      → (s : MetricsSnapshot F) × In s samples
        × (p.at ≡ s.collected_at)
        × (fl.lt (fl.of_nat 0) p.value ≡ true)
        × All (λ d. fl.le d.use_percent p.value ≡ true) s.payload.disk_usage
  unfolding disk_series max_disk_percent
  disk_series_points samples p m =
      let (k, positive) = In-keep _ (map _ samples) m in
      let (s, inside, e) = In-map _ samples k in
      (
        s,
        inside,
        ap (λ (q : HistoryPoint F). q.at) e,
        positive,
        rw (ap (λ (q : HistoryPoint F). q.value) e) (max_of_disks_bound s.payload.disk_usage),
      )
