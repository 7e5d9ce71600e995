-- ===== src/Domain/ServiceLink/Ranking.antt =====
-- The ranked lists of related processes and services.
use instace_metric_collector.Common.{
  ℕ, ◌≤◌, Str, leb, ltb, leb→le, le→leb, Bool, true, List, [], ◌∷◌, map, length, take, keep,
  length-take, length-map, In, In-keep, In-keep_intro, In-map, In-map_intro, In-take, ◌≡◌, ◌⊎◌, inl,
  inr, arith, refl,
}
use instace_metric_collector.Common.Sort.{
  sort_by, IsPreorder, IsSorted, sort_by-IsSorted, In-sort_by, sort_by-In, take_top, IsSorted-take,
  Below,
}
use instace_metric_collector.Common.Floats.{Floats}
use instace_metric_collector.Api.Types.{ProcessInfo, ServiceInfo}
use instace_metric_collector.Domain.ServiceLink.{
  Entry, Scored, or_zero, entry, finish, process_not_after, service_not_after,
  score_service_process, find_processes_for_service, find_services_for_process,
}

-- What the two functions share: the best `limit` of the entries that pass, in the order `le`.
module _ {A : Type 0} (le : Entry A → Entry A → Bool) (score : A → ℕ) (items : List A)
    (limit least : ℕ) where
  abbrev candidates : List (Entry A)
  candidates = keep (λ e. leb least e.score) (map (entry score) items)

  abbrev ranked : List (Scored A)
  ranked = map finish (take limit (sort_by le candidates))

  ranked_sound :
      (r : Scored A)
      → In r ranked
      → In r.item items × (r.score ≡ score r.item) × (least ≤ r.score) × (r.likely ≡ ltb r.score 85)
  ranked_sound r m =
      let (e, k, p) = In-map finish (take limit (sort_by le candidates)) m in
      let (j, q) =
        In-keep (λ e. leb least e.score) (map (entry score) items)
          (sort_by-In le candidates (In-take limit _ k)) in
      let (a, i, s) = In-map (entry score) items j in
      rw (p, s) (i, refl, leb→le least (score a) (rw s at q), refl)

  length-ranked : length ranked ≤ limit
  length-ranked = omega (
    arith,
    length-map finish (take limit (sort_by le candidates)),
    length-take limit (sort_by le candidates),
  )

  ranked_best :
      (o : IsPreorder le) (r : Scored A) (a : A)
      → In r ranked
      → In a items
      → least ≤ score a
      → In (finish (entry score a)) ranked ⊎ (le (entry score r.item) (entry score a) ≡ true)
  ranked_best o r a m i h =
      let (e, k, p) = In-map finish (take limit (sort_by le candidates)) m in
      let (b, j, s) =
        In-map (entry score) items
          (In-keep (λ e. leb least e.score) (map (entry score) items)
            (sort_by-In le candidates (In-take limit _ k))).0 in
      let z : In (entry score a) candidates =
        In-keep_intro (λ e. leb least e.score) (map (entry score) items)
          (In-map_intro (entry score) items i) (le→leb least (score a) h) in
      elim (take_top le limit (sort_by le candidates) (sort_by-IsSorted le o candidates) k
        (In-sort_by le candidates z)) [
          | inl q ↦ inl (In-map_intro finish _ q)
          | inr q ↦ inr (rw (p, s) (rw s at q))
        ]

-- A listed entry as it was ranked.
abbrev pub unfinish : {A : Type 0} → Scored A → Entry A
unfinish r = record { item = r.item; score = r.score }

module _ {A : Type 0} (le : Entry A → Entry A → Bool) where
  Below-finish :
      (e : Entry A) (es : List (Entry A))
      → Below le e es
      → Below (λ a b. le (unfinish a) (unfinish b)) (finish e) (map finish es)
  Below-finish e [] h = tt
  Below-finish e (f ∷ es) (p, h) = (p, Below-finish e es h)

  IsSorted-finish :
      (es : List (Entry A))
      → IsSorted le es
      → IsSorted (λ a b. le (unfinish a) (unfinish b)) (map finish es)
  IsSorted-finish [] h = tt
  IsSorted-finish (e ∷ es) (b, h) = (Below-finish e es b, IsSorted-finish es h)

service_order : IsPreorder service_not_after
service_order = record { total = λ a b h. ground arith; trans = λ a b c h k. ground arith }

module _ {F : Type 0} ⦃fl : Floats F⦄ (o : IsPreorder fl.le) where
  process_order : IsPreorder (process_not_after {F = F})
  process_order = record {
    total = λ a b h. ground (arith, o.total (or_zero b.item.cpu_usage) (or_zero a.item.cpu_usage));
    trans = λ a b c h k. ground (
      arith,
      o.trans (or_zero c.item.cpu_usage) (or_zero b.item.cpu_usage) (or_zero a.item.cpu_usage),
    );
  }

module _ {F : Type 0} (lower : Str → Str) (proc : ProcessInfo F) (services : List ServiceInfo)
    (limit least : ℕ) where
  -- The services listed for a process are at most `limit` many; each is one of the given
  -- services, with its own score, which is no less than the least one, and marked likely exactly
  -- below 85.
  pub find_services_sound :
      (length (find_services_for_process lower proc services limit least) ≤ limit)
      × ((r : Scored ServiceInfo)
          → In r (find_services_for_process lower proc services limit least)
          → In r.item services
            × (r.score ≡ score_service_process lower r.item proc)
            × (least ≤ r.score)
            × (r.likely ≡ ltb r.score 85))
  unfolding find_services_for_process
  find_services_sound = (
    length-ranked service_not_after (λ s. score_service_process lower s proc) services limit least,
    ranked_sound service_not_after (λ s. score_service_process lower s proc) services limit least,
  )

  -- A service whose score is no less than the least one is listed, or scores no more than any
  -- service that is.
  pub find_services_best :
      (r : Scored ServiceInfo) (s : ServiceInfo)
      → In r (find_services_for_process lower proc services limit least)
      → In s services
      → least ≤ score_service_process lower s proc
      → In
          (finish (entry (λ s. score_service_process lower s proc) s))
          (find_services_for_process lower proc services limit least)
        ⊎ (score_service_process lower s proc ≤ score_service_process lower r.item proc)
  unfolding find_services_for_process
  find_services_best r s m i h =
      elim (ranked_best service_not_after (λ s. score_service_process lower s proc) services limit
        least service_order r s m i h) [ inl q ↦ inl q | inr q ↦ inr (leb→le _ _ q) ]

module _ {F : Type 0} ⦃fl : Floats F⦄ (o : IsPreorder fl.le) (lower : Str → Str)
    (service : ServiceInfo) (processes : List (ProcessInfo F)) (limit least : ℕ) where
  process_not_after-le :
      (a b : Entry (ProcessInfo F)) → process_not_after a b ≡ true → b.score ≤ a.score
  process_not_after-le a b h = ground arith

  -- The measured numbers being totally preordered, the processes listed for a service are at most
  -- `limit` many; each is one of the given processes, with its own score, which is no less than
  -- the least one, and marked likely exactly below 85; and they are in descending order of score,
  -- those of one score in descending order of CPU use.
  pub find_processes_sound :
      (length (find_processes_for_service lower service processes limit least) ≤ limit)
      × ((r : Scored (ProcessInfo F))
          → In r (find_processes_for_service lower service processes limit least)
          → In r.item processes
            × (r.score ≡ score_service_process lower service r.item)
            × (least ≤ r.score)
            × (r.likely ≡ ltb r.score 85))
      × IsSorted
          (λ a b. process_not_after (unfinish a) (unfinish b))
          (find_processes_for_service lower service processes limit least)
  unfolding find_processes_for_service
  find_processes_sound = (
    length-ranked process_not_after (score_service_process lower service) processes limit least,
    ranked_sound process_not_after (score_service_process lower service) processes limit least,
    IsSorted-finish process_not_after _ (
        IsSorted-take process_not_after limit _
          (sort_by-IsSorted process_not_after (process_order o) _)),
  )

  -- A process whose score is no less than the least one is listed for a service, or scores no
  -- more than any process that is, the measured numbers being totally preordered.
  pub find_processes_best :
      (r : Scored (ProcessInfo F)) (p : ProcessInfo F)
      → In r (find_processes_for_service lower service processes limit least)
      → In p processes
      → least ≤ score_service_process lower service p
      → In
          (finish (entry (score_service_process lower service) p))
          (find_processes_for_service lower service processes limit least)
        ⊎ (score_service_process lower service p ≤ score_service_process lower service r.item)
  unfolding find_processes_for_service
  find_processes_best r p m i h =
      elim (ranked_best process_not_after (score_service_process lower service) processes limit
        least (process_order o) r p m i h) [
          | inl q ↦ inl q
          | inr q ↦ inr (
              process_not_after-le (entry (score_service_process lower service) r.item)
                (entry (score_service_process lower service) p) q)
        ]
