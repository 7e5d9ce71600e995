-- ===== src/Api/HistorySamples/Runs.antt =====
-- Runs of the effect, their loads in flight, and answers in any order.
pub mod Loading
use instace_metric_collector.Common.{
  ℕ, ◌+◌, ◌*◌, ◌≤◌, ◌==◌, ==_iff, not, Str, true, false, List, [], ◌∷◌, Option, none, some, In,
  here, there, ◌≡◌, ◌≢◌, ◌⊎◌, inl, inr, refl, arith, Bool-cases, if◌then◌else◌,
}
use instace_metric_collector.Api.Types.{MetricsSnapshot}
use instace_metric_collector.Api.Client.{Settled}
use instace_metric_collector.Common.Sort.{sort_by-In}
use instace_metric_collector.Domain.HistorySeries.{range_hours, sort_samples_asc}
use instace_metric_collector.Domain.HistorySeries.Laws.{filter_samples_by_range_iff}
use instace_metric_collector.Api.HistorySamples.{
  Params, asks_hub, HistoryState, initial, switched_off, load_start, read_samples, load_finish,
  load_settled,
}

-- A load in flight, with the run that began it and that run's dependencies.
pub record Load : Type 0 where
  pub run : ℕ
  pub params : Params

pub record System (F : Type 0) : Type 0 where
  pub ui : HistoryState F
  pub current : ℕ
  pub params : Params
  pub loads : List Load

unfoldable pub begin_load : {F : Type 0} → System F → System F
begin_load s = record s {
  ui = load_start s.ui;
  loads = record { run = s.current; params = s.params } ∷ s.loads;
}

-- The clean-up of the old run and the effect of the new one.
unfoldable pub rerun : {F : Type 0} → Params → System F → System F
unfolding begin_load
rerun p s =
    let off : System _ = record s { ui = switched_off s.ui; current = s.current + 1; params = p } in
    let on : System _ = record s { current = s.current + 1; params = p } in
    if p.enabled then begin_load on else off

module _ {F : Type 0} (date_ms : Str → Option ℕ) where
  unfoldable pub receive :
      Load → ℕ → Settled (Option (List (MetricsSnapshot F))) → System F → System F
  receive l now answer s = record s {
    ui = load_settled date_ms (not (l.run == s.current)) now l.params answer s.ui;
  }

  pub data Step (s : System F) : System F → Type 0 where
    changed : (p : Params) → Step s (rerun p s)
    ticked : s.params.enabled ≡ true → Step s (begin_load s)
    settled :
        (l : Load) (now : ℕ) (answer : Settled (Option (List (MetricsSnapshot F))))
        → In l s.loads
        → Step s (receive l now answer s)

  pub data Reach (p : Params) : System F → Type 0 where
    mounted : Reach p (rerun p (record { ui = initial; current = 0; params = p; loads = [] }))
    next : {s t : System F} → Reach p s → Step s t → Reach p t

  -- The loads of the current run have its dependencies, and none is of a run to come; a hook that
  -- is switched off shows nothing and has no load of its run.
  pub record IsCurrent (s : System F) : Type 0 where
    pub own :
        (l : Load)
        → In l s.loads
        → (l.run ≤ s.current)
          × (l.run ≡ s.current → (l.params ≡ s.params) × (s.params.enabled ≡ true))
    pub off :
        s.params.enabled ≡ false
        → (s.ui.samples ≡ []) × (s.ui.loading ≡ false) × (s.ui.error ≡ none)

  stale_answer :
      (l : Load) (now : ℕ) (answer : Settled (Option (List (MetricsSnapshot F)))) (s : System F)
      → (l.run == s.current) ≡ false
      → receive l now answer s ≡ s
  unfolding receive load_settled
  stale_answer l now answer s n = rw n

  own_answer :
      (l : Load) (now : ℕ) (answer : Settled (Option (List (MetricsSnapshot F)))) (s : System F)
      → (l.run == s.current) ≡ true
      → l.params ≡ s.params
      → receive l now answer s ≡ record s { ui = load_finish date_ms now s.params answer s.ui }
  unfolding receive load_settled
  own_answer l now answer s n e = rw (n, e)

  begin_load-IsCurrent :
      (s : System F) → s.params.enabled ≡ true → IsCurrent s → IsCurrent (begin_load s)
  unfolding begin_load
  begin_load-IsCurrent s e c = record { own = λ l m. begun l m; off = λ h. cc }
    where
      begun :
          (l : Load)
          → In l (record { run = s.current; params = s.params } ∷ s.loads)
          → (l.run ≤ s.current)
            × (l.run ≡ s.current → (l.params ≡ s.params) × (s.params.enabled ≡ true))
      begun l (here q) = rw q (omega arith, λ r. (refl, e))
      begun l (there m) = c.own l m

  -- The number of a new run is beyond those of all loads.
  fresh-IsCurrent :
      (s : System F) (p : Params) (ui : HistoryState F)
      → ((l : Load) → In l s.loads → l.run ≤ s.current)
      → (p.enabled ≡ false → (ui.samples ≡ []) × (ui.loading ≡ false) × (ui.error ≡ none))
      → IsCurrent (record s { ui = ui; current = s.current + 1; params = p })
  fresh-IsCurrent s p ui old off = record {
    own = λ l m. (omega (arith, old l m), λ e. absurd (omega (arith, old l m)));
    off = off;
  }

  rerun-IsCurrent :
      (p : Params) (s : System F)
      → ((l : Load) → In l s.loads → l.run ≤ s.current)
      → IsCurrent (rerun p s)
  unfolding rerun switched_off
  rerun-IsCurrent p s old = elim (Bool-cases p.enabled) [
    | inl e ↦ simp e (
        begin_load-IsCurrent (record s { current = s.current + 1; params = p }) e
          (fresh-IsCurrent s p s.ui old (λ h. cc)))
    | inr e ↦ simp e (fresh-IsCurrent s p (switched_off s.ui) old (λ h. (refl, refl, refl)))
  ]

  receive-IsCurrent :
      (l : Load) (now : ℕ) (answer : Settled (Option (List (MetricsSnapshot F)))) (s : System F)
      → In l s.loads
      → IsCurrent s
      → IsCurrent (receive l now answer s)
  receive-IsCurrent l now answer s m c = elim (Bool-cases (l.run == s.current)) [
    | inr n ↦ rw (stale_answer l now answer s n) c
    | inl n ↦
        let (e, on) = (c.own l m).1 (==→eq n) in
        rw (own_answer l now answer s n e) (record { own = c.own; off = λ h. cc })
  ]
    where
      ==→eq : {a b : ℕ} → (a == b) ≡ true → a ≡ b
      ==→eq {a} {b} h = (==_iff a b).0 h

  Step-IsCurrent : {s t : System F} → Step s t → IsCurrent s → IsCurrent t
  Step-IsCurrent {s} (changed p) c = rerun-IsCurrent p s (λ l m. (c.own l m).0)
  Step-IsCurrent {s} (ticked e) c = begin_load-IsCurrent s e c
  Step-IsCurrent {s} (settled l now answer m) c = receive-IsCurrent l now answer s m c

  -- In every state that the hook reaches, a hook that is switched off shows no samples, no error
  -- and no loading, and a load in flight of the current run asks for the current dependencies.
  pub Reach-IsCurrent : {p : Params} {s : System F} → Reach p s → IsCurrent s
  Reach-IsCurrent {p} mounted = rerun-IsCurrent p _ (λ l m. elim m [ ])
  Reach-IsCurrent (next r st) = Step-IsCurrent st (Reach-IsCurrent r)

  rerun_current : (p : Params) (s : System F) → (rerun p s).current ≡ s.current + 1
  unfolding rerun begin_load
  rerun_current p s = elim (Bool-cases p.enabled) [ inl e ↦ rw e refl | inr e ↦ rw e refl ]

  -- In every state that the hook reaches, for any load in flight: an answer to a load that was begun
  -- with another range, agent or switch than hold now changes nothing; an answer that changes
  -- anything is one to a load of the current run, begun with what holds now, and is read by it; and
  -- once the range, the agent or the switch changes, an answer to the load changes nothing.
  pub answer_is_current :
      {p : Params} {s : System F} (l : Load) (now : ℕ)
      (answer : Settled (Option (List (MetricsSnapshot F))))
      → Reach p s
      → In l s.loads
      → (l.params ≢ s.params → receive l now answer s ≡ s)
        × ((receive l now answer s ≡ s)
            ⊎ ((l.run ≡ s.current)
                × (l.params ≡ s.params)
                × (receive l now answer s
                    ≡ record s { ui = load_finish date_ms now s.params answer s.ui })))
        × ((next_params : Params)
            → receive l now answer (rerun next_params s) ≡ rerun next_params s)
  answer_is_current {s = s} l now answer r m = (
    (λ n. elim (Bool-cases (l.run == s.current)) [
      | inr e ↦ stale_answer l now answer s e
      | inl e ↦ absurd (n (own e))
    ]),
    elim (Bool-cases (l.run == s.current)) [
      | inr n ↦ inl (stale_answer l now answer s n)
      | inl n ↦ inr (run_is n, own n, own_answer l now answer s n (own n))
    ],
    λ t. stale_answer l now answer (rerun t s) (older t),
  )
    where
      run_is : (l.run == s.current) ≡ true → l.run ≡ s.current
      run_is e = (==_iff l.run s.current).0 e

      own : (l.run == s.current) ≡ true → l.params ≡ s.params
      own e = (((Reach-IsCurrent r).own l m).1 (run_is e)).0

      older : (t : Params) → (l.run == (rerun t s).current) ≡ false
      older t =
          let h : l.run ≤ s.current = ((Reach-IsCurrent r).own l m).0 in
          rw (rerun_current t s) ground arith

  -- What an agent's own page reads of an answer holds only samples of the answer whose dates are
  -- valid, not in the future and within the hours of the range.
  pub read_samples_in_range :
      (now : ℕ) (p : Params) (raw : List (MetricsSnapshot F)) (x : MetricsSnapshot F)
      → asks_hub p ≡ false
      → In x (read_samples date_ms now p (some raw))
      → In x raw
        × ((t : ℕ) × (date_ms x.collected_at ≡ some t)
            × (t ≤ now)
            × (now ≤ t + range_hours p.time_range * 3600000))
  unfolding read_samples sort_samples_asc
  read_samples_in_range now p raw x off m =
      (filter_samples_by_range_iff date_ms now raw p.time_range x).0 (sort_by-In _ _ (rw off at m))
