-- ===== src/Routes/History/Parts.antt =====
-- A page of the history shows one thing at a time.
use instace_metric_collector.Common.{
  ℕ, Str, Bool, true, false, not, ◌&&◌, List, [], ◌∷◌, Option, none, some, here, ◌≡◌, inl, inr,
  refl, sym, ap, ◌∙◌, ◌↔◌, Bool-cases,
}
use instace_metric_collector.Api.Types.{MetricsSnapshot}
use instace_metric_collector.Api.Client.{resolved, rejected}
use instace_metric_collector.Api.HistorySamples.{Params, HistoryState, initial}
use instace_metric_collector.Api.HistorySamples.Runs.{Load, System, begin_load, receive}
use instace_metric_collector.Routes.Snapshot.{Selection, snapshot}
use instace_metric_collector.Routes.Snapshot.Chosen.{snapshot_shown}
use instace_metric_collector.Routes.History.{
  Part, loading_part, empty_part, content, has_error, no_samples, parts, workbench,
}

and_true : (b : Bool) → (b && true) ≡ b
and_true true = refl
and_true false = refl

and_false : (b : Bool) → (b && false) ≡ false
and_false true = refl
and_false false = refl

module _ {F C : Type 0} (drawn : C) where
  parts_empty : (s : HistoryState F) → s.samples ≡ [] → parts drawn s ≡ workbench drawn s none
  unfolding parts workbench
  parts_empty s e = rw (e, and_true s.loading) refl

  parts_full :
      (s : HistoryState F) (x y : MetricsSnapshot F) (xs : List (MetricsSnapshot F))
      → s.samples ≡ x ∷ xs
      → parts drawn s ≡ workbench drawn s (some y)
  unfolding parts workbench
  parts_full s x y xs e = rw (e, and_false s.loading, and_false (not s.loading)) refl

  -- In every state of the history and with every sample selected, the workbench shows the same
  -- parts as the history page: the error, the notices, or the content.
  pub workbench-parts :
      (date_ms : Str → Option ℕ) (s : HistoryState F) (sel : Selection)
      → workbench drawn s (snapshot date_ms s.samples sel) ≡ parts drawn s
  workbench-parts date_ms s sel = by_samples s.samples refl
    where
      at_samples :
          {xs : List (MetricsSnapshot F)}
          → s.samples ≡ xs
          → workbench drawn s (snapshot date_ms s.samples sel)
            ≡ workbench drawn s (snapshot date_ms xs sel)
      at_samples e = ap (λ ys. workbench drawn s (snapshot date_ms ys sel)) e

      by_samples :
          (xs : List (MetricsSnapshot F))
          → s.samples ≡ xs
          → workbench drawn s (snapshot date_ms s.samples sel) ≡ parts drawn s
      by_samples [] e =
          at_samples e
          ∙ ap (workbench drawn s) (snapshot_shown date_ms [] sel).1
          ∙ sym (parts_empty s e)
      by_samples (x ∷ xs) e =
          let (y, f, m) = (snapshot_shown date_ms (x ∷ xs) sel).0 x (here refl) in
          at_samples e ∙ ap (workbench drawn s) f ∙ sym (parts_full s x y xs e)

  -- In every state without an error exactly one part is shown, and it is the content exactly if
  -- there is a sample.
  pub one_part :
      (s : HistoryState F)
      → has_error s.error ≡ false
      → (part : Part C) × (parts drawn s ≡ part ∷ [])
        × ((part ≡ content drawn) ↔ (no_samples s.samples ≡ false))
  unfolding parts
  one_part s h = elim (Bool-cases (no_samples s.samples)) [
    | inl e ↦ elim (Bool-cases s.loading) [
      | inl l ↦ (loading_part, rw (h, e, l) refl, ((λ k. cc), λ k. cc))
      | inr l ↦ (empty_part, rw (h, e, l) refl, ((λ k. cc), λ k. cc))
    ]
    | inr e ↦ (
      content drawn,
      rw (h, e, and_false s.loading, and_false (not s.loading)) refl,
      ((λ k. e), λ k. refl),
    )
  ]

abbrev load_of : Params → Load
load_of p = record { run = 1; params = p }

module _ {F C : Type 0} (date_ms : Str → Option ℕ) (drawn : C) where
  abbrev one_load : Params → System F
  one_load p = begin_load (record { ui = initial; current = 1; params = p; loads = [] })

  -- The two loads in flight, the answer that is an error, and the late one that brings a sample.
  abbrev late_success : Params → MetricsSnapshot F → Str → System F
  late_success p snap message =
      receive date_ms (load_of p) 0 (resolved (some (snap ∷ [])))
        (receive date_ms (load_of p) 0 (rejected message) (begin_load (one_load p)))
