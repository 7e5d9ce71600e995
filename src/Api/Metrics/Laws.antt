-- ===== src/Api/Metrics/Laws.antt =====
-- What the followed agent's state means, and when the first page stops loading.
use instace_metric_collector.Common.{
  ℕ, Str, true, false, List, [], ◌∷◌, Option, none, some, ◌≡◌, ◌⊎◌, inl, inr, ◌↔◌, refl,
}
use instace_metric_collector.Api.Types.{MetricsSnapshot, MetaResponse}
use instace_metric_collector.Api.Client.{Settled, resolved, rejected}
use instace_metric_collector.Api.Metrics.{
  MetricsState, initial, handle, run, Event, answered, streamed, stream_failed, initial_meta,
  meta_settled, is_loading,
}

module _ {F : Type 0} (date_ms : Str → Option ℕ) where
  -- Live only with a snapshot, and the time of the last update is that of the snapshot shown.
  abbrev pub IsFollowing : MetricsState F → Type 0
  IsFollowing s =
      ((s.snapshot ≡ none) × (s.live ≡ false) × (s.last_update ≡ none))
      ⊎ ((snap : MetricsSnapshot F) × (s.snapshot ≡ some snap)
          × (s.last_update ≡ some (date_ms snap.collected_at)))

  handle-IsFollowing :
      (e : Event F) (s : MetricsState F) → IsFollowing s → IsFollowing (handle date_ms e s)
  unfolding handle
  handle-IsFollowing (answered (resolved none)) s h = h
  handle-IsFollowing (answered (resolved (some snap))) s h = inr (snap, refl, refl)
  handle-IsFollowing (answered (rejected m)) s (inl (a, b, c)) = inl (a, refl, c)
  handle-IsFollowing (answered (rejected m)) s (inr (p, a, b)) = inr (p, a, b)
  handle-IsFollowing (streamed none) s h = h
  handle-IsFollowing (streamed (some snap)) s h = inr (snap, refl, refl)
  handle-IsFollowing stream_failed s (inl (a, b, c)) = inl (a, refl, c)
  handle-IsFollowing stream_failed s (inr (p, a, b)) = inr (p, a, b)

  run_from-IsFollowing :
      (es : List (Event F)) (s : MetricsState F) → IsFollowing s → IsFollowing (run date_ms es s)
  unfolding run
  run_from-IsFollowing [] s h = h
  run_from-IsFollowing (e ∷ es) s h =
      run_from-IsFollowing es (handle date_ms e s) (handle-IsFollowing e s h)

  -- Whatever the answers, stream messages and stream errors, in whatever order: either there is
  -- no snapshot, and then the agent is not live and has no last update, or the last update is the
  -- time of the snapshot that is shown.
  pub run-IsFollowing : (es : List (Event F)) → IsFollowing (run date_ms es initial)
  unfolding initial
  run-IsFollowing es = run_from-IsFollowing es initial (inl (refl, refl, refl))

-- After the answer the first page is loading still exactly when the request failed with an error
-- whose message is empty.
pub is_loading_iff :
    (a : Settled (Option MetaResponse))
    → (is_loading (meta_settled a initial_meta) ≡ true) ↔ (a ≡ rejected [])
unfolding is_loading meta_settled
is_loading_iff (resolved none) = ((λ h. cc), λ e. cc)
is_loading_iff (resolved (some m)) = ((λ h. cc), λ e. cc)
is_loading_iff (rejected []) = ((λ h. refl), λ e. refl)
is_loading_iff (rejected (c ∷ m)) = ((λ h. cc), λ e. cc)
