-- ===== src/Routes/Layout/Switch.antt =====
-- When the page of an agent is in the history mode.
use instace_metric_collector.Common.{
  ℕ, zero, suc, Str, same→eq, same_refl, true, false, List, [], ◌∷◌, Option, none, some, ◌≡◌, refl,
  ap, ◌∙◌, Bool-cases, inl, inr,
}
use instace_metric_collector.Domain.AgentStatus.{is_agent_offline}
use instace_metric_collector.Domain.HistorySeries.{HistoryTimeRange}
use instace_metric_collector.Routes.Layout.{
  ViewMode, set_time_range, live_view, history_view, HistoryView, set_view_mode, offline_effect,
  LayoutState, render, choose, same_status,
}

-- What can happen to the page of an agent: a render with a status, a mode chosen in the header, a
-- range chosen in the bar.
pub data LayoutEvent : Type 0 where
  rendered : Option Str → LayoutEvent
  pressed : ViewMode → LayoutEvent
  ranged : HistoryTimeRange → LayoutEvent

unfoldable pub happen : LayoutEvent → LayoutState → LayoutState
unfolding render choose
happen (rendered status) s = render status s
happen (pressed mode) s = choose mode s
happen (ranged range) s = record s { view = set_time_range range s.view }

unfoldable pub happen_all : List LayoutEvent → LayoutState → LayoutState
happen_all [] s = s
happen_all (e ∷ es) s = happen_all es (happen e s)

-- So many renders with one status.
abbrev pub again : ℕ → Option Str → List LayoutEvent
again zero status = []
again (suc n) status = rendered status ∷ again n status

-- The live mode is not chosen.
abbrev pub KeepsHistory : List LayoutEvent → Type 0
KeepsHistory [] = Unit
KeepsHistory (pressed live_view ∷ es) = ⊥
KeepsHistory (pressed history_view ∷ es) = KeepsHistory es
KeepsHistory (rendered status ∷ es) = KeepsHistory es
KeepsHistory (ranged range ∷ es) = KeepsHistory es

same_status→eq : (a b : Option Str) → same_status a b ≡ true → a ≡ b
same_status→eq none none h = refl
same_status→eq none (some t) h = cc
same_status→eq (some s) none h = cc
same_status→eq (some s) (some t) h = rw (same→eq s t h) refl

offline_effect-switched :
    (status : Option Str) (v : HistoryView)
    → is_agent_offline status ≡ true
    → (offline_effect status v).view_mode ≡ history_view
unfolding offline_effect set_view_mode
offline_effect-switched status v h = rw h refl

offline_effect-keeps :
    (status : Option Str) (v : HistoryView)
    → v.view_mode ≡ history_view
    → (offline_effect status v).view_mode ≡ history_view
unfolding offline_effect set_view_mode
offline_effect-keeps status v h = elim (Bool-cases (is_agent_offline status)) [
  | inl e ↦ rw e refl
  | inr e ↦ rw e h
]

render-history :
    (status : Option Str) (s : LayoutState)
    → s.view.view_mode ≡ history_view
    → (render status s).view.view_mode ≡ history_view
unfolding render
render-history status s h = elim (Bool-cases (same_status s.seen status)) [
  | inl e ↦ rw e h
  | inr e ↦ rw e (offline_effect-keeps status s.view h)
]

happen_all-history :
    (es : List LayoutEvent) (s : LayoutState)
    → KeepsHistory es
    → s.view.view_mode ≡ history_view
    → (happen_all es s).view.view_mode ≡ history_view
unfolding happen_all happen choose set_view_mode set_time_range
happen_all-history [] s k h = h
happen_all-history (rendered x ∷ es) s k h =
    happen_all-history es (render x s) k (render-history x s h)
happen_all-history (pressed live_view ∷ es) s k h = absurd k
happen_all-history (pressed history_view ∷ es) s k h =
    happen_all-history es (choose history_view s) k refl
happen_all-history (ranged range ∷ es) s k h =
    happen_all-history es (record s { view = set_time_range range s.view }) k h

-- When the status of an agent becomes offline or stale, its page goes to the history mode, and it
-- stays there whatever happens next, a return of the agent too, unless the live mode is chosen.
pub offline_switches :
    (s : LayoutState) (status : Option Str) (later : List LayoutEvent)
    → is_agent_offline status ≡ true
    → same_status s.seen status ≡ false
    → KeepsHistory later
    → (happen_all later (render status s)).view.view_mode ≡ history_view
unfolding render
offline_switches s status later h n k =
    happen_all-history later (render status s) k (rw n (offline_effect-switched status s.view h))

same_status_refl : (a : Option Str) → same_status a a ≡ true
same_status_refl none = refl
same_status_refl (some s) = same_refl s

render_same : (s : LayoutState) → render s.seen s ≡ s
unfolding render
render_same s = rw (same_status_refl s.seen) refl

again_same : (s : LayoutState) (n : ℕ) → happen_all (again n s.seen) s ≡ s
unfolding happen_all happen
again_same s zero = refl
again_same s (suc n) = ap (happen_all (again n s.seen)) (render_same s) ∙ again_same s n

-- Renders that bring no new status leave the live mode that was chosen.
pub live_kept :
    (s : LayoutState) (n : ℕ)
    → (happen_all (again n s.seen) (choose live_view s)).view.view_mode ≡ live_view
unfolding choose set_view_mode
live_kept s n = ap (λ u. u.view.view_mode) (again_same (choose live_view s) n)

-- If the user goes back to the live view of an agent, renders with the same status leave it;
-- the next change to a status that is offline or stale brings the history back.
pub choice_kept :
    (s : LayoutState) (status : Option Str)
    → (same_status s.seen status ≡ true
        → (render status (choose live_view s)).view.view_mode ≡ live_view)
      × (same_status s.seen status ≡ false
          → is_agent_offline status ≡ true
          → (render status (choose live_view s)).view.view_mode ≡ history_view)
unfolding render choose set_view_mode
choice_kept s status = ((λ e. rw e refl), λ e h. rw e (offline_effect-switched status _ h))
