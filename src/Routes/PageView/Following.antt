-- ===== src/Routes/PageView/Following.antt =====
-- Which snapshot a page shows.
use mathlib.Core.Path.{subst}
use instace_metric_collector.Common.{
  Bool-clash, ℕ, Str, Bool, true, false, ◌&&◌, List, Option, none, some, In, ◌≡◌, ◌⊎◌, ◌↔◌, refl,
  sym, ap, ◌∙◌, inl, inr, if◌then◌else◌,
}
use instace_metric_collector.Api.Types.{MetricsSnapshot}
use instace_metric_collector.Api.HistorySamples.{HistoryState}
use instace_metric_collector.Components.ServiceView.{SplitSurface, page, container_detail}
use instace_metric_collector.Routes.Layout.{ViewMode, live_view, history_view, HistoryView}
use instace_metric_collector.Routes.Snapshot.{Selection}
use instace_metric_collector.Routes.History.{Part, content}
use instace_metric_collector.Routes.HistoryWorkbench.{Contexts, page_context, content_context}
use instace_metric_collector.Routes.HistoryWorkbench.Source.{IsAt, bench_source, bench_content}
use instace_metric_collector.Routes.Workbench.{
  is_page, is_history, WorkbenchPage, waiting_page, plain_content, in_workbench, workbench_page,
}
use instace_metric_collector.Routes.PageView.{
  PageView, waiting_view, bare_view, bench_view, page_content, title_if, follows_history, page_of,
  page_view,
}

-- `c` is what the page shows as its content.
abbrev pub ShowsContent : {C : Type 0} → PageView C → C → Type 0
ShowsContent waiting_view c = ⊥
ShowsContent (bare_view shown) c = shown ≡ some c
ShowsContent (bench_view bench) c = In (content (some c)) bench.body

-- The bar of the frame, if there is one, stands at the snapshot.
abbrev pub BarAt :
    {F C : Type 0}
    → (Str → Option ℕ)
    → List (MetricsSnapshot F)
    → PageView C
    → MetricsSnapshot F
    → Type 0
BarAt date_ms samples waiting_view snap = ⊥
BarAt date_ms samples (bare_view shown) snap = ⊥
BarAt date_ms samples (bench_view bench) snap = IsAt date_ms samples bench.bar snap

In-BarAt :
    {F C : Type 0} (date_ms : Str → Option ℕ) (samples : List (MetricsSnapshot F))
    (shown : PageView C) (snap : MetricsSnapshot F)
    → BarAt date_ms samples shown snap
    → In snap samples
In-BarAt date_ms samples waiting_view snap h = absurd h
In-BarAt date_ms samples (bare_view shown) snap h = absurd h
In-BarAt date_ms samples (bench_view bench) snap h = h.0

-- A page that follows the history shows a sample that was delivered.
pub In-followed :
    {F C : Type 0} (date_ms : Str → Option ℕ) (samples : List (MetricsSnapshot F))
    (surface : SplitSurface) (view : HistoryView) {live : Option (MetricsSnapshot F)}
    (shown : PageView C) (snap : MetricsSnapshot F)
    → follows_history surface view ≡ true
    → ((follows_history surface view ≡ false) × (live ≡ some snap))
      ⊎ ((follows_history surface view ≡ true) × BarAt date_ms samples shown snap)
    → In snap samples
In-followed date_ms samples surface view shown snap f (inl (n, e)) = absurd (Bool-clash f n)
In-followed date_ms samples surface view shown snap f (inr (g, at)) =
    In-BarAt date_ms samples shown snap at

drawn_of :
    {F C : Type 0} (draw : MetricsSnapshot F → C) (shown : Option (MetricsSnapshot F)) (c : C)
    → some c ≡ page_content draw shown
    → (snap : MetricsSnapshot F) × (shown ≡ some snap) × (c ≡ draw snap)
unfolding page_content
drawn_of draw none c e = cc
drawn_of draw (some snap) c e = (snap, refl, cc)

-- Which pages a surface has, and when it waits.
Fits : SplitSurface → WorkbenchPage → Type 0
Fits surface waiting_page = Unit
Fits surface plain_content = is_page surface ≡ false
Fits surface (in_workbench has_title) = is_page surface ≡ true

module _ {F : Type 0} where
  workbench_page-Fits :
      (surface : SplitSurface) (show_title : Bool) (mode : ViewMode)
      (shown : Option (MetricsSnapshot F))
      → Fits surface (workbench_page surface show_title mode shown)
  unfolding Fits workbench_page
  workbench_page-Fits container_detail show_title mode none = tt
  workbench_page-Fits container_detail show_title mode (some s) = refl
  workbench_page-Fits page show_title live_view none = tt
  workbench_page-Fits page show_title live_view (some s) = refl
  workbench_page-Fits page show_title history_view shown = refl

  workbench_page-waits :
      (surface : SplitSurface) (show_title : Bool) (mode : ViewMode)
      (shown : Option (MetricsSnapshot F))
      → (workbench_page surface show_title mode shown ≡ waiting_page)
        ↔ (((is_page surface && is_history mode) ≡ false) × (shown ≡ none))
  unfolding workbench_page
  workbench_page-waits container_detail show_title mode none = ((λ e. (refl, refl)), λ e. refl)
  workbench_page-waits container_detail show_title mode (some s) = ((λ e. cc), λ (e, f). cc)
  workbench_page-waits page show_title live_view none = ((λ e. (refl, refl)), λ e. refl)
  workbench_page-waits page show_title live_view (some s) = ((λ e. cc), λ (e, f). cc)
  workbench_page-waits page show_title history_view shown = ((λ e. cc), λ (e, f). cc)

  with_snapshot :
      (surface : SplitSurface) (show_title : Bool) (mode : ViewMode) (snap : MetricsSnapshot F)
      {shown : Option (MetricsSnapshot F)}
      → shown ≡ some snap
      → workbench_page surface show_title mode shown
        ≡ (if is_page surface then in_workbench show_title else plain_content)
  unfolding workbench_page
  with_snapshot container_detail show_title mode snap e = rw e refl
  with_snapshot page show_title live_view snap e = rw e refl
  with_snapshot page show_title history_view snap e = refl

  of_history :
      (show_title : Bool) (mode : ViewMode) (shown : Option (MetricsSnapshot F))
      → is_history mode ≡ true
      → workbench_page page show_title mode shown ≡ in_workbench show_title
  unfolding workbench_page
  of_history show_title live_view shown e = cc
  of_history show_title history_view shown e = refl

history-of_mode :
    (surface : SplitSurface) (view : HistoryView)
    → (is_page surface ≡ false → follows_history surface view ≡ false)
      × (view.view_mode ≡ live_view → follows_history surface view ≡ false)
      × (is_page surface ≡ true
          → view.view_mode ≡ history_view
          → follows_history surface view ≡ true)
history-of_mode container_detail view = ((λ e. refl), (λ e. refl), λ e f. e)
history-of_mode page view = ((λ e. cc), (λ e. rw e refl), λ e f. rw f refl)

module _ {F C : Type 0} (date_ms : Str → Option ℕ) (t : Str → Str) (count_text : ℕ → Str)
    (draw : MetricsSnapshot F → C) where
  source_of :
      (w : WorkbenchPage) (surface : SplitSurface) (title : Str) (view : HistoryView)
      (cs : Contexts F) (h : HistoryState F) (sel : Selection) (c : C)
      → Fits surface w
      → let shown = page_of date_ms t count_text draw w title view cs h sel in
        ShowsContent shown c
        → (snap : MetricsSnapshot F) × (c ≡ draw snap)
          × (((follows_history surface view ≡ false) × ((content_context cs).snapshot ≡ some snap))
              ⊎ ((follows_history surface view ≡ true) × BarAt date_ms h.samples shown snap))
  unfolding page_of Fits
  source_of waiting_page surface title view cs h sel c f m = absurd m
  source_of plain_content surface title view cs h sel c f m =
      let (snap, e, k) = drawn_of draw (content_context cs).snapshot c (sym m) in
      (snap, k, inl ((history-of_mode surface view).0 f, e))
  source_of (in_workbench b) surface title view cs h sel c f m =
      elim (bench_source date_ms t count_text (λ x. page_content draw x.snapshot) (title_if b title)
        view (content_context cs) h sel (some c) m) [
          | inl (l, e) ↦
              let (snap, k, d) = drawn_of draw (content_context cs).snapshot c e in
              (snap, d, inl ((history-of_mode surface view).1 l, k))
          | inr (l, (x, e, (y, g, at))) ↦
              let (snap, k, d) = drawn_of draw x.snapshot c e in
              let same : snap ≡ y = some_inj (sym k ∙ g) in
              (snap, d, inr ((history-of_mode surface view).2 f l, rw same at))
        ]
    where
      some_inj : {a b : MetricsSnapshot F} → some a ≡ some b → a ≡ b
      some_inj e = cc

  -- A content that the page shows is drawn of one snapshot: of the history if the page follows it,
  -- and else of the content's context.
  pub content_source :
      (surface : SplitSurface) (show_title : Bool) (title : Str) (view : HistoryView)
      (cs : Contexts F) (h : HistoryState F) (sel : Selection) (c : C)
      → let shown = page_view date_ms t count_text draw surface show_title title view cs h sel in
        ShowsContent shown c
        → (snap : MetricsSnapshot F) × (c ≡ draw snap)
          × (((follows_history surface view ≡ false) × ((content_context cs).snapshot ≡ some snap))
              ⊎ ((follows_history surface view ≡ true) × BarAt date_ms h.samples shown snap))
  unfolding page_view
  content_source surface show_title title view cs h sel c =
      source_of (workbench_page surface show_title view.view_mode (page_context cs).snapshot)
        surface title view cs h sel c
        (workbench_page-Fits surface show_title view.view_mode (page_context cs).snapshot)

  waits_of :
      (w : WorkbenchPage) (title : Str) (view : HistoryView) (cs : Contexts F) (h : HistoryState F)
      (sel : Selection)
      → (page_of date_ms t count_text draw w title view cs h sel ≡ waiting_view)
        ↔ (w ≡ waiting_page)
  unfolding page_of
  waits_of waiting_page title view cs h sel = ((λ e. refl), λ e. refl)
  waits_of plain_content title view cs h sel = ((λ e. cc), λ e. cc)
  waits_of (in_workbench b) title view cs h sel = ((λ e. cc), λ e. cc)

  -- The page waits exactly if it does not follow the history and its own context has no snapshot.
  pub page_waits :
      (surface : SplitSurface) (show_title : Bool) (title : Str) (view : HistoryView)
      (cs : Contexts F) (h : HistoryState F) (sel : Selection)
      → (page_view date_ms t count_text draw surface show_title title view cs h sel ≡ waiting_view)
        ↔ ((follows_history surface view ≡ false) × ((page_context cs).snapshot ≡ none))
  unfolding page_view
  page_waits surface show_title title view cs h sel =
      let (a, b) =
        waits_of (workbench_page surface show_title view.view_mode (page_context cs).snapshot) title
          view cs h sel in
      let (c, d) =
        workbench_page-waits surface show_title view.view_mode (page_context cs).snapshot in
      ((λ e. c (a e)), λ e. b (d e))

  Drawn : HistoryView → Contexts F → HistoryState F → PageView C → Type 0
  Drawn view cs h shown =
      ((snap : MetricsSnapshot F)
        → (content_context cs).snapshot ≡ some snap
        → is_history view.view_mode ≡ false
        → ShowsContent shown (draw snap))
      × ((y : MetricsSnapshot F)
          → In y h.samples
          → is_history view.view_mode ≡ true
          → (c : C) × ShowsContent shown c)

  page_of-Drawn :
      (b : Bool) (title : Str) (view : HistoryView) (cs : Contexts F) (h : HistoryState F)
      (sel : Selection)
      → Drawn view cs h (page_of date_ms t count_text draw (in_workbench b) title view cs h sel)
  unfolding Drawn page_of page_content
  page_of-Drawn b title view cs h sel =
      let (live, old) =
        bench_content date_ms t count_text (λ x. page_content draw x.snapshot) (title_if b title)
          view (content_context cs) h sel in
      (
        (λ snap e f. subst_content (ap (page_content draw) e) (live (live_of view.view_mode f))),
        λ y m f.
            let (x, k, (z, e)) = old (history_of view.view_mode f) y m in
            (draw z, subst_content (ap (page_content draw) e) k),
      )
    where
      subst_content :
          {body : List (Part (Option C))} {a b : Option C}
          → a ≡ b
          → In (content a) body
          → In (content b) body
      subst_content e k = rw (← e) k

      live_of : (mode : ViewMode) → is_history mode ≡ false → mode ≡ live_view
      live_of live_view e = refl
      live_of history_view e = cc

      history_of : (mode : ViewMode) → is_history mode ≡ true → mode ≡ history_view
      history_of live_view e = cc
      history_of history_view e = refl

  shows_at :
      (w : WorkbenchPage) (surface : SplitSurface) (show_title : Bool) (title : Str)
      (view : HistoryView) (cs : Contexts F) (h : HistoryState F) (sel : Selection) (c : C)
      → workbench_page surface show_title view.view_mode (page_context cs).snapshot ≡ w
      → ShowsContent (page_of date_ms t count_text draw w title view cs h sel) c
      → ShowsContent (page_view date_ms t count_text draw surface show_title title view cs h sel) c
  unfolding page_view
  shows_at w surface show_title title view cs h sel c e m =
      subst (λ u. ShowsContent (page_of date_ms t count_text draw u title view cs h sel) c) (sym e)
        m

  -- The page has a content once the history has a sample, if it follows the history, and else once
  -- its context and that of its content have a snapshot.
  pub page_shows :
      (surface : SplitSurface) (show_title : Bool) (title : Str) (view : HistoryView)
      (cs : Contexts F) (h : HistoryState F) (sel : Selection)
      → let shown = page_view date_ms t count_text draw surface show_title title view cs h sel in
        ((own snap : MetricsSnapshot F)
          → follows_history surface view ≡ false
          → (page_context cs).snapshot ≡ some own
          → (content_context cs).snapshot ≡ some snap
          → ShowsContent shown (draw snap))
        × ((y : MetricsSnapshot F)
            → follows_history surface view ≡ true
            → In y h.samples
            → (c : C) × ShowsContent shown c)
  unfolding Drawn page_of page_content
  page_shows container_detail show_title title view cs h sel = (
    (λ own snap f k e.
        shows_at plain_content container_detail show_title title view cs h sel (draw snap)
          (with_snapshot container_detail show_title view.view_mode own k)
          (ap (page_content draw) e)),
    λ y f m. cc,
  )
  page_shows page show_title title view cs h sel =
      let (live, old) = page_of-Drawn show_title title view cs h sel in
      (
        (λ own snap f k e.
            shows_at (in_workbench show_title) page show_title title view cs h sel (draw snap)
              (with_snapshot page show_title view.view_mode own k) (live snap e f)),
        λ y f m.
            let (c, k) = old y m f in
            (
              c,
              shows_at (in_workbench show_title) page show_title title view cs h sel c
                  (of_history show_title view.view_mode (page_context cs).snapshot f) k,
            ),
      )
