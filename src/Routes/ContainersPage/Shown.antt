-- ===== src/Routes/ContainersPage/Shown.antt =====
-- Which containers the page shows, and which of them after a click.
use mathlib.Core.Path.{subst}
use instace_metric_collector.Common.{
  ℕ, Str, codes, Bool, true, false, In, Option, none, some, ◌≡◌, ◌⊎◌, refl, sym, ap, ◌∙◌,
}
use instace_metric_collector.Api.Types.{ContainerInfo, MetricsSnapshot}
use instace_metric_collector.Api.HistorySamples.{HistoryState}
use instace_metric_collector.Components.ServiceView.{page}
use instace_metric_collector.Routes.Layout.{ViewMode, live_view, history_view, HistoryView}
use instace_metric_collector.Routes.Snapshot.{Selection}
use instace_metric_collector.Routes.HistoryWorkbench.{Contexts, page_context, content_context}
use instace_metric_collector.Routes.Workbench.{workbench_page}
use instace_metric_collector.Routes.PageView.{follows_history, page_of, page_view}
use instace_metric_collector.Routes.PageView.Following.{ShowsContent, BarAt, content_source}
use instace_metric_collector.Routes.Containers.{
  WorkbenchState, WorkbenchView, filtered_containers, select_container, containers_page,
}
use instace_metric_collector.Routes.Containers.Choosing.{select_container_shows}
use instace_metric_collector.Routes.ContainersPage.{containers_content, containers_shown}

-- The page returns early as a page of its own surface does.
pub containers_page-workbench_page :
    {F : Type 0} (mode : ViewMode) (shown : Option (MetricsSnapshot F))
    → containers_page mode shown ≡ workbench_page page true mode shown
unfolding containers_page workbench_page
containers_page-workbench_page live_view none = refl
containers_page-workbench_page live_view (some snap) = refl
containers_page-workbench_page history_view none = refl
containers_page-workbench_page history_view (some snap) = refl

module _ {F : Type 0} (lower t : Str → Str) (date_ms : Str → Option ℕ) (count_text : ℕ → Str) where
  shown-page_view :
      (view : HistoryView) (cs : Contexts F) (h : HistoryState F) (sel : Selection)
      (s : WorkbenchState)
      → containers_shown lower t date_ms count_text view cs h sel s
        ≡ page_view date_ms t count_text
            (containers_content lower s)
            page
            true
            (t (codes "containers.pageTitle"))
            view
            cs
            h
            sel
  unfolding containers_shown page_view
  shown-page_view view cs h sel s =
      ap
        (λ w.
          page_of date_ms t count_text (containers_content lower s) w
            (t (codes "containers.pageTitle")) view cs h sel)
        (containers_page-workbench_page view.view_mode (page_context cs).snapshot)

  -- In the state that a click on a container leaves, whatever the mode, the live snapshot, the
  -- history and the slider are: what the page shows is the list of one snapshot, that of the list's
  -- context in the live mode and else the sample at which the slider stands; and the container in the panel has the
  -- id that was clicked on, if the snapshot has such a container that the search leaves.
  pub clicked_container_shown :
      (narrow : Bool) (id : Str) (s : WorkbenchState) (view : HistoryView) (cs : Contexts F)
      (h : HistoryState F) (sel : Selection) (v : WorkbenchView)
      → let shown =
          containers_shown lower t date_ms count_text view cs h sel
            (select_container narrow id s) in
        ShowsContent shown v
        → (snap : MetricsSnapshot F) × (v
            ≡ containers_content lower (select_container narrow id s) snap)
          × (((follows_history page view ≡ false) × ((content_context cs).snapshot ≡ some snap))
              ⊎ ((follows_history page view ≡ true) × BarAt date_ms h.samples shown snap))
          × ((x : ContainerInfo)
              → In x (filtered_containers lower snap.payload.containers s.search)
              → x.id ≡ id
              → (c : ContainerInfo) × (v.chosen ≡ some c) × (c.id ≡ id))
  unfolding containers_content
  clicked_container_shown narrow id s view cs h sel v m =
      let e = shown-page_view view cs h sel (select_container narrow id s) in
      let (snap, d, w) =
        content_source date_ms t count_text
          (containers_content lower (select_container narrow id s)) page true
          (t (codes "containers.pageTitle")) view cs h sel v (subst (λ p. ShowsContent p v) e m) in
      (
        snap,
        d,
        subst
            (λ p.
              ((follows_history page view ≡ false) × ((content_context cs).snapshot ≡ some snap))
              ⊎ ((follows_history page view ≡ true) × BarAt date_ms h.samples p snap))
            (sym e) w,
        λ x k i.
            let (c, f, g) =
              (select_container_shows lower snap.payload.containers narrow id s).0 x k i in
            (c, ap (λ y. y.chosen) d ∙ f, g),
      )
