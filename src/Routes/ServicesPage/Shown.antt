-- ===== src/Routes/ServicesPage/Shown.antt =====
-- Which services the page shows.
use instace_metric_collector.Common.{
  ℕ, Str, Bool, true, false, In, Option, none, some, ◌≡◌, ◌⊎◌, ◌↔◌,
}
use instace_metric_collector.Common.Floats.{Floats}
use instace_metric_collector.Api.Types.{MetricsSnapshot}
use instace_metric_collector.Api.HistorySamples.{HistoryState}
use instace_metric_collector.Components.ServiceView.{SplitSurface}
use instace_metric_collector.Components.ServiceSplit.{SplitState, SplitView}
use instace_metric_collector.Routes.Layout.{HistoryView}
use instace_metric_collector.Routes.Snapshot.{Selection}
use instace_metric_collector.Routes.HistoryWorkbench.{Contexts, page_context, content_context}
use instace_metric_collector.Routes.Query.{Query}
use instace_metric_collector.Routes.Workbench.{selected_name}
use instace_metric_collector.Routes.PageView.{waiting_view, follows_history}
use instace_metric_collector.Routes.PageView.Following.{
  ShowsContent, BarAt, content_source, page_waits, page_shows,
}
use instace_metric_collector.Routes.ServicesPage.{services_content, services_page}

module _ {F : Type 0} ⦃fl : Floats F⦄ (lower t : Str → Str) (name_le : Str → Str → Bool) (q : Query)
    (date_ms : Str → Option ℕ) (count_text : ℕ → Str) where
  -- The page of the services waits, and chooses its snapshot, as the page of the processes does.
  pub services_page_lem :
      (surface : SplitSurface) (show_title : Bool) (view : HistoryView) (cs : Contexts F)
      (h : HistoryState F) (sel : Selection) (params : q.Params) (s : SplitState)
      → let shown =
          services_page lower t name_le q date_ms count_text surface show_title view cs h sel params
            s in
        let draw = services_content {F = F} lower t name_le (selected_name q params) s in
        ((shown ≡ waiting_view)
          ↔ ((follows_history surface view ≡ false) × ((page_context cs).snapshot ≡ none)))
        × ((v : SplitView)
            → ShowsContent shown v
            → (snap : MetricsSnapshot F) × (v ≡ draw snap)
              × (((follows_history surface view ≡ false)
                    × ((content_context cs).snapshot ≡ some snap))
                  ⊎ ((follows_history surface view ≡ true) × BarAt date_ms h.samples shown snap)))
        × ((own snap : MetricsSnapshot F)
            → follows_history surface view ≡ false
            → (page_context cs).snapshot ≡ some own
            → (content_context cs).snapshot ≡ some snap
            → ShowsContent shown (draw snap))
        × ((y : MetricsSnapshot F)
            → follows_history surface view ≡ true
            → In y h.samples
            → (v : SplitView) × ShowsContent shown v)
  unfolding services_page
  services_page_lem surface show_title view cs h sel params s = (
    page_waits date_ms t count_text _ surface show_title _ view cs h sel,
    (λ v. content_source date_ms t count_text _ surface show_title _ view cs h sel v),
    (page_shows date_ms t count_text _ surface show_title _ view cs h sel).0,
    (page_shows date_ms t count_text _ surface show_title _ view cs h sel).1,
  )
