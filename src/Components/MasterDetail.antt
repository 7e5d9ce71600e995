-- ===== src/Components/MasterDetail.antt =====
-- go/web/frontend/src/components/layout/MasterDetailLayout.tsx, which places a list and the panel of
-- its selection, and hooks/useScrollDetailOnSelect.ts, which scrolls to that panel.
use instace_metric_collector.Common.{String, Bool, not, ◌&&◌}
use instace_metric_collector.Components.ServiceView.{SplitSurface, page, container_detail}

pub data MasterRatio : Type 0 where
  sixty_forty fifty_five : MasterRatio

unfoldable pub ratio_class : MasterRatio → String
ratio_class sixty_forty = "lg:grid-cols-[minmax(0,3fr)_minmax(0,2fr)]"
ratio_class fifty_five = "lg:grid-cols-[minmax(0,55%)_minmax(0,45%)]"

-- The list above the panel, or beside it with the columns of a class.
pub data Frame : Type 0 where
  list_above : Frame
  list_beside : (columns : String) → Frame

unfoldable pub master_detail : SplitSurface → MasterRatio → Frame
unfolding ratio_class
master_detail container_detail ratio = list_above
master_detail page ratio = list_beside (ratio_class ratio)

-- `afterSelect`: whether the panel, which is mounted, is scrolled into view. There is a window in a
-- browser, and it is wide from 1024 pixels on.
unfoldable pub after_select : (has_window is_wide : Bool) → Bool
after_select has_window is_wide = has_window && not is_wide
