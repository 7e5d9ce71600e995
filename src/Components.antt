-- ===== src/Components.antt =====
-- The components under go/web/frontend/src/components, as what they compute and show.
pub mod ServiceTree
pub mod Diagnostics
pub mod Tabs
pub mod Bars
pub mod ProcessView
pub mod ServiceView
pub mod ServiceSplit
pub mod MasterDetail
pub mod ProcessSplit
pub mod DetailPanels
pub mod TimeBar
pub mod TrendChart
pub mod CopyButton
