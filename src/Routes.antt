-- ===== src/Routes.antt =====
-- The pages: go/web/frontend/src/routes, and the hooks and context that they share.
pub mod Snapshot
pub mod Hub
pub mod Alerts
pub mod Layout
pub mod Dashboard
pub mod History
pub mod HistoryWorkbench
pub mod PageView
pub mod ProcessesPage
pub mod ServicesPage
pub mod ContainersPage
pub mod Related
pub mod HubPage
pub mod AlertsPage
pub mod Query
pub mod Workbench
pub mod Containers
pub mod ContainerPanel
pub mod ContainerMetrics
pub mod Diagnostics
