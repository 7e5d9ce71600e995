-- ===== src/Api.antt =====
-- The client of the HTTP API: its types, the fetch wrappers, and the hooks that poll it.
pub mod Types
pub mod Client
pub mod Alerts
pub mod AlertConfig
pub mod HistorySamples
pub mod Metrics
pub mod Polling
