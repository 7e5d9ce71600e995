-- ===== src/Domain.antt =====
-- The pure functions under go/web/frontend/src/lib.
pub mod AgentStatus
pub mod Format
pub mod HistorySeries
pub mod ServiceLink
