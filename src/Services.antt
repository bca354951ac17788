-- ===== src/Services.antt =====
-- The services (nightshift/services).
pub mod Executor
pub mod Tasks
pub mod Notices
pub mod Confirmations
pub mod Orchestrator
