-- ===== src/Domain.antt =====
-- The domain model (nightshift/domain).
pub mod Commands
pub mod Pressure
pub mod Models
pub mod StateMachine
pub mod Events
pub mod PressureMock
