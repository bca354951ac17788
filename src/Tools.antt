-- ===== src/Tools.antt =====
-- The development tools (the directory tools).
pub mod Vectors
pub mod Contract
