-- ===== src/Metrics.antt =====
-- crates/metrics: what the server counts.
pub mod Transfer
pub mod Http
pub mod Registered
