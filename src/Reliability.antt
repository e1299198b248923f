-- ===== src/Reliability.antt =====
-- crates/speakeasy-domain/src/reliability.rs.
pub mod Faults
pub mod Degradation
pub mod Arbiter
pub mod Lifecycle
