-- ===== src/Session.antt =====
-- The dictation session: crates/speakeasy-domain/src/state.rs and coordinator.rs.
pub mod Phase
pub mod Reducer
pub mod Run
pub mod Invariant
pub mod Ordering
pub mod History
