-- ===== src/Models.antt =====
-- crates/speakeasy-models: the artifacts of the speech model.
pub mod Archive
pub mod Lifecycle
pub mod Resume
