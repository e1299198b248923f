-- ===== src/Transforms.antt =====
-- crates/speakeasy-transforms: what is done to a transcript's text.
pub mod Snippets
