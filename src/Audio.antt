-- ===== src/Audio.antt =====
-- crates/speakeasy-audio: capture and voice activity.
pub mod Discontinuity
pub mod Format
pub mod Processing
pub mod Ring
pub mod Vad
pub mod Window
