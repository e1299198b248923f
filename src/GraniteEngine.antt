-- ===== src/GraniteEngine.antt =====
-- apps/desktop/src-tauri/src/granite_engine.rs: which model the app runs, the resident worker that
-- holds it, and the final pass of a dictation through it.
pub mod Throttle
pub mod Provider
pub mod Choice
pub mod Coordinator
pub mod Pass
pub mod Warming
pub mod Trusted
pub mod Sound
