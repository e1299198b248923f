-- ===== src/Tests.antt =====
-- The theorems at concrete inputs, and runs of the definitions, one child for each part.
mod Session
mod Activation
mod Archive
mod Dictation
mod Reliability
mod Vad
mod Format
mod Ring
mod Processing
mod Finalization
mod Verdict
mod GraniteEngine
mod Models
mod Delivery
mod Snippets
