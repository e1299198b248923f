-- ===== src/Lib.antt =====
-- SpeakEasy Mini: the core of a local dictation app for Windows, modelled from its Rust sources.
--
-- A dictation starts and stops by the activation reducer, moves through the phases of the session
-- reducer, and its finished recording is sent by the batch final pass, over the link to a worker
-- process, to the speech engine; the text comes back the same way. Parts and files:
--
-- - Base, Text: shared helpers; text as code points, with `split_whitespace` and `join(" ")`.
-- - Session (crates/speakeasy-domain/src/state.rs, coordinator.rs): `begin_session` and `apply` of
--   the `Reducer`. A method on `&mut self` returns the new state. An id of 16 bytes is the number
--   that its bytes spell, the lowest first; the `BTreeMap` of producers is an association list.
-- - Activation (crates/speakeasy-domain/src/activation.rs): the `ActivationReducer`; its methods
--   `start`, `stop` and `vad_endpoint` are `start_as`, `stop_for` and `vad_stop`.
-- - Reliability (crates/speakeasy-domain/src/reliability.rs): the decision for each failure, the
--   arbiter of exclusive operations, the lifecycle controller, and the script of injected faults,
--   whose `take` is `take_fault`.
-- - Audio (crates/speakeasy-audio/src/callback.rs, vad.rs, crates/speakeasy-domain/src/audio.rs): the
--   ring of captured blocks, whose `write` is `begin_write` and a `write_block` for each round of its
--   loop; and the detector of speech, its floats and its inference being parameters.
-- - Protocol (crates/speakeasy-domain/src/worker_protocol.rs): commands, events, `validate`. A sample
--   is of a type `S` that stands for f32, with `is_finite` as a function.
-- - GraniteWorker (workers/granite-worker/src/main.rs): the worker process; each handler of a command
--   is `on_` and its name. Files, engine and build are a `Host`, given to each request, since their
--   answers may change; a panic is `none`.
-- - FinalPass (crates/speakeasy-worker/src/lib.rs): `WorkerFinalAdapter::run` and
--   `BatchFinalPass::run` over any connection; what `check_active` sees is a `Moment` for each call.
-- - Finalization (crates/speakeasy-worker/src/finalization.rs): the queue of finished recordings, its
--   threads as atomic actions in any interleaving.
-- - Verdict (crates/speakeasy-worker/src/verdict.rs): whether a transcript is fit to deliver.
-- - Delivery (crates/speakeasy-delivery/src/lib.rs, crates/speakeasy-windows/src/commit.rs, input.rs):
--   where a transcript may go, the wait for the keys to be released, and the paste itself. What is
--   asked of Windows goes through a `Desktop`, which may answer anything, and into a log.
-- - Link (crates/speakeasy-windows/src/worker_process.rs): `ProcessWorkerClient::request` and
--   `receive_until`, joined to the model of the worker. What the cancel token and the clock say, and
--   when responses come, is a `Wait` for each request.
-- - Audio/Format (crates/speakeasy-audio/src/format.rs): `negotiate_native_format` and the downmix.
-- - Audio/Processing (crates/speakeasy-audio/src/processing.rs): the worker behind the ring, with the
--   resampler, the pre-roll and the utterance. `AudioWorker` has no consumer and no block of its own:
--   they are those of the ring's `System`, which is passed with it. A scratch buffer is its number of
--   places; the bytes of a sample's metadata and what is computed with floats are parameters.
-- - Models (crates/speakeasy-models/src/lifecycle.rs, resume.rs): the tables of install and runtime
--   states; `DownloadPolicy::validate` and `validate_resume_response`; in Models/Archive
--   `validate_archive_plan`, on paths as lists of components.
-- - Transforms (crates/speakeasy-transforms/src/snippets.rs): `SnippetSet::new` and
--   `SnippetSet::resolve`, on texts as code points. Unicode's normal forms and lower case are
--   parameters.
-- - GraniteEngine (apps/desktop/src-tauri/src/granite_engine.rs, with `CrashThrottle` of
--   crates/speakeasy-windows/src/lib.rs and `select_sole_install_eligible` of
--   crates/speakeasy-models/src/selection.rs): which pack is run, the resident worker, the quarantine,
--   and the final pass of a dictation. What the probe, the files and the worker process answer during
--   a call is a `Situation`; the calls made of them go into a log, the newest first.
-- - Tests: each theorem at a concrete input, and runs of the definitions.
--
-- Fuel: draining the ring at the end of an utterance takes one round more than blocks are held; the
-- wait for the keys takes a fuel, for which the polls that fit before the deadline, and one more,
-- are enough; `slice::chunks` recurs on the length of its list, which is enough since each frame
-- takes at least one sample. The rounds in which a request waits are listed up
-- to the deadline, which has passed after them. All other loops are over lists. Numbers are the native naturals; a sum
-- that saturates or a check for overflow is written out.
--
-- Not modelled: the audio devices, the transforms but snippets, the user interface, the installer,
-- storage on disk, Windows calls, the engine itself (llama.cpp) and JSON; the spawning
-- and the shutdown of the worker process, and the threads behind its pipes.
mod Base
pub mod Text
pub mod Session
pub mod Activation
pub mod Reliability
pub mod Audio
pub mod Protocol
pub mod GraniteWorker
pub mod GraniteEngine
pub mod FinalPass
pub mod Finalization
pub mod Verdict
pub mod Delivery
pub mod Link
pub mod Models
pub mod Transforms
mod Tests
