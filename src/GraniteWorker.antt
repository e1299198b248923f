-- ===== src/GraniteWorker.antt =====
-- workers/granite-worker/src/main.rs: the worker process that holds the speech model. Its files and
-- the engine (crates/speakeasy-granite, which calls llama.cpp) are a `Host`, given anew to each
-- request, since what they answer may change. `none` is a panic of the process.
use Prim.Native.String.{String}
use text.Mathlib.Text.{◌==◌ as str_eq}
use speakeasy_granite_rust_m.Base.{
  ℕ, ◌+◌, Bool, true, false, not, ◌&&◌, ◌||◌, Option, none, some, List, [], ◌∷◌, ◌++◌, ltb, ◌==◌,
  if◌then◌else◌, is_some, length, u64_max, Result, ok, err,
}
use speakeasy_granite_rust_m.Protocol.{
  WorkerCommand, hello, health, load_model, unload_model, start_stream, push_audio, finish_stream,
  cancel, shutdown, WorkerRequest, WorkerErrorCode, invalid_request, protocol_mismatch,
  invalid_state, artifact_not_trusted, artifact_invalid, runtime_unavailable, inference_failed,
  WorkerEvent, ready, model_loaded, healthy, model_unloaded, stream_started, audio_accepted,
  transcript, stream_finished, cancelled, shutting_down, error, worker_protocol_version, validate,
}
pub mod Invariant
pub mod Stream

-- `GraniteStage` of crates/speakeasy-granite/src/lib.rs.
pub data GraniteStage : Type 0 where
  backend model_load projector_load audio_unsupported audio_decode : GraniteStage
  tokenize evaluate generate detokenize : GraniteStage

-- `granite_worker_error`.
unfoldable pub granite_worker_error : GraniteStage → WorkerErrorCode
granite_worker_error backend = runtime_unavailable
granite_worker_error model_load = runtime_unavailable
granite_worker_error projector_load = runtime_unavailable
granite_worker_error _ = inference_failed

abbrev pub granite_artifact_id : String
granite_artifact_id = "granite-speech-4.1-2b-q4_k_m"

abbrev pub granite_model_filename : String
granite_model_filename = "granite-speech-4.1-2b-Q4_K_M.gguf"

abbrev pub granite_projector_filename : String
granite_projector_filename = "mmproj-model-f16.gguf"

abbrev pub sample_rate_hz : ℕ
sample_rate_hz = 16000

abbrev pub max_utterance_samples : ℕ
max_utterance_samples = 1920000

-- What the process asks of the machine, of the engine and of its own build.
pub record Host (S M : Type 0) : Type 0 where
  pub worker_version : String
  pub cuda_enabled : Bool
  -- `model_root.join(filename).is_file()`.
  pub is_file : String → String → Bool
  -- `GraniteModel::load` of the two files below `model_root`.
  pub load : String → Result GraniteStage M
  -- `GraniteModel::transcribe_samples` with the default options.
  pub transcribe_samples : M → List S → Result GraniteStage (List ℕ)

pub record ActiveStream (S : Type 0) : Type 0 where
  pub session_id : ℕ
  pub samples : List S
  pub next_sequence : ℕ

pub record Worker (S M : Type 0) : Type 0 where
  pub artifact_id : Option String
  pub model_root : Option String
  pub model : Option M
  pub active : Option (ActiveStream S)

-- `WorkerResult`, with the worker after the call.
abbrev pub Outcome : Type 0 → Type 0 → Type 0
Outcome S M = Worker S M × Result WorkerErrorCode (List WorkerEvent)

abbrev same_artifact : Option String → String → Bool
same_artifact none id = false
same_artifact (some held) id = str_eq held id

-- `map_err(..)?` on the outcome of the transcription.
abbrev finished : ℕ → Result GraniteStage (List ℕ) → Result WorkerErrorCode (List WorkerEvent)
finished session_id (err stage) = err (granite_worker_error stage)
finished session_id (ok text) =
    ok (transcript session_id 1 text true ∷ stream_finished session_id ∷ [])

module _ {S M : Type 0} where
  abbrev pub new : Worker S M
  new = record { artifact_id = none; model_root = none; model = none; active = none }

  -- What follows a successful `GraniteModel::load`. `prime` transcribes silence and drops the result.
  abbrev install : Worker S M → String → String → Result GraniteStage M → Outcome S M
  install w id root (err stage) = (w, err (granite_worker_error stage))
  install w id root (ok m) = (
    record w { artifact_id = some id; model_root = some root; model = some m },
    ok (model_loaded id ∷ []),
  )

  on_load_model : Host S M → Worker S M → String → String → Outcome S M
  on_load_model h w id root =
      if is_some w.active
      then (w, err invalid_state)
      else if same_artifact w.artifact_id id && is_some w.model
      then (w, ok (model_loaded id ∷ []))
      else if not (str_eq id granite_artifact_id)
      then (w, err artifact_not_trusted)
      else if not (h.is_file root granite_model_filename)
          || not (h.is_file root granite_projector_filename)
      then (w, err artifact_invalid)
      else install w id root (h.load root)

  on_unload_model : Worker S M → Outcome S M
  on_unload_model w = if is_some w.active then (w, err invalid_state) else (
    record w { artifact_id = none; model_root = none; model = none },
    ok (model_unloaded ∷ []),
  )

  on_start_stream : Worker S M → ℕ → ℕ → Outcome S M
  on_start_stream w session_id rate =
      if is_some w.active
      then (w, err invalid_state)
      else if not (rate == sample_rate_hz)
      then (w, err invalid_state)
      else if not (is_some w.artifact_id)
      then (w, err invalid_state)
      else (
        record w {
          active = some (record { session_id = session_id; samples = []; next_sequence = 0 });
        },
        ok (stream_started session_id ∷ []),
      )

  -- `checked_add` on `usize`, then the limit; `next_sequence += 1` panics at the end of u64.
  extend_stream : Worker S M → ActiveStream S → ℕ → ℕ → List S → Option (Outcome S M)
  extend_stream w a session_id sequence samples =
      let new_length = length a.samples + length samples in
      if ltb u64_max new_length
      then some (w, err invalid_state)
      else if ltb max_utterance_samples new_length
      then some (w, err invalid_state)
      else if a.next_sequence == u64_max
      then none
      else some (
        record w {
          active =
              some
                (record a { samples = a.samples ++ samples; next_sequence = a.next_sequence + 1 });
        },
        ok (audio_accepted session_id sequence ∷ []),
      )

  on_push_audio : Worker S M → ℕ → ℕ → List S → Option (Outcome S M)
  on_push_audio w session_id sequence samples = elim w.active [
    | none ↦ some (w, err invalid_state)
    | some a ↦
        if not (a.session_id == session_id)
        then some (w, err invalid_state)
        else if not (a.next_sequence == sequence)
        then some (w, err invalid_state)
        else extend_stream w a session_id sequence samples
  ]

  -- `expect("a loaded model outlives every stream it started")`.
  transcribe_active : Host S M → Worker S M → ActiveStream S → ℕ → Option M → Option (Outcome S M)
  transcribe_active h w a session_id none = none
  transcribe_active h w a session_id (some m) =
      some (record w { active = none }, finished session_id (h.transcribe_samples m a.samples))

  on_finish_stream : Host S M → Worker S M → ℕ → Option (Outcome S M)
  on_finish_stream h w session_id = elim w.active [
    | none ↦ some (w, err invalid_state)
    | some a ↦
        if not (a.session_id == session_id)
        then some (w, err invalid_state)
        else transcribe_active h w a session_id w.model
  ]

  on_cancel : Worker S M → ℕ → Outcome S M
  on_cancel w session_id = elim w.active [
    | none ↦ (w, err invalid_state)
    | some a ↦
        if not (a.session_id == session_id)
        then (w, err invalid_state)
        else (record w { active = none }, ok (cancelled session_id ∷ []))
  ]

  -- `result.unwrap_or_else(error_event)`, and no exit.
  abbrev reply : Outcome S M → Worker S M × List WorkerEvent × Bool
  reply (w, ok events) = (w, events, false)
  reply (w, err code) = (w, error code ∷ [], false)

  abbrev reply? : Option (Outcome S M) → Option (Worker S M × List WorkerEvent × Bool)
  reply? none = none
  reply? (some o) = some (reply o)

  pub dispatch :
      Host S M → Worker S M → WorkerCommand S → Option (Worker S M × List WorkerEvent × Bool)
  unfolding on_load_model on_unload_model on_start_stream on_push_audio extend_stream
      on_finish_stream transcribe_active on_cancel granite_worker_error
  dispatch h w hello =
      some (w, ready h.worker_version (if h.cuda_enabled then "cuda" ∷ [] else []) ∷ [], false)
  dispatch h w health = some (w, healthy w.artifact_id (is_some w.active) ∷ [], false)
  dispatch h w (load_model id root) = some (reply (on_load_model h w id root))
  dispatch h w unload_model = some (reply (on_unload_model w))
  dispatch h w (start_stream s rate) = some (reply (on_start_stream w s rate))
  dispatch h w (push_audio s n xs) = reply? (on_push_audio w s n xs)
  dispatch h w (finish_stream s) = reply? (on_finish_stream h w s)
  dispatch h w (cancel s) = some (reply (on_cancel w s))
  dispatch h w shutdown = some (new, shutting_down ∷ [], true)

  -- The worker, the events to send back, and whether the process exits.
  unfoldable pub handle :
      (S → Bool)
      → Host S M
      → Worker S M
      → WorkerRequest S
      → Option (Worker S M × List WorkerEvent × Bool)
  unfolding dispatch validate
  handle finite h w r =
      if not (validate finite r)
      then some (
        w,
        error (
              if r.protocol_version == worker_protocol_version
              then invalid_request
              else protocol_mismatch)
            ∷ [],
        false,
      )
      else dispatch h w r.command
