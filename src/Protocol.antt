-- ===== src/Protocol.antt =====
-- crates/speakeasy-domain/src/worker_protocol.rs: what host and worker say to one another. A sample
-- is a value of the type `S`, which stands for f32; `finite` is its `is_finite`. An id or a path is
-- a `String`, measured in bytes by `len`; a transcript is its list of characters.
use Prim.Native.String.{String, len}
use speakeasy_granite_rust_m.Base.{
  ℕ, Bool, true, false, not, ◌&&◌, ◌||◌, Option, List, [], ◌∷◌, ltb, leb, ◌==◌, length,
}

abbrev pub worker_protocol_version : ℕ
worker_protocol_version = 2

abbrev pub max_frame_bytes : ℕ
max_frame_bytes = 1048576

abbrev pub max_audio_samples_per_request : ℕ
max_audio_samples_per_request = 16000

-- A `WorkerSessionId` is its number.
pub data WorkerCommand (S : Type 0) : Type 0 where
  hello health : WorkerCommand S
  load_model : String → String → WorkerCommand S
  unload_model : WorkerCommand S
  start_stream : ℕ → ℕ → WorkerCommand S
  push_audio : ℕ → ℕ → List S → WorkerCommand S
  finish_stream cancel : ℕ → WorkerCommand S
  shutdown : WorkerCommand S

pub record WorkerRequest (S : Type 0) : Type 0 where
  pub protocol_version : ℕ
  pub request_id : ℕ
  pub command : WorkerCommand S

pub data WorkerErrorCode : Type 0 where
  invalid_request protocol_mismatch invalid_state artifact_not_trusted : WorkerErrorCode
  artifact_invalid runtime_unavailable inference_failed : WorkerErrorCode

pub data WorkerEvent : Type 0 where
  ready : String → List String → WorkerEvent
  model_loaded : String → WorkerEvent
  healthy : Option String → Bool → WorkerEvent
  model_unloaded : WorkerEvent
  stream_started : ℕ → WorkerEvent
  audio_accepted : ℕ → ℕ → WorkerEvent
  transcript : ℕ → ℕ → List ℕ → Bool → WorkerEvent
  stream_finished cancelled : ℕ → WorkerEvent
  shutting_down : WorkerEvent
  -- The message, which only people read, is left out.
  error : WorkerErrorCode → WorkerEvent

abbrev pub is_error : WorkerEvent → Bool
is_error (error code) = true
is_error _ = false

-- The pairs of the second `matches!`.
abbrev answers : {S : Type 0} → WorkerCommand S → WorkerEvent → Bool
answers hello (ready v a) = true
answers health (healthy a s) = true
answers (load_model a r) (model_loaded b) = true
answers unload_model model_unloaded = true
answers (start_stream s r) (stream_started t) = true
answers (push_audio s n xs) (audio_accepted t m) = true
answers (finish_stream s) (stream_finished t) = true
answers (cancel s) (cancelled t) = true
answers shutdown shutting_down = true
answers _ _ = false

module _ {S : Type 0} where
  unfoldable pub worker_response_is_terminal : WorkerCommand S → WorkerEvent → Bool
  worker_response_is_terminal c e = is_error e || answers c e

  module _ (finite : S → Bool) where
    abbrev pub all_finite : List S → Bool
    all_finite [] = true
    all_finite (x ∷ xs) = finite x && all_finite xs

    valid_command : WorkerCommand S → Bool
    valid_command (load_model artifact_id model_root) =
        not (len artifact_id == 0 || ltb 128 (len artifact_id))
        && not (len model_root == 0 || ltb 32768 (len model_root))
    valid_command (start_stream s rate) = leb 8000 rate && leb rate 192000
    valid_command (push_audio s n xs) =
        not (length xs == 0 || ltb max_audio_samples_per_request (length xs)) && all_finite xs
    valid_command _ = true

    -- `validate().is_ok()`.
    unfoldable pub validate : WorkerRequest S → Bool
    unfolding valid_command
    validate r = r.protocol_version == worker_protocol_version && valid_command r.command
