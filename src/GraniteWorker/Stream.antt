-- ===== src/GraniteWorker/Stream.antt =====
-- What the requests of one good utterance do to the worker.
use Prim.Native.String.{String, len}
use text.Mathlib.TextPositions.{eq_refl}
use speakeasy_granite_rust_m.Base.{
  ℕ, ◌+◌, ◌≤◌, ◌<◌, ◌≡◌, Bool, true, false, none, some, List, [], ◌∷◌, ◌++◌, arith, length, ok,
  u64_max,
}
use speakeasy_granite_rust_m.Protocol.{
  load_model, start_stream, push_audio, finish_stream, WorkerRequest, WorkerCommand,
  worker_protocol_version, max_audio_samples_per_request, model_loaded, stream_started,
  audio_accepted, transcript, stream_finished, all_finite,
}
use speakeasy_granite_rust_m.GraniteWorker.{
  Host, Worker, ActiveStream, granite_artifact_id, granite_model_filename,
  granite_projector_filename, max_utterance_samples, sample_rate_hz, handle,
}

-- A path that the protocol lets through.
abbrev pub IsPath : String → Type 0
IsPath root = (0 < len root) × (len root ≤ 32768)

module _ {S M : Type 0} where
  -- The model `m` is resident already, or it is not and the files give it.
  pub data Serves (h : Host S M) (w : Worker S M) (root : String) (m : M) : Type 0 where
    resident : w.artifact_id ≡ some granite_artifact_id → w.model ≡ some m → Serves h w root m
    loadable :
        w.model ≡ none
        → h.is_file root granite_model_filename ≡ true
        → h.is_file root granite_projector_filename ≡ true
        → h.load root ≡ ok m
        → Serves h w root m

  -- The worker once it serves `m`.
  pub record IsServing (m : M) (v : Worker S M) : Type 0 where
    pub holds : v.artifact_id ≡ some granite_artifact_id
    pub loaded : v.model ≡ some m
    pub free : v.active ≡ none

module _ {S M : Type 0} (finite : S → Bool) (h : Host S M) (w : Worker S M) where
  abbrev pub asked : ℕ → WorkerCommand S → WorkerRequest S
  asked id c = record { protocol_version = worker_protocol_version; request_id = id; command = c }

  pub handle_load :
      (id : ℕ) (root : String) (m : M)
      → IsPath root
      → w.active ≡ none
      → Serves h w root m
      → (v : Worker S M) × (handle finite h w (asked id (load_model granite_artifact_id root))
          ≡ some (v, model_loaded granite_artifact_id ∷ [], false))
        × IsServing m v
  unfolding handle
  handle_load id root m p f (resident a b) =
      (w, ground (arith, eq_refl granite_artifact_id), ground arith)
  handle_load id root m p f (loadable n x y z) = (
    record w { artifact_id = some granite_artifact_id; model_root = some root; model = some m },
    ground (arith, eq_refl granite_artifact_id),
    ground arith,
  )

  pub handle_start :
      (id s : ℕ) (m : M)
      → IsServing m w
      → handle finite h w (asked id (start_stream s sample_rate_hz))
        ≡ some (
          record w { active = some (record { session_id = s; samples = []; next_sequence = 0 }) },
          stream_started s ∷ [],
          false,
        )
  unfolding handle
  handle_start id s m v = ground arith

  pub handle_push :
      (id s n : ℕ) (a : ActiveStream S) (xs : List S)
      → w.active ≡ some a
      → a.session_id ≡ s
      → a.next_sequence ≡ n
      → n < u64_max
      → length a.samples + length xs ≤ max_utterance_samples
      → 0 < length xs
      → length xs ≤ max_audio_samples_per_request
      → all_finite finite xs ≡ true
      → handle finite h w (asked id (push_audio s n xs))
        ≡ some (
          record w {
            active =
                some (record { session_id = s; samples = a.samples ++ xs; next_sequence = n + 1 });
          },
          audio_accepted s n ∷ [],
          false,
        )
  unfolding handle
  handle_push id s n a xs e es en lt fits pos small fin = ground arith

  pub handle_finish :
      (id s : ℕ) (a : ActiveStream S) (m : M) (text : List ℕ)
      → w.active ≡ some a
      → a.session_id ≡ s
      → w.model ≡ some m
      → h.transcribe_samples m a.samples ≡ ok text
      → handle finite h w (asked id (finish_stream s))
        ≡ some
            (record w { active = none }, transcript s 1 text true ∷ stream_finished s ∷ [], false)
  unfolding handle
  handle_finish id s a m text e es em et = ground arith
