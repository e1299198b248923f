-- ===== src/FinalPass.antt =====
-- crates/speakeasy-worker/src/lib.rs: one utterance transcribed in batch over a worker connection.
-- A connection is a state `C` with the function `request`, what its cancel token and deadline make
-- it answer included. What `check_active` sees is a `Moment` for each of its calls, in order.
use Prim.Native.String.{String}
use text.Mathlib.Text.{◌==◌ as str_eq}
use speakeasy_granite_rust_m.Base.{
  ℕ, zero, suc, ◌+◌, ◌%◌, ◌^◌, ◌≡◌, ap, Bool, true, false, not, ◌&&◌, ◌||◌, Option, none, some,
  List, [], ◌∷◌, ◌++◌, map, leb, ◌==◌, if◌then◌else◌, is_some, length, take, drop, Result, ok, err,
  ◌>>=◌,
}
use speakeasy_granite_rust_m.Text.{Text, is_blank, split_whitespace, join_words}
use speakeasy_granite_rust_m.Protocol.{
  WorkerCommand, load_model, start_stream, push_audio, finish_stream, WorkerEvent, model_loaded,
  stream_started, transcript, stream_finished, error, is_error,
}
pub mod Chunks
pub mod Normal

-- crates/speakeasy-domain/src/contracts.rs.
pub data ErrorCode : Type 0 where
  app_not_ready session_already_active invalid_transition stale_event queue_full : ErrorCode
  cancelled deadline_exceeded adapter_failed invalid_data too_new unauthorized : ErrorCode
  no_speech_detected engine_quarantined : ErrorCode

pub record DomainError : Type 0 where
  pub code : ErrorCode
  pub recoverable : Bool

abbrev pub domain_error : ErrorCode → DomainError
domain_error code = record { code = code; recoverable = true }

-- crates/speakeasy-domain/src/ports.rs.
pub data AsrLanguage : Type 0 where
  english : AsrLanguage
  other : String → AsrLanguage

pub data AsrTask : Type 0 where
  transcribe translate : AsrTask

pub record AsrRequest : Type 0 where
  pub correlation_id : ℕ
  pub session_id : ℕ
  pub language : AsrLanguage
  pub task : AsrTask

-- A sample is the bit pattern of its i16.
pub record UtteranceAudio : Type 0 where
  pub session_id : ℕ
  pub sample_rate_hz : ℕ
  pub samples : List ℕ

pub data TranscriptProvenance : Type 0 where
  finalized_stream last_valid_draft : TranscriptProvenance

pub record FinalAsrMetrics : Type 0 where
  pub input_samples : ℕ
  pub final_segments : ℕ
  pub draft_revisions : ℕ

pub record FinalTranscript : Type 0 where
  pub session_id : ℕ
  pub raw_text : Text
  pub text : Text
  pub provenance : TranscriptProvenance
  pub metrics : FinalAsrMetrics

abbrev pub retained_push_frame_samples : ℕ
retained_push_frame_samples = 1600

pub record Moment : Type 0 where
  pub is_cancelled : Bool
  pub now : ℕ

unfoldable pub check_active : Moment → ℕ → Result DomainError (Unit {0})
check_active m deadline =
    if m.is_cancelled
    then err (domain_error cancelled)
    else if leb deadline m.now
    then err (domain_error deadline_exceeded)
    else ok tt

-- `u64::from_le_bytes` of the first 8 of the 16 bytes, the lowest first.
unfoldable pub worker_session_id : ℕ → ℕ
worker_session_id session_id = session_id % 2 ^ 64

abbrev is_english : AsrLanguage → Bool
is_english english = true
is_english (other name) = false

abbrev is_transcribe : AsrTask → Bool
is_transcribe transcribe = true
is_transcribe translate = false

unfoldable pub validate_batch_request : UtteranceAudio → AsrRequest → Result DomainError (Unit {0})
validate_batch_request audio request =
    if not (audio.session_id == request.session_id) || not (audio.sample_rate_hz == 16000)
    then err (domain_error invalid_data)
    else if not (is_english request.language) || not (is_transcribe request.task)
    then err (domain_error invalid_data)
    else ok tt

unfoldable pub normalize_engine_text : Text → Text
normalize_engine_text s = join_words (split_whitespace s)

-- `final_lines`, `last_draft` and `draft_revisions`.
pub record Heard : Type 0 where
  pub final_lines : List Text
  pub last_draft : Option Text
  pub draft_revisions : ℕ

abbrev pub nothing_heard : Heard
nothing_heard = record { final_lines = []; last_draft = none; draft_revisions = 0 }

-- A `Transcript` event of the session itself.
abbrev pub hear : Text → Bool → Heard → Heard
hear text true heard =
    if is_blank text then heard else record heard { final_lines = heard.final_lines ++ text ∷ [] }
hear text false heard =
    if is_blank text
    then heard
    else record heard { last_draft = some text; draft_revisions = heard.draft_revisions + 1 }

-- The arms of the `match` on one event.
abbrev pub collect : WorkerEvent → ℕ → Heard → Result DomainError Heard
collect (transcript s line text is_final) session_id heard =
    if s == session_id then ok (hear text is_final heard) else err (domain_error stale_event)
collect (error code) session_id heard = err (domain_error stale_event)
collect _ session_id heard = ok heard

unfoldable pub collect_transcripts : List WorkerEvent → ℕ → Heard → Result DomainError Heard
collect_transcripts [] session_id heard = ok heard
collect_transcripts (e ∷ es) session_id heard =
    collect e session_id heard >>= λ more. collect_transcripts es session_id more

-- `slice::chunks`, with the length as fuel.
chunks_within : {A : Type 0} → ℕ → ℕ → List A → List (List A)
chunks_within zero k xs = []
chunks_within (suc f) k [] = []
chunks_within (suc f) k (x ∷ xs) = take k (x ∷ xs) ∷ chunks_within f k (drop k (x ∷ xs))

unfoldable pub chunks : {A : Type 0} → ℕ → List A → List (List A)
unfolding chunks_within
chunks k xs = chunks_within (length xs) k xs

abbrev pub any_event : (WorkerEvent → Bool) → List WorkerEvent → Bool
any_event p [] = false
any_event p (e ∷ es) = p e || any_event p es

abbrev pub is_loaded : String → WorkerEvent → Bool
is_loaded id (model_loaded held) = str_eq held id
is_loaded id _ = false

abbrev pub is_started : ℕ → WorkerEvent → Bool
is_started s (stream_started t) = t == s
is_started s _ = false

abbrev pub is_finished : ℕ → WorkerEvent → Bool
is_finished s (stream_finished t) = t == s
is_finished s _ = false

-- The text and its provenance, out of what was heard.
abbrev pub choose : Heard → Text × TranscriptProvenance
choose heard = elim heard.final_lines [
  | [] ↦ (elim heard.last_draft [ none ↦ [] | some d ↦ d ], last_valid_draft)
  | l ∷ ls ↦ (join_words (l ∷ ls), finalized_stream)
]

-- Behind `if !finished`: the transcript, or that there was no speech.
unfoldable pub conclude : AsrRequest → UtteranceAudio → Heard → Result DomainError FinalTranscript
conclude request audio heard =
    let (raw, provenance) = choose heard in
    let text = normalize_engine_text raw in
    elim text [
      | [] ↦ err (domain_error no_speech_detected)
      | c ∷ cs ↦ ok (record {
        session_id = request.session_id;
        raw_text = raw;
        text = c ∷ cs;
        provenance = provenance;
        metrics = record {
          input_samples = length audio.samples;
          final_segments = length heard.final_lines;
          draft_revisions = heard.draft_revisions;
        };
      })
    ]

-- A computation on the connection that may fail.
abbrev pub Pass : Type 0 → Type 0 → Type 0
Pass C A = C → C × Result DomainError A

module _ {C : Type 0} where
  abbrev pub carry :
      {A B : Type 0} → (A → Pass C B) → C × Result DomainError A → C × Result DomainError B
  carry f (d, ok a) = f a d
  carry f (d, err e) = (d, err e)

  -- `?`, and then the rest.
  unfoldable pub then_pass : {A B : Type 0} → Pass C A → (A → Pass C B) → Pass C B
  then_pass m f c = carry f (m c)

  pub then_pass_ok :
      {A B : Type 0} (m : Pass C A) (f : A → Pass C B) {c d : C} {a : A}
      → m c ≡ (d, ok a)
      → then_pass m f c ≡ f a d
  unfolding then_pass
  then_pass_ok m f e = ap (carry f) e

  -- A `?` on a value that needs no connection.
  abbrev pub lift_result : {A : Type 0} → Result DomainError A → Pass C A
  lift_result r c = (c, r)

-- `normalize` is the division of a sample by 32768 in f32.
module _ {S C : Type 0} (normalize : ℕ → S)
    (request : C → WorkerCommand S → C × Result DomainError (List WorkerEvent)) where
  unfoldable pub request_expect : WorkerCommand S → (WorkerEvent → Bool) → Pass C (Unit {0})
  request_expect command expected =
      then_pass (λ c. request c command)
        λ events. lift_result (
          if any_event expected events && not (any_event is_error events)
          then ok tt
          else err (domain_error adapter_failed))

  -- The loop over the frames, from frame `sequence` on; check 0 was made before the pass.
  unfoldable pub push_frames : (ℕ → Moment) → ℕ → ℕ → ℕ → List (List ℕ) → Heard → Pass C Heard
  push_frames moments deadline session_id sequence [] heard = lift_result (ok heard)
  push_frames moments deadline session_id sequence (frame ∷ frames) heard =
      then_pass (lift_result (check_active (moments (suc sequence)) deadline)) λ _.
        then_pass (λ c. request c (push_audio session_id sequence (map normalize frame)))
          λ events.
            then_pass (lift_result (collect_transcripts events session_id heard))
              λ more. push_frames moments deadline session_id (sequence + 1) frames more

  -- `BatchFinalPass::run`.
  unfoldable pub pass_run :
      String → String → (ℕ → Moment) → ℕ → UtteranceAudio → AsrRequest → Pass C FinalTranscript
  pass_run artifact_id model_root moments deadline audio asked =
      let s = worker_session_id asked.session_id in
      let frames = chunks retained_push_frame_samples audio.samples in
      then_pass (request_expect (load_model artifact_id model_root) (is_loaded artifact_id)) λ _.
        then_pass (request_expect (start_stream s audio.sample_rate_hz) (is_started s)) λ _.
          then_pass (push_frames moments deadline s 0 frames nothing_heard) λ heard.
            then_pass (lift_result (check_active (moments (suc (length frames))) deadline)) λ _.
              then_pass (λ c. request c (finish_stream s))
                λ events. then_pass (lift_result (collect_transcripts events s heard)) λ heard'.
                  lift_result (
                    if not (any_event (is_finished s) events)
                    then err (domain_error adapter_failed)
                    else conclude asked audio heard')

  -- `WorkerFinalAdapter::run`, behind the lock on the connection.
  unfoldable pub run :
      String → String → (ℕ → Moment) → ℕ → UtteranceAudio → AsrRequest → Pass C FinalTranscript
  unfolding pass_run push_frames request_expect check_active
  run artifact_id model_root moments deadline audio asked =
      then_pass (lift_result (validate_batch_request audio asked)) λ _.
        then_pass (lift_result (check_active (moments 0) deadline))
          λ _. pass_run artifact_id model_root moments deadline audio asked
