-- ===== src/Tests/Dictation.antt =====
-- The worker, the link and the pass at concrete inputs.
use speakeasy_granite_rust_m.Base.{
  ℕ, ◌≡◌, refl, Bool, true, false, none, [], ◌∷◌, arith, ok, err, inl, inr,
}
use speakeasy_granite_rust_m.Text.{is_blank, is_whitespace}
use speakeasy_granite_rust_m.Protocol.{push_audio, health, validate}
use speakeasy_granite_rust_m.GraniteWorker.{Host, Worker, new, granite_artifact_id, handle}
use speakeasy_granite_rust_m.GraniteWorker.Invariant.{new-Inv, Handled, handle-Handled}
use speakeasy_granite_rust_m.GraniteWorker.Stream.{loadable, asked, IsServing}
use speakeasy_granite_rust_m.FinalPass.{
  UtteranceAudio, AsrRequest, english, transcribe, Moment, check_active, run,
  validate_batch_request, normalize_engine_text, finalized_stream, Heard, domain_error,
  deadline_exceeded,
}
use speakeasy_granite_rust_m.Link.{
  connect, request, Wait, write_within_deadline, exchange, receive_until,
}
use speakeasy_granite_rust_m.Link.Receive.{IsPrompt}
use speakeasy_granite_rust_m.Link.Dictation.{linked, dictation_delivers}

-- Samples are numbers, all finite; the engine hears "a b" in any of them.
abbrev host : Host ℕ ℕ
host = record {
  worker_version = "1";
  cuda_enabled = false;
  is_file = λ root name. true;
  load = λ root. ok 5;
  transcribe_samples = λ m xs. ok (b'a' ∷ 0x20 ∷ b'b' ∷ []);
}

abbrev any_finite : ℕ → Bool
any_finite x = true

abbrev punctual : ℕ → Moment
punctual i = record { is_cancelled = false; now = 0 }

abbrev recording : UtteranceAudio
recording = record { session_id = 9; sample_rate_hz = 16000; samples = 1 ∷ 2 ∷ 3 ∷ [] }

abbrev question : AsrRequest
question = record { correlation_id = 1; session_id = 9; language = english; task = transcribe }

punctual_in_time : (i : ℕ) → check_active (punctual i) 100 ≡ ok tt
unfolding check_active
punctual_in_time i = refl

abbrev early : Moment
early = record { is_cancelled = false; now = 3 }

-- The frame is written after a poll, and the responses come at the second poll and at the third.
abbrev prompt_waits : ℕ → Wait
prompt_waits i = record {
  start = early;
  writing = early ∷ [];
  rounds =
      record { seen = early; arrives = false }
      ∷ record { seen = early; arrives = true }
      ∷ record { seen = early; arrives = true }
      ∷ [];
}

-- Nothing comes, and the deadline passes.
abbrev slow_waits : ℕ → Wait
slow_waits i = record {
  start = early;
  writing = [];
  rounds =
      record { seen = early; arrives = false }
      ∷ record { seen = record { is_cancelled = false; now = 100 }; arrives = true }
      ∷ [];
}

waits_in_time : (i : ℕ) → IsPrompt 100 2 (prompt_waits i)
unfolding check_active write_within_deadline
waits_in_time i = (refl, refl, (refl, inr (refl, (refl, inl (refl, (refl, inl (refl, tt)))))))

slow_is_late :
    (request any_finite host slow_waits 100 connect health).1 ≡ err (domain_error deadline_exceeded)
unfolding request exchange receive_until write_within_deadline check_active handle validate
slow_is_late = refl

heard_text : is_blank (b'a' ∷ 0x20 ∷ b'b' ∷ []) ≡ false
unfolding is_blank is_whitespace
heard_text = refl

good_request : validate_batch_request recording question ≡ ok tt
unfolding validate_batch_request
good_request = refl

dictation_delivers_example :
    (v : Worker ℕ ℕ) × (j : ℕ) × (run
        (λ x. x)
        (request any_finite host prompt_waits 100)
        granite_artifact_id
        "C:/m"
        punctual
        100
        recording
        question
        (linked new 1)
      ≡ (
        linked v j,
        ok (record {
          session_id = 9;
          raw_text = b'a' ∷ 0x20 ∷ b'b' ∷ [];
          text = normalize_engine_text (b'a' ∷ 0x20 ∷ b'b' ∷ []);
          provenance = finalized_stream;
          metrics = record { input_samples = 3; final_segments = 1; draft_revisions = 0 };
        }),
      ))
    × IsServing 5 v
dictation_delivers_example =
    dictation_delivers (λ x. x) any_finite host (λ x. refl) prompt_waits 100 waits_in_time punctual
      punctual_in_time new 1 "C:/m" 5 recording question (b'a' ∷ 0x20 ∷ b'b' ∷ []) refl
      (omega arith, omega arith) (loadable refl refl refl refl) good_request (omega arith) refl
      heard_text

handle-Handled_example :
    Handled
      (push_audio 1 0 (7 ∷ []))
      (handle any_finite host new (asked any_finite host new 4 (push_audio 1 0 (7 ∷ []))))
handle-Handled_example =
    handle-Handled any_finite host new (asked any_finite host new 4 (push_audio 1 0 (7 ∷ [])))
      new-Inv

abbrev silent : Heard
silent = record { final_lines = []; last_draft = none; draft_revisions = 0 }
