-- ===== src/Link/Dictation.antt =====
-- The pass of crates/speakeasy-worker/src/lib.rs over the link to workers/granite-worker: the
-- whole way of a dictation's audio from the host to the engine, and of its text back.
use Prim.Native.String.{String}
use text.Mathlib.TextPositions.{eq_refl}
use mathlib.Core.List.{flatten, map-append}
use speakeasy_granite_rust_m.Base.{
  ℕ, suc, ◌+◌, ◌≤◌, ◌<◌, ◌≡◌, refl, sym, ap, ◌∙◌, Bool, true, false, none, some, List, [], ◌∷◌,
  ◌++◌, map, append_assoc, append-nil, length-append, length-map, arith, ok, All, length,
  saturating_add64,
}
use speakeasy_granite_rust_m.Protocol.{
  WorkerCommand, load_model, start_stream, push_audio, finish_stream, WorkerEvent, is_error,
  all_finite, validate, worker_response_is_terminal, model_loaded, stream_started, audio_accepted,
  transcript, stream_finished,
}
use speakeasy_granite_rust_m.GraniteWorker.{
  Host, Worker, ActiveStream, sample_rate_hz, granite_artifact_id, max_utterance_samples, handle,
}
use speakeasy_granite_rust_m.GraniteWorker.Stream.{
  asked, IsPath, Serves, IsServing, handle_load, handle_start, handle_push, handle_finish,
}
use speakeasy_granite_rust_m.FinalPass.{
  is_loaded, is_started, nothing_heard, UtteranceAudio, AsrRequest, validate_batch_request, run,
  normalize_engine_text, finalized_stream, pass_run, request_expect, worker_session_id, chunks,
  then_pass_ok, Moment, check_active, Heard, push_frames, retained_push_frame_samples,
  collect_transcripts,
}
use speakeasy_granite_rust_m.FinalPass.Chunks.{flatten-chunks, chunks-sizes}
use speakeasy_granite_rust_m.Text.{Text, is_blank, join_words}
use speakeasy_granite_rust_m.FinalPass.Normal.{conclude_lem}
use speakeasy_granite_rust_m.Link.{Link, Wait, request}
use speakeasy_granite_rust_m.Link.Receive.{==_refl, IsPrompt, IsPrompt-fewer}
use speakeasy_granite_rust_m.Link.Steps.{request_lem}

-- The number of the request behind one for each frame.
abbrev pub later : ℕ → List (List ℕ) → ℕ
later k [] = k
later k (f ∷ fs) = later (saturating_add64 k 1) fs

-- One final line was heard.
abbrev said_once : Text → Heard
said_once text = record { final_lines = text ∷ []; last_draft = none; draft_revisions = 0 }

collect_said :
    (s : ℕ) (text : Text)
    → is_blank text ≡ false
    → collect_transcripts (transcript s 1 text true ∷ stream_finished s ∷ []) s nothing_heard
      ≡ ok (said_once text)
unfolding collect_transcripts
collect_said s text said = rw (==_refl s, said)

module _ {S M : Type 0} where
  -- A link at rest over the worker `w`, its next request numbered `k`.
  abbrev pub linked : Worker S M → ℕ → Link S M
  linked w k = record { worker = w; next_request_id = k; responses = []; alive = true }

  -- The worker with the stream `s`, of `xs` in `n` frames.
  abbrev pub streaming : Worker S M → ℕ → List S → ℕ → Worker S M
  streaming w s xs n = record w {
    active = some (record { session_id = s; samples = xs; next_sequence = n });
  }

module _ {S M : Type 0} (normalize : ℕ → S) (finite : S → Bool) (h : Host S M)
    (fine : (x : ℕ) → finite (normalize x) ≡ true) (waits : ℕ → Wait) (deadline : ℕ)
    (prompt : (i : ℕ) → IsPrompt deadline 2 (waits i)) where
  fine_all : (xs : List ℕ) → all_finite finite (map normalize xs) ≡ true
  fine_all [] = refl
  fine_all (x ∷ xs) = rw (fine x, fine_all xs)

  -- One response comes in time when two would.
  one-IsPrompt : (i : ℕ) → IsPrompt deadline 1 (waits i)
  one-IsPrompt i = IsPrompt-fewer deadline (waits i) 1 2 (omega arith) (prompt i)

  push_lem :
      (w : Worker S M) (k s n : ℕ) (xs : List S) (f : List ℕ)
      → (0 < length f) × (length f ≤ retained_push_frame_samples)
      → n ≤ length xs
      → length xs + length f ≤ max_utterance_samples
      → request finite h waits deadline
          (linked (streaming w s xs n) k)
          (push_audio s n (map normalize f))
        ≡ (
          linked (streaming w s (xs ++ map normalize f) (n + 1)) (saturating_add64 k 1),
          ok (audio_accepted s n ∷ []),
        )
  unfolding validate worker_response_is_terminal
  push_lem w k s n xs f b lt fits =
      let a : ActiveStream S = record { session_id = s; samples = xs; next_sequence = n } in
      let size = length-map f normalize in
      request_lem deadline finite h waits (linked (streaming w s xs n) k)
        (push_audio s n (map normalize f)) (streaming w s (xs ++ map normalize f) (n + 1))
        (audio_accepted s n ∷ []) false refl refl (ground (arith, size, fine_all f))
        (handle_push finite h (streaming w s xs n) k s n a (map normalize f) refl refl refl
          (omega arith) (omega (arith, size)) (omega (arith, size)) (omega (arith, size))
          (fine_all f))
        refl (one-IsPrompt k)

  load_step :
      (w : Worker S M) (k : ℕ) (root : String) (v : Worker S M)
      → IsPath root
      → handle finite h w (asked finite h w k (load_model granite_artifact_id root))
        ≡ some (v, model_loaded granite_artifact_id ∷ [], false)
      → request finite h waits deadline (linked w k) (load_model granite_artifact_id root)
        ≡ (linked v (saturating_add64 k 1), ok (model_loaded granite_artifact_id ∷ []))
  unfolding validate worker_response_is_terminal
  load_step w k root v path e =
      request_lem deadline finite h waits (linked w k) (load_model granite_artifact_id root) v
        (model_loaded granite_artifact_id ∷ []) false refl refl (ground arith) e refl
        (one-IsPrompt k)

  start_step :
      (w : Worker S M) (k s : ℕ) (m : M)
      → IsServing m w
      → request finite h waits deadline (linked w k) (start_stream s sample_rate_hz)
        ≡ (linked (streaming w s [] 0) (saturating_add64 k 1), ok (stream_started s ∷ []))
  unfolding validate worker_response_is_terminal
  start_step w k s m v =
      request_lem deadline finite h waits (linked w k) (start_stream s sample_rate_hz)
        (streaming w s [] 0) (stream_started s ∷ []) false refl refl refl
        (handle_start finite h w k s m v) refl (one-IsPrompt k)

  finish_step :
      (w : Worker S M) (k s n : ℕ) (xs : List S) (m : M) (text : Text)
      → w.model ≡ some m
      → h.transcribe_samples m xs ≡ ok text
      → request finite h waits deadline (linked (streaming w s xs n) k) (finish_stream s) ≡ (
        linked (record w { active = none }) (saturating_add64 k 1),
        ok (transcript s 1 text true ∷ stream_finished s ∷ []),
      )
  unfolding validate worker_response_is_terminal
  finish_step w k s n xs m text em et =
      request_lem deadline finite h waits (linked (streaming w s xs n) k) (finish_stream s)
        (record w { active = none }) (transcript s 1 text true ∷ stream_finished s ∷ []) false refl
        refl refl
        (handle_finish finite h (streaming w s xs n) k s
          (record { session_id = s; samples = xs; next_sequence = n }) m text refl refl em et)
        refl (prompt k)

  rate_of :
      (audio : UtteranceAudio) (asked : AsrRequest)
      → validate_batch_request audio asked ≡ ok tt
      → audio.sample_rate_hz ≡ sample_rate_hz
  unfolding validate_batch_request
  rate_of audio asked good = ground arith

  expect_lem :
      (c : WorkerCommand S) (p : WorkerEvent → Bool) (e : WorkerEvent) (l q : Link S M)
      → request finite h waits deadline l c ≡ (q, ok (e ∷ []))
      → p e ≡ true
      → is_error e ≡ false
      → request_expect normalize (request finite h waits deadline) c p l ≡ (q, ok tt)
  unfolding request_expect
  expect_lem c p e l q r pe ne = then_pass_ok _ _ r ∙ rw (pe, ne)

  module _ (moments : ℕ → Moment)
      (in_time : (i : ℕ) → check_active (moments i) deadline ≡ ok tt) where
    frames_lem :
        (w : Worker S M) (k s n j : ℕ) (xs ys : List S) (fs : List (List ℕ)) (heard : Heard)
        → All (λ f. (0 < length f) × (length f ≤ retained_push_frame_samples)) fs
        → n ≤ length xs
        → length xs + length (flatten fs) ≤ max_utterance_samples
        → n + length fs ≡ j
        → xs ++ map normalize (flatten fs) ≡ ys
        → push_frames normalize
            (request finite h waits deadline)
            moments
            deadline
            s
            n
            fs
            heard
            (linked (streaming w s xs n) k)
          ≡ (linked (streaming w s ys j) (later k fs), ok heard)
    unfolding push_frames collect_transcripts flatten
    frames_lem w k s n j xs ys [] heard b lt fits ej ey =
        let ej' : n ≡ j = omega arith in rw (← ej', ← ey, append-nil)
    frames_lem w k s n j xs ys (f ∷ fs) heard (b, bs) lt fits ej ey =
        let size = length-append f (flatten fs) in
        let sent = length-map f normalize in
        then_pass_ok _ _ (ap (λ r. (linked (streaming w s xs n) k, r)) (in_time (suc n)))
        ∙ then_pass_ok _ _ (push_lem w k s n xs f b lt (omega (arith, size)))
        ∙ then_pass_ok _ _ refl
        ∙ frames_lem w (saturating_add64 k 1) s (n + 1) j (xs ++ map normalize f) ys fs heard bs
            (omega (arith, sent, length-append xs (map normalize f)))
            (omega (arith, size, sent, length-append xs (map normalize f))) (omega arith)
            (append_assoc xs (map normalize f) (map normalize (flatten fs))
              ∙ ap (λ zs. xs ++ zs) (sym (map-append normalize f (flatten fs)))
              ∙ ey)

    -- A dictation end to end. Its audio is at 16 kHz and of at most two minutes, it asks for an
    -- English transcription, the worker is free and has the model or can load it, no check of
    -- the pass finds it cancelled or late, each request is written and up to two responses to it come
    -- in time, and the engine hears a text of more than blanks in the samples.
    -- Then the pass returns that text: it has cut the audio into frames, and the engine was given
    -- exactly the samples of the audio, each normalised, in their order. The worker is free again.
    pub dictation_delivers :
        (w : Worker S M) (k : ℕ) (root : String) (m : M) (audio : UtteranceAudio)
        (asked : AsrRequest) (text : Text)
        → w.active ≡ none
        → IsPath root
        → Serves h w root m
        → validate_batch_request audio asked ≡ ok tt
        → length audio.samples ≤ max_utterance_samples
        → h.transcribe_samples m (map normalize audio.samples) ≡ ok text
        → is_blank text ≡ false
        → (v : Worker S M) × (j : ℕ) × (run normalize
              (request finite h waits deadline)
              granite_artifact_id
              root
              moments
              deadline
              audio
              asked
              (linked w k)
            ≡ (
              linked v j,
              ok (record {
                session_id = asked.session_id;
                raw_text = text;
                text = normalize_engine_text text;
                provenance = finalized_stream;
                metrics = record {
                  input_samples = length audio.samples;
                  final_segments = 1;
                  draft_revisions = 0;
                };
              }),
            ))
          × IsServing m v
    unfolding run pass_run request_expect join_words
    dictation_delivers w k root m audio asked text free path serves good fits heard said =
        let s = worker_session_id asked.session_id in
        let fs = chunks retained_push_frame_samples audio.samples in
        let (v, e, serving) = handle_load finite h w k root m path free serves in
        let k1 = saturating_add64 k 1 in
        let k2 = saturating_add64 k1 1 in
        let xs = map normalize audio.samples in
        (
          record v { active = none },
          saturating_add64 (later k2 fs) 1,
          then_pass_ok _ _ (ap (λ r. (linked w k, r)) good)
              ∙ then_pass_ok _ _ (ap (λ r. (linked w k, r)) (in_time 0))
              ∙ then_pass_ok _ _ (
                  expect_lem (load_model granite_artifact_id root) (is_loaded granite_artifact_id)
                    (model_loaded granite_artifact_id) (linked w k) (linked v k1)
                    (load_step w k root v path e) (eq_refl granite_artifact_id) refl)
              ∙ then_pass_ok _ _ (
                  expect_lem (start_stream s audio.sample_rate_hz) (is_started s) (stream_started s)
                    (linked v k1) (linked (streaming v s [] 0) k2)
                    (rw (rate_of audio asked good) (start_step v k1 s m serving)) (==_refl s) refl)
              ∙ then_pass_ok _ _ (
                  frames_lem v k2 s 0 (length fs) [] xs fs nothing_heard
                    (chunks-sizes retained_push_frame_samples (omega arith) audio.samples)
                    (omega arith)
                    (omega (
                      arith,
                      ap length
                          (flatten-chunks retained_push_frame_samples (omega arith) audio.samples),
                    ))
                    (omega arith)
                    (ap (map normalize)
                      (flatten-chunks retained_push_frame_samples (omega arith) audio.samples)))
              ∙ then_pass_ok _ _ (
                  ap (λ r. (linked (streaming v s xs (length fs)) (later k2 fs), r))
                    (in_time (suc (length fs))))
              ∙ then_pass_ok _ _
                  (finish_step v (later k2 fs) s (length fs) xs m text serving.loaded heard)
              ∙ then_pass_ok _ _ (
                  ap
                    (λ r.
                      (linked (record v { active = none }) (saturating_add64 (later k2 fs) 1), r))
                    (collect_said s text said))
              ∙ rw (==_refl s) (
                  ap
                    (λ r.
                      (linked (record v { active = none }) (saturating_add64 (later k2 fs) 1), r))
                    ((conclude_lem asked audio (said_once text)).0 said)),
          record { holds = serving.holds; loaded = serving.loaded; free = refl },
        )
