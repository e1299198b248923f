-- ===== src/FinalPass/Normal.antt =====
-- `normalize_engine_text`, and what the pass concludes from what it heard.
use speakeasy_granite_rust_m.Base.{
  ◌≡◌, ◌≢◌, refl, ap, true, false, List, [], ◌∷◌, ok, err, All, length,
}
use speakeasy_granite_rust_m.Text.{Text, is_blank, split_whitespace, join_words}
use speakeasy_granite_rust_m.Text.Words.{
  IsWord, split_whitespace-IsWord, split_whitespace-join_words, split_whitespace-nil,
}
use speakeasy_granite_rust_m.FinalPass.{
  normalize_engine_text, conclude, choose, Heard, AsrRequest, UtteranceAudio, FinalTranscript,
  domain_error, no_speech_detected,
}

-- The text delivered is in normal form: normalising it again changes nothing.
pub normalize_idem :
    (s : Text) → normalize_engine_text (normalize_engine_text s) ≡ normalize_engine_text s
unfolding normalize_engine_text
normalize_idem s =
    ap join_words (split_whitespace-join_words (split_whitespace s) (split_whitespace-IsWord s))

join_words-ne-nil : (ws : List Text) → ws ≢ [] → All IsWord ws → join_words ws ≢ []
unfolding join_words
join_words-ne-nil [] n h = absurd (n refl)
join_words-ne-nil ([] ∷ ws) n (h, t) = absurd (h.0 refl)
join_words-ne-nil ((c ∷ w) ∷ []) n h = λ e. cc
join_words-ne-nil ((c ∷ w) ∷ v ∷ ws) n h = λ e. cc

pub normalize-ne-nil : (s : Text) → is_blank s ≡ false → normalize_engine_text s ≢ []
unfolding normalize_engine_text
normalize-ne-nil s h =
    join_words-ne-nil (split_whitespace s) ((split_whitespace-nil s).1 h)
      (split_whitespace-IsWord s)

normalize_blank : (s : Text) → is_blank s ≡ true → normalize_engine_text s ≡ []
unfolding normalize_engine_text join_words
normalize_blank s h = ap join_words ((split_whitespace-nil s).0 h)

abbrev pub transcript_of : AsrRequest → UtteranceAudio → Heard → FinalTranscript
transcript_of asked audio heard = record {
  session_id = asked.session_id;
  raw_text = (choose heard).0;
  text = normalize_engine_text (choose heard).0;
  provenance = (choose heard).1;
  metrics = record {
    input_samples = length audio.samples;
    final_segments = length heard.final_lines;
    draft_revisions = heard.draft_revisions;
  };
}

-- What was heard makes a transcript exactly when it is more than blanks; otherwise the pass ends
-- with `NoSpeechDetected`.
pub conclude_lem :
    (asked : AsrRequest) (audio : UtteranceAudio) (heard : Heard)
    → (is_blank (choose heard).0 ≡ false
        → conclude asked audio heard ≡ ok (transcript_of asked audio heard))
      × (is_blank (choose heard).0 ≡ true
          → conclude asked audio heard ≡ err (domain_error no_speech_detected))
unfolding conclude
conclude_lem asked audio heard = (
  λ h. some_text (normalize_engine_text (choose heard).0) refl h,
  λ h. rw (normalize_blank (choose heard).0 h, conclude),
)
  where
    some_text :
        (t : Text)
        → normalize_engine_text (choose heard).0 ≡ t
        → is_blank (choose heard).0 ≡ false
        → conclude asked audio heard ≡ ok (transcript_of asked audio heard)
    some_text [] e h = absurd (normalize-ne-nil (choose heard).0 h e)
    some_text (c ∷ cs) e h = rw (e, conclude)
