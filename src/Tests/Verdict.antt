-- ===== src/Tests/Verdict.antt =====
-- Verdicts at concrete inputs: crates/speakeasy-worker/src/verdict.rs.
use speakeasy_granite_rust_m.Base.{ℕ, ◌≡◌, refl, none, some, [], ◌∷◌, ◌&&◌, leb, ok}
use speakeasy_granite_rust_m.Text.{Text, split_whitespace, words_from, is_whitespace}
use speakeasy_granite_rust_m.FinalPass.{FinalTranscript, finalized_stream}
use speakeasy_granite_rust_m.Verdict.{
  Unicode, tokens, is_plausible, granite_implausible, judge_granite_pass,
}
use speakeasy_granite_rust_m.Verdict.Fit.{IsExact, judge-IsExact}

-- The lower case letters alone.
abbrev ascii : Unicode
ascii = record { is_alphanumeric = λ c. leb 0x61 c && leb c 0x7a; to_lowercase = λ c. c ∷ [] }

-- "a b, - c d e f".
abbrev chatty : Text
chatty =
    0x61 ∷ 0x20 ∷ 0x62 ∷ 0x2c ∷ 0x20 ∷ 0x2d ∷ 0x20 ∷ 0x63 ∷ 0x20 ∷ 0x64 ∷ 0x20 ∷ 0x65 ∷ 0x20 ∷ 0x66
    ∷ []

abbrev heard : Text → ℕ → FinalTranscript
heard text samples = record {
  session_id = 1;
  raw_text = text;
  text = text;
  provenance = finalized_stream;
  metrics = record { input_samples = samples; final_segments = 1; draft_revisions = 0 };
}

chatty_words :
    tokens ascii chatty
    ≡ (0x61 ∷ []) ∷ (0x62 ∷ []) ∷ (0x63 ∷ []) ∷ (0x64 ∷ []) ∷ (0x65 ∷ []) ∷ (0x66 ∷ []) ∷ []
unfolding tokens split_whitespace words_from is_whitespace
chatty_words = refl

-- Six words need three quarters of a second.
chatty_refused :
    (judge_granite_pass ascii (ok (some (heard chatty 11999)))).reason ≡ some granite_implausible
unfolding judge_granite_pass tokens is_plausible split_whitespace words_from is_whitespace
chatty_refused = refl

chatty_delivered : (judge_granite_pass ascii (ok (some (heard chatty 12000)))).reason ≡ none
unfolding judge_granite_pass tokens is_plausible split_whitespace words_from is_whitespace
chatty_delivered = refl

judge-IsExact_example : IsExact ascii (ok (some (heard chatty 12000))) (heard chatty 12000)
judge-IsExact_example = judge-IsExact ascii (ok (some (heard chatty 12000))) (heard chatty 12000)
