-- ===== src/Verdict/Fit.antt =====
-- Exactly the fit transcripts are delivered.
use speakeasy_granite_rust_m.Base.{
  ◌+◌, ◌*◌, ◌≤◌, ◌≡◌, ◌≢◌, ◌↔◌, refl, not, Option, none, some, List, [], ◌∷◌, arith, is_some,
  length, Result, ok, err,
}
use speakeasy_granite_rust_m.Text.{Text, split_whitespace}
use speakeasy_granite_rust_m.FinalPass.{DomainError, FinalTranscript}
use speakeasy_granite_rust_m.Verdict.{
  Unicode, kept_words, tokens, as_u32, is_plausible, judge_granite_pass,
}

-- A transcript that says something, in at most three words and four more for each second.
abbrev pub IsFit : Unicode → FinalTranscript → Type 0
IsFit u t =
    (t.text ≢ [])
    × (as_u32 (length (tokens u t.text)) * 4000 ≤ 12000 + as_u32 t.metrics.input_samples)

abbrev pub IsExact :
    Unicode → Result DomainError (Option FinalTranscript) → FinalTranscript → Type 0
IsExact u pass t =
    ((judge_granite_pass u pass).delivered ≡ some t ↔ (pass ≡ ok (some t)) × IsFit u t)
    × (is_some (judge_granite_pass u pass).delivered
        ≡ not (is_some (judge_granite_pass u pass).reason))

-- A transcript is delivered exactly when the pass returned it and it is fit; and a verdict either
-- delivers or gives a reason, never both.
pub judge-IsExact :
    (u : Unicode) (pass : Result DomainError (Option FinalTranscript)) (t : FinalTranscript)
    → IsExact u pass t
unfolding judge_granite_pass is_plausible
judge-IsExact u (err e) t = ground arith
judge-IsExact u (ok none) t = ground arith
judge-IsExact u (ok (some s)) t = go s.text refl
  where
    go : (x : Text) → s.text ≡ x → IsExact u (ok (some s)) t
    go [] e = ground arith
    go (c ∷ x) e = ground arith

length-kept_words : (u : Unicode) (ws : List Text) → length (kept_words u ws) ≤ length ws
length-kept_words u [] = omega arith
length-kept_words u (w ∷ ws) = let h = length-kept_words u ws in ground arith

-- The gate never refuses a text for its punctuation: a text that is not empty and has, by its
-- spaces, at most three words and four more for each second, is delivered as it is.
pub judge_delivers :
    (u : Unicode) (t : FinalTranscript)
    → t.text ≢ []
    → length (split_whitespace t.text) * 4000 ≤ 12000 + as_u32 t.metrics.input_samples
    → (judge_granite_pass u (ok (some t))).delivered ≡ some t
unfolding tokens
judge_delivers u t n b =
    let h = length-kept_words u (split_whitespace t.text) in
    let ((_, back), _) = judge-IsExact u (ok (some t)) t in back (refl, (n, omega arith))
