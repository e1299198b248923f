-- ===== src/Verdict.antt =====
-- crates/speakeasy-worker/src/verdict.rs: whether a transcript is fit to deliver.
use speakeasy_granite_rust_m.Base.{
  ℕ, ◌+◌, ◌*◌, min, Bool, true, false, not, ◌||◌, Option, none, some, List, [], ◌∷◌, ◌++◌, leb,
  ◌==◌, if◌then◌else◌, length, Result, ok, err,
}
use speakeasy_granite_rust_m.Text.{Text, split_whitespace}
use speakeasy_granite_rust_m.FinalPass.{
  ErrorCode, app_not_ready, no_speech_detected, engine_quarantined, DomainError, FinalTranscript,
}
pub mod Fit

-- The tables of Unicode that `char` reads: a lower case form may be several characters.
pub record Unicode : Type 0 where
  pub is_alphanumeric : ℕ → Bool
  pub to_lowercase : ℕ → List ℕ

abbrev kept : Unicode → Text → Text
kept u [] = []
kept u (c ∷ s) =
    let rest = kept u s in
    if u.is_alphanumeric c || c == 0x27 then u.to_lowercase c ++ rest else rest

abbrev pub kept_words : Unicode → List Text → List Text
kept_words u [] = []
kept_words u (w ∷ ws) = elim (kept u w) [ [] ↦ kept_words u ws | c ∷ s ↦ (c ∷ s) ∷ kept_words u ws ]

unfoldable pub tokens : Unicode → Text → List Text
tokens u text = kept_words u (split_whitespace text)

abbrev u32_max : ℕ
u32_max = 4294967295

-- `u32::try_from(n).unwrap_or(u32::MAX)`.
abbrev pub as_u32 : ℕ → ℕ
as_u32 n = min n u32_max

-- With the duration as its samples at 16 kHz: `words <= 3.0 + samples / 16000.0 * 4.0`, times 4000.
-- For numbers of type u32 the comparison of f64 agrees: a bound that is a whole number is exact, and
-- any other one is further than 1/4000 from the next.
unfoldable pub is_plausible : ℕ → ℕ → Bool
is_plausible candidate_words samples = leb (as_u32 candidate_words * 4000) (12000 + samples)

pub data FinalSourceReason : Type 0 where
  granite_implausible granite_empty granite_failed granite_unavailable : FinalSourceReason
  granite_quarantined no_speech : FinalSourceReason

pub record GraniteVerdict : Type 0 where
  pub candidate : Option FinalTranscript
  pub delivered : Option FinalTranscript
  pub failure : Option ErrorCode
  pub reason : Option FinalSourceReason

abbrev reason_of : ErrorCode → FinalSourceReason
reason_of engine_quarantined = granite_quarantined
reason_of no_speech_detected = no_speech
reason_of _ = granite_failed

abbrev is_empty : Text → Bool
is_empty [] = true
is_empty (c ∷ s) = false

decide :
    Unicode
    → Option FinalTranscript
    → Option ErrorCode
    → Option FinalTranscript × Option FinalSourceReason
unfolding tokens is_plausible
decide u candidate (some code) = (none, some (reason_of code))
decide u none none = (none, some granite_unavailable)
decide u (some t) none =
    if is_empty t.text
    then (none, some granite_empty)
    else if not (is_plausible (length (tokens u t.text)) (as_u32 t.metrics.input_samples))
    then (none, some granite_implausible)
    else (some t, none)

-- The candidate and the failure of a pass.
abbrev parts :
    Result DomainError (Option FinalTranscript) → Option FinalTranscript × Option ErrorCode
parts (ok candidate) = (candidate, none)
parts (err error) = (none, some error.code)

unfoldable pub judge_granite_pass :
    Unicode → Result DomainError (Option FinalTranscript) → GraniteVerdict
unfolding decide
judge_granite_pass u pass =
    let (candidate, failure) = parts pass in
    let (delivered, reason) = decide u candidate failure in
    record { candidate = candidate; delivered = delivered; failure = failure; reason = reason }
