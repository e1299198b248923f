-- ===== src/Audio/Format.antt =====
-- crates/speakeasy-audio/src/format.rs: the choice of a stream format among those that a device has.
-- The rank of a candidate, a tuple in the source, is the list of its parts.
use speakeasy_granite_rust_m.Base.{
  ℕ, zero, suc, ◌+◌, ◌-◌, Bool, true, false, not, ◌&&◌, ◌||◌, Option, none, some, List, [], ◌∷◌,
  ltb, ◌==◌, if◌then◌else◌, Result, ok, err,
}
use speakeasy_granite_rust_m.Audio.Ring.{
  NativeStreamConfig, NativeSampleFormat, f32, i16, u16, same_format,
}
pub mod Best
pub mod Preferred
pub mod Downmix

pub record NativeStreamCandidate : Type 0 where
  pub config : NativeStreamConfig
  pub is_device_default : Bool

-- The preferred format is named by the format itself.
pub record NegotiationPreference : Type 0 where
  pub preferred_sample_rate_hz : Option ℕ
  pub prefer_mono : Bool
  pub sample_format : NativeSampleFormat

pub data NegotiationError : Type 0 where
  no_supported_native_format : NegotiationError

-- `abs_diff`.
abbrev abs_diff : ℕ → ℕ → ℕ
abs_diff a b = (a - b) + (b - a)

abbrev pub rate_rank : Option ℕ → ℕ → ℕ
rate_rank none rate = 0
rate_rank (some preferred) rate = abs_diff rate preferred

unfoldable pub candidate_rank : NegotiationPreference → NativeStreamCandidate → List ℕ
candidate_rank p c =
    (if p.prefer_mono && c.config.channels == 1 then 0 else c.config.channels)
    ∷ (if c.is_device_default then 0 else 1)
    ∷ rate_rank p.preferred_sample_rate_hz c.config.sample_rate_hz
    ∷ (if same_format p.sample_format c.config.sample_format then 0 else 1)
    ∷ c.config.sample_rate_hz
    ∷ []

-- `cmp` of tuples: whether the first is less.
unfoldable pub less : List ℕ → List ℕ → Bool
less [] [] = false
less [] (y ∷ ys) = true
less (x ∷ xs) [] = false
less (x ∷ xs) (y ∷ ys) = ltb x y || (x == y && less xs ys)

-- Whether the first is preferred to the second.
unfoldable pub ranks_before :
    NegotiationPreference → NativeStreamCandidate → NativeStreamCandidate → Bool
unfolding candidate_rank less
ranks_before p c d = less (candidate_rank p c) (candidate_rank p d)

-- `min_by`, after its first element: of equals it keeps the earlier one.
unfoldable pub min_from :
    NegotiationPreference
    → NativeStreamCandidate
    → List NativeStreamCandidate
    → NativeStreamCandidate
unfolding ranks_before
min_from p c [] = c
min_from p c (d ∷ rest) =
    let other = min_from p d rest in
    let same = min_from p c rest in if ranks_before p d c then other else same

unfoldable pub negotiate_native_format :
    List NativeStreamCandidate → NegotiationPreference → Result NegotiationError NativeStreamConfig
unfolding min_from
negotiate_native_format [] p = err no_supported_native_format
negotiate_native_format (c ∷ rest) p = ok (min_from p c rest).config
