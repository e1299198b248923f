-- ===== src/Tests/Format.antt =====
-- The choice of a stream format at concrete inputs: crates/speakeasy-audio/src/format.rs.
use speakeasy_granite_rust_m.Base.{◌≡◌, refl, true, false, none, [], ◌∷◌, ok, arith}
use speakeasy_granite_rust_m.Audio.Ring.{f32, i16}
use speakeasy_granite_rust_m.Audio.Format.{
  NativeStreamCandidate, NegotiationPreference, negotiate_native_format,
}
use speakeasy_granite_rust_m.Audio.Format.Preferred.{IsChoice, negotiate-IsChoice}

-- `NegotiationPreference::default`.
abbrev default_preference : NegotiationPreference
default_preference = record {
  preferred_sample_rate_hz = none;
  prefer_mono = true;
  sample_format = f32;
}

abbrev stereo : NativeStreamCandidate
stereo = record {
  config = record { sample_format = f32; sample_rate_hz = 48000; channels = 2 };
  is_device_default = true;
}

abbrev mono : NativeStreamCandidate
mono = record {
  config = record { sample_format = i16; sample_rate_hz = 44100; channels = 1 };
  is_device_default = false;
}

mono_first : negotiate_native_format (stereo ∷ mono ∷ []) default_preference ≡ ok mono.config
unfolding negotiate_native_format
mono_first = refl

negotiate-IsChoice_example :
    IsChoice default_preference
      (stereo ∷ mono ∷ [])
      (negotiate_native_format (stereo ∷ mono ∷ []) default_preference)
negotiate-IsChoice_example =
    negotiate-IsChoice default_preference (stereo ∷ mono ∷ []) (omega arith, (omega arith, tt))
