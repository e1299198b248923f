-- ===== src/Tests/Ring.antt =====
-- The capture ring at concrete inputs: crates/speakeasy-audio/src/callback.rs. A sample is a number.
use speakeasy_granite_rust_m.Base.{
  ℕ, ◌≡◌, refl, false, Option, none, some, List, [], ◌∷◌, arith, ltb, ◌%◌,
}
use speakeasy_granite_rust_m.Audio.Discontinuity.{
  no_discontinuity, device_reported, callback_queue_overflow, bits, from_bits_truncate,
  from_bits_truncate-bits,
}
use speakeasy_granite_rust_m.Audio.Ring.{
  NativeSample, f32, NativeStreamConfig, CallbackStamp, Ring, Writing, CapturedNativeBlock,
  fresh_ring, new_ring, default_counters,
}
use speakeasy_granite_rust_m.Audio.Ring.Produce.{begin_write, write_block}
use speakeasy_granite_rust_m.Audio.Ring.Consume.{try_pop}
use speakeasy_granite_rust_m.Audio.Ring.System.{
  System, Action, begins, continues, pops, Event, step, run, started,
}
use speakeasy_granite_rust_m.Audio.Ring.Refine.{RunsAsQueue, ring-RunsAsQueue}
use speakeasy_granite_rust_m.Audio.Ring.Conserve.{
  Balanced, frames_conserved, Reports, round-Reports,
}

abbrev plain : NativeSample ℕ ℕ
plain = record {
  format = f32;
  to_normalized_f32 = λ x. record { value = x; clipped = ltb 100 x; non_finite = false };
}

abbrev stereo : NativeStreamConfig
stereo = record { sample_format = f32; sample_rate_hz = 8; channels = 2 }

-- Two slots of two frames.
abbrev small : Ring ℕ
small = fresh_ring 0 7 stereo 2 2

abbrev empty_block : CapturedNativeBlock ℕ
empty_block = record {
  samples = 0 ∷ 0 ∷ 0 ∷ 0 ∷ 0 ∷ [];
  sample_len = 0;
  frames = 0;
  metadata = none;
}

abbrev stamp : CallbackStamp
stamp = record { first_frame_index = 50; capture_monotonic_ns = 9; discontinuity = device_reported }

-- Five frames, of which one is popped in time for four to fit, and the last is dropped.
abbrev script : List (Action ℕ)
script =
    begins (1 ∷ 2 ∷ 3 ∷ 4 ∷ 5 ∷ 6 ∷ 7 ∷ 8 ∷ 9 ∷ 10 ∷ []) stamp
    ∷ continues
    ∷ continues
    ∷ continues
    ∷ pops
    ∷ pops
    ∷ pops
    ∷ []

ring-RunsAsQueue_example :
    RunsAsQueue plain 0 2
      (started small empty_block)
      script
      (run plain (started small empty_block) script)
unfolding new_ring
ring-RunsAsQueue_example =
    ring-RunsAsQueue plain 0 7 stereo 2 2 small empty_block script (omega arith) (omega arith)
      (omega arith) (omega arith) (omega arith) refl

abbrev final_of : Option (System ℕ ℕ × List (Event ℕ)) → System ℕ ℕ
final_of none = started small empty_block
final_of (some (q, es)) = q

abbrev events_of : Option (System ℕ ℕ × List (Event ℕ)) → List (Event ℕ)
events_of none = []
events_of (some (q, es)) = es

abbrev outcome : Option (System ℕ ℕ × List (Event ℕ))
outcome = run plain (started small empty_block) script

script_counts :
    ((final_of outcome).ring.counters.native_frames_received ≡ 5)
    × ((final_of outcome).ring.counters.native_frames_enqueued ≡ 4)
    × ((final_of outcome).ring.counters.native_frames_dropped ≡ 1)
    × ((final_of outcome).callback.pending_discontinuity ≡ callback_queue_overflow)
unfolding run step begin_write write_block try_pop
script_counts = (refl, refl, refl, refl)

frames_conserved_example : Balanced (final_of outcome)
unfolding run step begin_write write_block try_pop
frames_conserved_example =
    frames_conserved plain small empty_block script (final_of outcome) (events_of outcome)
      (omega arith) refl refl

abbrev last_round : Writing ℕ
last_round = record {
  source = 1 ∷ 2 ∷ 3 ∷ 4 ∷ [];
  stamp = stamp;
  frame_count = 2;
  accepted = 0;
  discontinuity = device_reported;
}

-- Both slots are taken.
abbrev crowded : System ℕ ℕ
crowded = record (started small empty_block) {
  ring = record small {
    published_blocks = 2;
    counters = record default_counters { native_frames_received = 2 };
  };
  callback = record {
    write_cursor = 2;
    source_sequence = 2;
    expected_first_frame = none;
    pending_discontinuity = no_discontinuity;
  };
  writing = some last_round;
}

crowded-Balanced : Balanced crowded
crowded-Balanced = ground arith

round-Reports_example : Reports last_round crowded (step plain crowded continues)
round-Reports_example = round-Reports plain crowded crowded-Balanced last_round refl

from_bits_truncate-bits_example :
    (from_bits_truncate (bits device_reported) ≡ device_reported)
    × (bits (from_bits_truncate 255) ≡ 255 % 8)
from_bits_truncate-bits_example = from_bits_truncate-bits device_reported 255
