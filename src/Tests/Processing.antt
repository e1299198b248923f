-- ===== src/Tests/Processing.antt =====
-- The audio pipeline at concrete inputs: crates/speakeasy-audio/src/processing.rs. A float is a number.
use speakeasy_granite_rust_m.Base.{
  ℕ, ◌+◌, ◌*◌, ◌/◌, ◌-◌, ◌≡◌, refl, false, none, some, List, [], ◌∷◌, arith, ok,
}
use speakeasy_granite_rust_m.Audio.Discontinuity.{no_discontinuity}
use speakeasy_granite_rust_m.Audio.Ring.{
  NativeSample, f32, CallbackStamp, AudioChunkMetadata, new_ring, fresh_ring,
}
use speakeasy_granite_rust_m.Audio.Ring.Produce.{begin_write, write_block}
use speakeasy_granite_rust_m.Audio.Ring.Consume.{try_pop}
use speakeasy_granite_rust_m.Audio.Ring.System.{System, step, started}
use speakeasy_granite_rust_m.Audio.Format.Downmix.{average_all_explicit, validate, downmix_into}
use speakeasy_granite_rust_m.Audio.Processing.{Floats}
use speakeasy_granite_rust_m.Audio.Processing.Resampler.{new_resampler, process_into, emit}
use speakeasy_granite_rust_m.Audio.Processing.Bounds.{
  ProcessOk, resampled_bound, process_into-IsValid,
}
use speakeasy_granite_rust_m.Audio.Processing.Build.{build_audio_pipeline, new_worker}
use speakeasy_granite_rust_m.Audio.Processing.Sound.{Builds, build_audio_pipeline-Builds}
use speakeasy_granite_rust_m.Audio.Processing.Buffers.{
  push_block, push_sample, new_timed_ring, sample_metadata, copy_into, append_block,
}
use speakeasy_granite_rust_m.Audio.Processing.Retain.{Keeps, stamped, push_block-Keeps}
use speakeasy_granite_rust_m.Audio.Processing.Next.{append_if_active, process_block, process_next}
use speakeasy_granite_rust_m.Audio.Processing.Ends.{begin_utterance}
use speakeasy_granite_rust_m.Audio.Processing.Worker.{AudioPipelineConfig, AudioWorker}
use speakeasy_granite_rust_m.Audio.Processing.Turns.{
  Turn, writes, goes_on, processes, take_turn, run_turns, RunOk, run_turns-RunOk,
}
use speakeasy_granite_rust_m.Audio.Processing.Utterance.{produced}
use speakeasy_granite_rust_m.Audio.Processing.Recording.{
  Records, record_utterance, recorded_samples, record_utterance-Records,
}

abbrev plain : NativeSample ℕ ℕ
plain = record {
  format = f32;
  to_normalized_f32 = λ x. record { value = x; clipped = false; non_finite = false };
}

-- Doubles a mono stream of 8 samples a second, with a pre-roll of 4 samples and an utterance of 12.
abbrev numbers : Floats ℕ
numbers = record {
  silence = 0;
  between = λ a b numerator denominator. a + (b - a) * numerator / denominator;
  mean = λ xs. elim xs [ [] ↦ 0 | x ∷ rest ↦ x ];
}

abbrev config : AudioPipelineConfig
config = record {
  stream_id = 7;
  native = record { sample_format = f32; sample_rate_hz = 8; channels = 1 };
  target_sample_rate_hz = 16;
  channel_policy = average_all_explicit;
  callback_block_count = 2;
  max_native_frames_per_block = 2;
  pre_roll_ms = 250;
  utterance_capacity_frames = 12;
  max_utterance_ms = 1000;
  max_buffered_bytes = 1024;
}

abbrev stamp : CallbackStamp
stamp = record { first_frame_index = 0; capture_monotonic_ns = 0; discontinuity = no_discontinuity }

build_audio_pipeline-Builds_example :
    Builds {T = ℕ} 32 config (build_audio_pipeline numbers.silence 32 config)
build_audio_pipeline-Builds_example =
    build_audio_pipeline-Builds ℕ numbers.silence 32 config (omega arith) (omega arith)
      (omega arith) (omega arith) (omega arith)

abbrev first : System ℕ ℕ
first =
    started (fresh_ring 0 7 config.native 2 2)
      (record { samples = 0 ∷ 0 ∷ []; sample_len = 0; frames = 0; metadata = none })

abbrev worker : AudioWorker ℕ
worker = new_worker 0 32 config 6

pipeline : Builds {T = ℕ} 32 config (some (ok (first, worker)))
unfolding build_audio_pipeline validate new_ring
pipeline =
    build_audio_pipeline-Builds ℕ 0 32 config (omega arith) (omega arith) (omega arith)
      (omega arith) (omega arith)

-- Three samples in two blocks, of which one is processed before the utterance ends.
abbrev turns : List (Turn ℕ)
turns = writes (2 ∷ 4 ∷ 6 ∷ []) stamp ∷ goes_on ∷ processes ∷ goes_on ∷ processes ∷ []

run_turns-RunOk_example :
    RunOk plain numbers first worker 5 (run_turns plain numbers first worker turns)
run_turns-RunOk_example =
    run_turns-RunOk plain numbers first worker turns pipeline.0 pipeline.1 (omega arith)
      (omega arith)

record_utterance-Records_example :
    Records plain numbers worker
      (recorded_samples plain numbers 10 first worker turns)
      (record_utterance plain numbers 10 first worker turns)
record_utterance-Records_example =
    record_utterance-Records plain numbers 10 first worker turns pipeline.0 pipeline.1 refl
      (omega arith) (omega arith) (omega arith)

recorded : recorded_samples plain numbers 10 first worker turns ≡ 2 ∷ 3 ∷ 4 ∷ 5 ∷ 6 ∷ []
unfolding recorded_samples begin_utterance copy_into run_turns take_turn step process_next
    process_block downmix_into validate process_into emit push_block push_sample append_if_active
    append_block produced begin_write write_block try_pop
recorded = refl

abbrev source : AudioChunkMetadata
source = record {
  stream_id = 7;
  source_sequence = 3;
  sample_rate_hz = 8;
  first_frame_index = 40;
  capture_monotonic_ns = 5;
  discontinuity = no_discontinuity;
}

-- A ring of two places keeps the last two of three samples.
push_block-Keeps_example :
    Keeps {F = ℕ}
      (new_timed_ring 0 2)
      (5 ∷ 6 ∷ 7 ∷ [])
      (stamped {F = ℕ} (sample_metadata source 9 16) 0 (5 ∷ 6 ∷ 7 ∷ []))
      (push_block (new_timed_ring 0 2) (5 ∷ 6 ∷ 7 ∷ []) source 9 16)
push_block-Keeps_example =
    push_block-Keeps (new_timed_ring 0 2) (5 ∷ 6 ∷ 7 ∷ []) source 9 16
      (record { has_places = omega arith; within = omega arith; as_many = refl })

process_into-IsValid_example :
    ProcessOk numbers
      (new_resampler 8 16)
      2
      (resampled_bound 2 8 16)
      (process_into numbers (new_resampler 8 16) (resampled_bound 2 8 16) [] (1 ∷ 5 ∷ []))
process_into-IsValid_example =
    process_into-IsValid numbers (new_resampler 8 16) 2 (1 ∷ 5 ∷ [])
      (record { has_source = omega arith; has_target = omega arith; placed = (refl, refl) })
      (omega arith) (omega arith)
