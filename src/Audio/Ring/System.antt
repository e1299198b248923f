-- ===== src/Audio/Ring/System.antt =====
-- The callback and the consumer of one ring, a step of either at a time.
use speakeasy_granite_rust_m.Base.{
  ℕ, Bool, Option, none, some, List, [], ◌∷◌, if◌then◌else◌, take, ◌⊎◌, inl, inr,
}
use speakeasy_granite_rust_m.Audio.Ring.{
  NativeSample, CallbackStamp, CallbackWrite, Ring, CaptureCallback, Writing, AudioChunkMetadata,
  CapturedNativeBlock, new_callback,
}
use speakeasy_granite_rust_m.Audio.Ring.Produce.{begin_write, write_block}
use speakeasy_granite_rust_m.Audio.Ring.Consume.{try_pop}

-- `writing` is the call of `write` that is on, and `destination` the consumer's block.
pub record System (T F : Type 0) : Type 0 where
  pub ring : Ring F
  pub callback : CaptureCallback
  pub writing : Option (Writing T)
  pub read_cursor : ℕ
  pub destination : CapturedNativeBlock F

pub data Action (T : Type 0) : Type 0 where
  -- A call of `write`, which the device makes one at a time; a round of its loop; and `try_pop`.
  begins : List T → CallbackStamp → Action T
  continues pops : Action T

-- A block as the consumer sees it.
pub record Popped (F : Type 0) : Type 0 where
  pub samples : List F
  pub frames : ℕ
  pub metadata : Option AudioChunkMetadata

pub data Event (F : Type 0) : Type 0 where
  wrote : CallbackWrite → Event F
  popped : Popped F → Event F
  nothing : Event F

abbrev pub shown : {F : Type 0} → CapturedNativeBlock F → Popped F
shown block = record {
  samples = take block.sample_len block.samples;
  frames = block.frames;
  metadata = block.metadata;
}

abbrev lift_some : {A B : Type 0} → (A → B) → Option A → Option B
lift_some f none = none
lift_some f (some a) = some (f a)

module _ {T F : Type 0} where
  abbrev after_write :
      System T F → Ring F × CaptureCallback × (CallbackWrite ⊎ Writing T) → System T F × Event F
  after_write s (r, c, inl result) =
      (record s { ring = r; callback = c; writing = none }, wrote result)
  after_write s (r, c, inr w) = (record s { ring = r; callback = c; writing = some w }, nothing)

  abbrev after_pop : System T F → Ring F × ℕ × CapturedNativeBlock F × Bool → System T F × Event F
  after_pop s (r, cursor, block, got) = (
    record s { ring = r; read_cursor = cursor; destination = block },
    if got then popped (shown block) else nothing,
  )

  begin_when_idle :
      NativeSample T F
      → System T F
      → List T
      → CallbackStamp
      → Option (Writing T)
      → System T F × Event F
  begin_when_idle sample s samples stamp (some w) = (s, nothing)
  begin_when_idle sample s samples stamp none =
      after_write s (begin_write sample s.ring s.callback samples stamp)

  continue_when_on :
      NativeSample T F → System T F → Option (Writing T) → Option (System T F × Event F)
  continue_when_on sample s none = some (s, nothing)
  continue_when_on sample s (some w) =
      lift_some (after_write s) (write_block sample s.ring s.callback w)

  -- A step; `none` is a panic.
  unfoldable pub step : NativeSample T F → System T F → Action T → Option (System T F × Event F)
  unfolding begin_when_idle continue_when_on
  step sample s (begins samples stamp) = some (begin_when_idle sample s samples stamp s.writing)
  step sample s continues = continue_when_on sample s s.writing
  step sample s pops = lift_some (after_pop s) (try_pop s.ring s.read_cursor s.destination)

  abbrev pub keep_event :
      Event F → Option (System T F × List (Event F)) → Option (System T F × List (Event F))
  keep_event e none = none
  keep_event e (some (s, es)) = some (s, e ∷ es)

  unfoldable pub run :
      NativeSample T F → System T F → List (Action T) → Option (System T F × List (Event F))
  run sample s [] = some (s, [])
  run sample s (a ∷ acts) = elim (step sample s a) [
    | none ↦ none
    | some (q, e) ↦ keep_event e (run sample q acts)
  ]

-- A system just started, with the block that its consumer copies into.
abbrev pub started : {T F : Type 0} → Ring F → CapturedNativeBlock F → System T F
started r destination = record {
  ring = r;
  callback = new_callback;
  writing = none;
  read_cursor = 0;
  destination = destination;
}
