-- ===== src/Audio/Processing/Blocks.antt =====
-- The blocks that the worker takes from the ring are full, and the ring keeps its shape.
use native.Mathlib.Nat.{le_of_mul-le-mul_right}
use speakeasy_granite_rust_m.Base.{
  ℕ, ◌-◌, ◌*◌, ◌≤◌, ◌<◌, ◌≡◌, Option, none, some, List, [], ◌++◌, length, arith, sym, ◌∙◌, All,
  length-take, append-nil,
}
use mathlib.Core.Path.{subst}
use speakeasy_granite_rust_m.Audio.Window.{window-All}
use speakeasy_granite_rust_m.Audio.Ring.{NativeSample, Ring, Slot, CallbackStamp}
use speakeasy_granite_rust_m.Audio.Ring.System.{
  System, Action, begins, continues, pops, Event, wrote, popped, nothing, Popped, step,
}
use speakeasy_granite_rust_m.Audio.Ring.Slots.{view}
use speakeasy_granite_rust_m.Audio.Ring.Steps.{Inv, held, IsSized, popped_of, Advances, pop_lem}
use speakeasy_granite_rust_m.Audio.Ring.Consume.{try_pop}
use speakeasy_granite_rust_m.Audio.Ring.Produce.{begin_write, write_block}

-- A block with all samples of its frames, and with metadata.
abbrev pub HasMetadata : {A : Type 0} → Option A → Type 0
HasMetadata none = ⊥
HasMetadata (some m) = Unit {0}

abbrev pub IsFull : {F : Type 0} → Ring F → Popped F → Type 0
IsFull r block =
    (length block.samples ≡ block.frames * r.native.channels)
    × (block.frames ≤ r.frames_per_block)
    × HasMetadata block.metadata

le_cancel : (a b c : ℕ) → a * c ≤ b * c → 0 < c → a ≤ b
le_cancel a b c h p = le_of_mul-le-mul_right h p

module _ {T F : Type 0} (sample : NativeSample T F) (s : System T F) (v : Inv s) where
  view-IsFull :
      (slot : Slot F)
      → IsSized s.ring slot
      → IsFull s.ring (view s.ring.native s.ring.stream_id slot)
  view-IsFull slot (e, l) = (
    omega (arith, length-take (slot.frames * s.ring.native.channels) slot.samples),
    le_cancel slot.frames s.ring.frames_per_block s.ring.native.channels l v.has_channels,
    tt,
  )

  held-All : All (IsFull s.ring) (held s)
  held-All =
      window-All (view s.ring.native s.ring.stream_id) (IsSized s.ring) (IsFull s.ring) s.ring.slots
        s.ring.consumed_blocks (s.ring.published_blocks - s.ring.consumed_blocks) view-IsFull
        v.sized

-- A step leaves the format and the size of blocks.
abbrev pub KeepsShape : {T F : Type 0} → System T F → Option (System T F × Event F) → Type 0
KeepsShape s none = Unit {0}
KeepsShape s (some (q, e)) =
    (q.ring.native.channels ≡ s.ring.native.channels)
    × (q.ring.frames_per_block ≡ s.ring.frames_per_block)

-- `try_pop` finds nothing only in an empty ring, and does not publish.
abbrev pub FindsRest : {T F : Type 0} → System T F → Event F → Type 0
FindsRest s nothing = s.read_cursor ≡ s.ring.published_blocks
FindsRest s (wrote result) = ⊥
FindsRest s (popped block) = Unit {0}

abbrev PopsOnly : {T F : Type 0} → System T F → Option (System T F × Event F) → Type 0
PopsOnly s none = Unit {0}
PopsOnly s (some (q, e)) = FindsRest s e × (q.ring.published_blocks ≡ s.ring.published_blocks)

pops-KeepsShape :
    {T F : Type 0} (sample : NativeSample T F) (s : System T F) → KeepsShape s (step sample s pops)
unfolding step try_pop
pops-KeepsShape sample s = ground arith

pops-PopsOnly :
    {T F : Type 0} (sample : NativeSample T F) (s : System T F) → PopsOnly s (step sample s pops)
unfolding step try_pop
pops-PopsOnly sample s = ground arith

begins-KeepsShape :
    {T F : Type 0} (sample : NativeSample T F) (s : System T F) (samples : List T)
    (stamp : CallbackStamp)
    → KeepsShape s (step sample s (begins samples stamp))
unfolding step begin_write
begins-KeepsShape sample s samples stamp = ground arith

continues-KeepsShape :
    {T F : Type 0} (sample : NativeSample T F) (s : System T F)
    → KeepsShape s (step sample s continues)
unfolding step write_block
continues-KeepsShape sample s = ground arith

pub step-KeepsShape :
    {T F : Type 0} (sample : NativeSample T F) (s : System T F) (a : Action T)
    → KeepsShape s (step sample s a)
step-KeepsShape sample s (begins samples stamp) = begins-KeepsShape sample s samples stamp
step-KeepsShape sample s continues = continues-KeepsShape sample s
step-KeepsShape sample s pops = pops-KeepsShape sample s

-- What `try_pop` gives: the ring's invariant, and a full block if any.
abbrev IsFullEvent : {F : Type 0} → Ring F → Event F → Type 0
IsFullEvent r (popped block) = IsFull r block
IsFullEvent r _ = Unit {0}

abbrev pub GivesFull : {T F : Type 0} → System T F → Option (System T F × Event F) → Type 0
GivesFull s none = ⊥
GivesFull s (some (q, e)) =
    Inv q
    × IsFullEvent s.ring e
    × (popped_of e ++ held q ≡ held s)
    × (q.ring.native.channels ≡ s.ring.native.channels)
    × (q.ring.frames_per_block ≡ s.ring.frames_per_block)
    × FindsRest s e
    × (q.ring.published_blocks ≡ s.ring.published_blocks)

pub pops-GivesFull :
    {T F : Type 0} (sample : NativeSample T F) (s : System T F)
    → Inv s
    → GivesFull s (step sample s pops)
pops-GivesFull {T} {F} sample s v =
    go (step sample s pops) (pop_lem sample s v) (pops-KeepsShape sample s) (pops-PopsOnly sample s)
  where
    full :
        (e : Event F) (rest : List (Popped F))
        → All (IsFull s.ring) (popped_of e ++ rest)
        → IsFullEvent s.ring e
    full (popped block) rest a = a.0
    full (wrote result) rest a = tt
    full nothing rest a = tt

    go :
        (o : Option (System T F × Event F))
        → Advances s [] o
        → KeepsShape s o
        → PopsOnly s o
        → GivesFull s o
    go none a k p = a
    go (some (q, e)) (w, h, b, l) (c, f) (i, j) =
        let g = h ∙ append-nil (held s) in
        (
          w,
          full e (held q) (subst (All (IsFull s.ring)) (sym g) (held-All sample s v)),
          g,
          c,
          f,
          i,
          j,
        )
