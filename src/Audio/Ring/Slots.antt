-- ===== src/Audio/Ring/Slots.antt =====
-- The blocks held in the slots, and what storing and copying do to them.
use speakeasy_granite_rust_m.Base.{
  ℕ, ◌*◌, some, List, [], ◌∷◌, ◌++◌, length, take, drop, zero, suc, ◌≤◌, ◌≡◌, refl, ap, arith,
  length-take, length-drop, length-append,
}
use speakeasy_granite_rust_m.Audio.Ring.{NativeStreamConfig, Slot, store_over}
use speakeasy_granite_rust_m.Audio.Ring.System.{Popped}

module _ {A : Type 0} where
  pub take_all : (n : ℕ) (xs : List A) → length xs ≤ n → take n xs ≡ xs
  take_all zero [] h = refl
  take_all (suc n) [] h = refl
  take_all zero (x ∷ xs) h = absurd (omega arith)
  take_all (suc n) (x ∷ xs) h = ap (λ ys. x ∷ ys) (take_all n xs (omega arith))

  pub take-store_over :
      (dest src : List A) → length src ≤ length dest → take (length src) (store_over dest src) ≡ src
  take-store_over [] [] h = refl
  take-store_over (d ∷ dest) [] h = refl
  take-store_over [] (s ∷ src) h = absurd (omega arith)
  take-store_over (d ∷ dest) (s ∷ src) h =
      ap (λ ys. s ∷ ys) (take-store_over dest src (omega arith))

  pub length-store_over : (dest src : List A) → length (store_over dest src) ≡ length dest
  length-store_over [] src = refl
  length-store_over (d ∷ dest) [] = refl
  length-store_over (d ∷ dest) (s ∷ src) = ap suc (length-store_over dest src)

  -- What `try_pop` leaves in the first `n` places of its block.
  pub take-copied :
      (n : ℕ) (dest src : List A)
      → n ≤ length dest
      → n ≤ length src
      → take n (store_over (take n dest) src ++ drop n dest) ≡ take n src
  take-copied zero dest src h k = refl
  take-copied (suc n) [] src h k = absurd (omega arith)
  take-copied (suc n) (d ∷ dest) [] h k = absurd (omega arith)
  take-copied (suc n) (d ∷ dest) (s ∷ src) h k =
      ap (λ ys. s ∷ ys) (take-copied n dest src (omega arith) (omega arith))

  pub length-copied :
      (n : ℕ) (dest src : List A)
      → length (store_over (take n dest) src ++ drop n dest) ≡ length dest
  length-copied n dest src = omega (
    arith,
    length-append (store_over (take n dest) src) (drop n dest),
    length-store_over (take n dest) src,
    length-take n dest,
    length-drop n dest,
  )

module _ {F : Type 0} where
  -- A slot as the consumer sees it.
  abbrev pub view : NativeStreamConfig → ℕ → Slot F → Popped F
  view native stream_id slot = record {
    samples = take (slot.frames * native.channels) slot.samples;
    frames = slot.frames;
    metadata = some (record {
      stream_id = stream_id;
      source_sequence = slot.source_sequence;
      sample_rate_hz = native.sample_rate_hz;
      first_frame_index = slot.first_frame_index;
      capture_monotonic_ns = slot.capture_monotonic_ns;
      discontinuity = slot.discontinuity;
    });
  }
