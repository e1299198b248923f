-- ===== src/Audio/Processing/Retain.antt =====
-- What the buffers keep: the pre-roll the last samples, and the utterance the first ones.
use native.Mathlib.Nat.{mod-lt}
use speakeasy_granite_rust_m.Base.{
  ℕ, zero, suc, ◌+◌, ◌-◌, ◌%◌, ◌≤◌, ◌<◌, ◌≡◌, true, Option, none, some, List, [], ◌∷◌, ◌++◌, ltb,
  length, take, drop, set, arith, refl, sym, ap, ◌∙◌, Bool-cases, inl, inr, length-append,
  length-set, length-drop, append_assoc, append-nil,
}
use speakeasy_granite_rust_m.Audio.Window.{window, window-store, window-over, length-window}
use speakeasy_granite_rust_m.Audio.Ring.{AudioChunkMetadata}
use speakeasy_granite_rust_m.Audio.Processing.Buffers.{
  ProcessedSampleMetadata, TimedRingBuffer, push_sample, add_overwritten, push_from, push_block,
  sample_metadata,
}

module _ {A : Type 0} where
  -- The last `n` elements.
  abbrev pub keep_last : ℕ → List A → List A
  keep_last n xs = drop (length xs - n) xs

  drop-append : (n : ℕ) (xs ys : List A) → n ≤ length xs → drop n (xs ++ ys) ≡ drop n xs ++ ys
  drop-append zero xs ys h = refl
  drop-append (suc n) [] ys h = absurd (omega arith)
  drop-append (suc n) (x ∷ xs) ys h = drop-append n xs ys (omega arith)

  drop-nil : (k : ℕ) → drop {A = A} k [] ≡ []
  drop-nil zero = refl
  drop-nil (suc k) = refl

  drop-drop : (a b : ℕ) (xs : List A) → drop a (drop b xs) ≡ drop (a + b) xs
  drop-drop a zero xs = ap (λ k. drop k xs) (omega arith)
  drop-drop a (suc b) [] = drop-nil a ∙ sym (drop-nil (a + suc b))
  drop-drop a (suc b) (x ∷ xs) =
      drop-drop a b xs
      ∙ ap (λ k. drop k (x ∷ xs)) (let e : suc (a + b) ≡ a + suc b = omega arith in e)

  pub keep_last-append :
      (n : ℕ) (xs ys : List A) → keep_last n (keep_last n xs ++ ys) ≡ keep_last n (xs ++ ys)
  keep_last-append n xs ys =
      let a = drop-append (length xs - n) xs ys (omega arith) in
      let l = length-append xs ys in
      let m = length-drop (length xs - n) (xs ++ ys) in
      ap (keep_last n) (sym a)
      ∙ drop-drop (length (drop (length xs - n) (xs ++ ys)) - n) (length xs - n) (xs ++ ys)
      ∙ ap (λ k. drop k (xs ++ ys)) (omega arith)

  pub keep_last_short : (n : ℕ) (xs : List A) → length xs ≤ n → keep_last n xs ≡ xs
  keep_last_short n xs h = ap (λ k. drop k xs) (let e : length xs - n ≡ 0 = omega arith in e)

  pub take-short : (n : ℕ) (xs : List A) → length xs ≤ n → take n xs ≡ xs
  take-short zero [] h = refl
  take-short zero (x ∷ xs) h = absurd (omega arith)
  take-short (suc n) [] h = refl
  take-short (suc n) (x ∷ xs) h = ap (λ ys. x ∷ ys) (take-short n xs (omega arith))

  pub take-take_append : (n : ℕ) (xs ys : List A) → take n (take n xs ++ ys) ≡ take n (xs ++ ys)
  take-take_append zero xs ys = refl
  take-take_append (suc n) [] ys = refl
  take-take_append (suc n) (x ∷ xs) ys = ap (λ zs. x ∷ zs) (take-take_append n xs ys)

  -- Writing just past the first elements.
  pub take-set :
      (xs : List A) (n : ℕ) (x : A)
      → n < length xs
      → take (suc n) (set xs n x) ≡ take n xs ++ x ∷ []
  take-set [] n x h = absurd (omega arith)
  take-set (y ∷ xs) zero x h = refl
  take-set (y ∷ xs) (suc n) x h = ap (λ zs. y ∷ zs) (take-set xs n x (omega arith))

module _ {A : Type 0} where
  abbrev pub held : List A → ℕ → ℕ → List A
  held xs start len = window (λ x. x) xs start len

  held-add :
      (xs : List A) (start len : ℕ) (x : A)
      → len < length xs
      → held (set xs ((start + len) % length xs) x) start (len + 1)
        ≡ keep_last (length xs) (held xs start len ++ x ∷ [])
  held-add xs start len x h =
      let l = length-window (λ y. y) xs start len (omega arith) in
      let m = length-append (held xs start len) (x ∷ []) in
      ap (λ n. held (set xs ((start + len) % length xs) x) start n)
        (let e : len + 1 ≡ suc len = omega arith in e)
      ∙ window-store (λ y. y) xs x start len h
      ∙ sym (keep_last_short (length xs) (held xs start len ++ x ∷ []) (omega arith))

  held-over :
      (xs : List A) (start : ℕ) (x : A)
      → start < length xs
      → held (set xs start x) ((start + 1) % length xs) (length xs)
        ≡ keep_last (length xs) (held xs start (length xs) ++ x ∷ [])
  held-over xs start x h =
      let w = held xs start (length xs) in
      let l = length-window (λ y. y) xs start (length xs) (omega arith) in
      let m = length-append w (x ∷ []) in
      window-over (λ y. y) xs x start h
      ∙ sym (drop-append 1 w (x ∷ []) (omega arith))
      ∙ ap (λ k. drop k (w ++ x ∷ []))
          (let e : 1 ≡ length (w ++ x ∷ []) - length xs = omega arith in e)

-- The places of the pre-roll are as its fields say.
pub record IsRound {F : Type 0} (b : TimedRingBuffer F) : Type 0 where
  pub has_places : b.start < length b.samples
  pub within : b.len ≤ length b.samples
  pub as_many : length b.metadata ≡ length b.samples

module _ {F : Type 0} where
  abbrev pub held_samples : TimedRingBuffer F → List F
  held_samples b = held b.samples b.start b.len

  abbrev pub held_metadata : TimedRingBuffer F → List ProcessedSampleMetadata
  held_metadata b = held b.metadata b.start b.len

  -- After pushing `xs` with their metadata: the last ones are kept, and the others counted.
  abbrev pub Keeps :
      TimedRingBuffer F
      → List F
      → List ProcessedSampleMetadata
      → Option (TimedRingBuffer F × ℕ)
      → Type 0
  Keeps b xs ms none = ⊥
  Keeps b xs ms (some (q, overwritten)) =
      IsRound q
      × (length q.samples ≡ length b.samples)
      × (held_samples q ≡ keep_last (length b.samples) (held_samples b ++ xs))
      × (held_metadata q ≡ keep_last (length b.samples) (held_metadata b ++ ms))
      × (q.len + overwritten ≡ b.len + length xs)

  push_sample_lem :
      (b : TimedRingBuffer F) (x : F) (m : ProcessedSampleMetadata)
      → IsRound b
      → Keeps b (x ∷ []) (m ∷ []) (push_sample b x m)
  unfolding push_sample
  push_sample_lem b x m v = elim (Bool-cases (ltb b.len (length b.samples))) [
    | inl a ↦
        let i = (b.start + b.len) % length b.samples in
        let j : i ≡ (b.start + b.len) % length b.metadata =
          ap (λ k. (b.start + b.len) % k) (sym v.as_many) in
        let l1 = length-set b.samples i x in
        let l2 = length-set b.metadata i m in
        rw a (
          record {
            has_places = omega (arith, v.has_places);
            within = ground arith;
            as_many = omega (arith, v.as_many);
          },
          l1,
          held-add b.samples b.start b.len x (ground arith),
          ap (λ k. held (set b.metadata k m) b.start (b.len + 1)) j
              ∙ held-add b.metadata b.start b.len m (ground arith)
              ∙ ap (λ k. keep_last k (held_metadata b ++ m ∷ [])) v.as_many,
          omega arith,
        )
    | inr a ↦
        let e : b.len ≡ length b.samples = ground (arith, v.within) in
        let s : ltb b.start (length b.samples) ≡ true = ground (arith, v.has_places) in
        let d : length b.samples ≡ length b.metadata = sym v.as_many in
        let l1 = length-set b.samples b.start x in
        let l2 = length-set b.metadata b.start m in
        let r = mod-lt (b.start + 1) {m = length b.samples} (omega (arith, v.has_places)) in
        rw (a, s)
          (
            record {
              has_places = omega arith;
              within = omega arith;
              as_many = omega (arith, v.as_many);
            },
            l1,
            ap (held (set b.samples b.start x) ((b.start + 1) % length b.samples)) e
                ∙ held-over b.samples b.start x v.has_places
                ∙ ap (λ k. keep_last (length b.samples) (held b.samples b.start k ++ x ∷ []))
                    (sym e),
            ap (λ k. held (set b.metadata b.start m) ((b.start + 1) % k) b.len) d
                ∙ ap (held (set b.metadata b.start m) ((b.start + 1) % length b.metadata)) (e ∙ d)
                ∙ held-over b.metadata b.start m (omega (arith, v.has_places))
                ∙ ap (λ k. keep_last (length b.metadata) (held b.metadata b.start k ++ m ∷ []))
                    (sym (e ∙ d))
                ∙ ap (λ k. keep_last k (held_metadata b ++ m ∷ [])) v.as_many,
            omega arith,
          )
  ]

  -- The metadata of samples from `offset` on.
  abbrev pub stamped : (ℕ → ProcessedSampleMetadata) → ℕ → List F → List ProcessedSampleMetadata
  stamped stamp offset [] = []
  stamped stamp offset (x ∷ xs) = stamp offset ∷ stamped stamp (suc offset) xs

  Keeps-after :
      (b q : TimedRingBuffer F) (x : F) (xs : List F) (m : ProcessedSampleMetadata)
      (ms : List ProcessedSampleMetadata) (n : ℕ) (o : Option (TimedRingBuffer F × ℕ))
      → Keeps b (x ∷ []) (m ∷ []) (some (q, n))
      → Keeps q xs ms o
      → Keeps b (x ∷ xs) (m ∷ ms) (add_overwritten n o)
  Keeps-after b q x xs m ms n none k h = h
  Keeps-after b q x xs m ms n (some (z, i)) (v, l, e, f, g) (w, l', e', f', g') =
      let cap = length b.samples in
      (
        w,
        l' ∙ l,
        e'
            ∙ ap (λ k. keep_last k (held_samples q ++ xs)) l
            ∙ ap (λ y. keep_last cap (y ++ xs)) e
            ∙ keep_last-append cap (held_samples b ++ x ∷ []) xs
            ∙ ap (keep_last cap) (append_assoc (held_samples b) (x ∷ []) xs),
        f'
            ∙ ap (λ k. keep_last k (held_metadata q ++ ms)) l
            ∙ ap (λ y. keep_last cap (y ++ ms)) f
            ∙ keep_last-append cap (held_metadata b ++ m ∷ []) ms
            ∙ ap (keep_last cap) (append_assoc (held_metadata b) (m ∷ []) ms),
        omega arith,
      )

  pub push_from-Keeps :
      (b : TimedRingBuffer F) (stamp : ℕ → ProcessedSampleMetadata) (offset : ℕ) (xs : List F)
      → IsRound b
      → Keeps b xs (stamped stamp offset xs) (push_from b stamp offset xs)
  unfolding push_from
  push_from-Keeps b stamp offset [] v =
      let l1 = length-window (λ y. y) b.samples b.start b.len (omega (arith, v.has_places)) in
      let l2 =
        length-window (λ y. y) b.metadata b.start b.len (omega (arith, v.has_places, v.as_many)) in
      (
        v,
        refl,
        sym (
            ap (keep_last (length b.samples)) (append-nil (held_samples b))
            ∙ keep_last_short (length b.samples) (held_samples b) (omega (arith, v.within))),
        sym (
            ap (keep_last (length b.samples)) (append-nil (held_metadata b))
            ∙ keep_last_short (length b.samples) (held_metadata b) (omega (arith, v.within))),
        omega arith,
      )
  push_from-Keeps b stamp offset (x ∷ xs) v =
      go (push_sample b x (stamp offset)) (push_sample_lem b x (stamp offset) v)
        (λ q. push_from-Keeps q stamp (suc offset) xs)
    where
      go :
          (o : Option (TimedRingBuffer F × ℕ))
          → Keeps b (x ∷ []) (stamp offset ∷ []) o
          → ((q : TimedRingBuffer F)
              → IsRound q
              → Keeps q xs (stamped stamp (suc offset) xs) (push_from q stamp (suc offset) xs))
          → Keeps b
              (x ∷ xs)
              (stamp offset ∷ stamped stamp (suc offset) xs)
              (elim o as (λ _. Option (TimedRingBuffer F × ℕ)) [
                | none ↦ none
                | some (q, n) ↦ add_overwritten n (push_from q stamp (suc offset) xs)
              ])
      go none k more = k
      go (some (q, n)) k more =
          Keeps-after b q x xs (stamp offset) (stamped stamp (suc offset) xs) n
            (push_from q stamp (suc offset) xs) k (more q k.0)

  pub push_block-Keeps :
      (b : TimedRingBuffer F) (xs : List F) (source : AudioChunkMetadata) (first rate : ℕ)
      → IsRound b
      → Keeps b xs
          (stamped (sample_metadata source first rate) 0 xs)
          (push_block b xs source first rate)
  unfolding push_block
  push_block-Keeps b xs source first rate v =
      push_from-Keeps b (sample_metadata source first rate) 0 xs v

  pub keep_all :
      (b : TimedRingBuffer F)
      → IsRound b
      → held_samples b ≡ keep_last (length b.samples) (held_samples b ++ [])
  keep_all b v =
      let l = length-window (λ y. y) b.samples b.start b.len (omega (arith, v.has_places)) in
      sym (
        ap (keep_last (length b.samples)) (append-nil (held_samples b))
        ∙ keep_last_short (length b.samples) (held_samples b) (omega (arith, v.within)))
