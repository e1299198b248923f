-- ===== src/Audio/Processing/Collect.antt =====
-- The utterance keeps the first samples that it is given, up to its capacity.
use speakeasy_granite_rust_m.Base.{
  ℕ, zero, suc, ◌+◌, ◌-◌, ◌≤◌, ◌<◌, ◌≡◌, min, List, [], ◌∷◌, ◌++◌, ◌==◌, length, take, set, arith,
  refl, sym, ap, ◌∙◌, Bool-cases, inl, inr, length-append, length-set, length-take, append_assoc,
  append-nil,
}
use speakeasy_granite_rust_m.Audio.Ring.{AudioChunkMetadata}
use speakeasy_granite_rust_m.Audio.Processing.Buffers.{
  ProcessedSampleMetadata, TimedUtteranceBuffer, push, append_from, append_block, sample_metadata,
  utterance_samples, utterance_metadata,
}
use speakeasy_granite_rust_m.Audio.Processing.Retain.{
  take-take_append, take-short, take-set, stamped,
}

module _ {A : Type 0} where
  take-full : (xs ys : List A) → take (length xs) (xs ++ ys) ≡ xs
  take-full [] ys = refl
  take-full (x ∷ xs) ys = ap (λ zs. x ∷ zs) (take-full xs ys)

  take-append :
      (n : ℕ) (xs ys : List A) → length xs ≤ n → take n (xs ++ ys) ≡ xs ++ take (n - length xs) ys
  take-append n [] ys h = ap (λ k. take k ys) (let e : n ≡ n - 0 = omega arith in e)
  take-append zero (x ∷ xs) ys h = absurd (omega arith)
  take-append (suc n) (x ∷ xs) ys h =
      ap (λ zs. x ∷ zs)
        (take-append n xs ys (omega arith)
          ∙ ap (λ k. xs ++ take k ys)
              (let e : n - length xs ≡ suc n - suc (length xs) = omega arith in e))

  take-min-length : (n : ℕ) (xs : List A) → take (min n (length xs)) xs ≡ take n xs
  take-min-length zero xs = ap (λ k. take k xs) (let e : min 0 (length xs) ≡ 0 = omega arith in e)
  take-min-length (suc n) [] =
      ap (λ k. take {A = A} k []) (let e : min (suc n) 0 ≡ 0 = omega arith in e)
  take-min-length (suc n) (x ∷ xs) =
      ap (λ k. take k (x ∷ xs))
        (let e : min (suc n) (suc (length xs)) ≡ suc (min n (length xs)) = omega arith in e)
      ∙ ap (λ ys. x ∷ ys) (take-min-length n xs)

  -- Cutting what is appended to what there is room for changes nothing.
  take-append_min :
      (n : ℕ) (xs ys : List A)
      → length xs ≤ n
      → take n (xs ++ take (min (n - length xs) (length ys)) ys) ≡ take n (xs ++ ys)
  take-append_min n xs ys h =
      let m = n - length xs in
      let l = length-take (min m (length ys)) ys in
      take-append n xs (take (min m (length ys)) ys) h
      ∙ ap (λ zs. xs ++ zs)
          (take-short m (take (min m (length ys)) ys) (omega arith) ∙ take-min-length m ys)
      ∙ sym (take-append n xs ys h)

-- The first places of both lists are the utterance.
pub record IsBuffer {F : Type 0} (u : TimedUtteranceBuffer F) : Type 0 where
  pub within : u.len ≤ length u.samples
  pub as_many : length u.metadata ≡ length u.samples

module _ {F : Type 0} where
  -- After `xs` with their metadata: as many of them as there was room for are held.
  abbrev pub Collects :
      TimedUtteranceBuffer F
      → List F
      → List ProcessedSampleMetadata
      → TimedUtteranceBuffer F
      → Type 0
  Collects u xs ms q =
      IsBuffer q
      × (length q.samples ≡ length u.samples)
      × (utterance_samples q ≡ take (length u.samples) (utterance_samples u ++ xs))
      × (utterance_metadata q ≡ take (length u.samples) (utterance_metadata u ++ ms))
      × (q.len ≡ min (u.len + length xs) (length u.samples))

  pub push-Collects :
      (u : TimedUtteranceBuffer F) (x : F) (m : ProcessedSampleMetadata)
      → IsBuffer u
      → Collects u (x ∷ []) (m ∷ []) (push u x m).0
  unfolding push
  push-Collects u x m v =
      let a1 = length-take u.len u.samples in
      let a2 = length-take u.len u.metadata in
      let b1 = length-append (utterance_samples u) (x ∷ []) in
      let b2 = length-append (utterance_metadata u) (m ∷ []) in
      let one : u.len + 1 ≡ suc u.len = omega arith in
      elim (Bool-cases (u.len == length u.samples)) [
        | inl e ↦
            let f : length (utterance_samples u) ≡ length u.samples = ground (arith, v.within) in
            let g : length (utterance_metadata u) ≡ length u.samples =
              ground (arith, v.within, v.as_many) in
            rw e (
              v,
              refl,
              sym (
                  ap (λ k. take k (utterance_samples u ++ x ∷ [])) (sym f)
                  ∙ take-full (utterance_samples u) (x ∷ [])),
              sym (
                  ap (λ k. take k (utterance_metadata u ++ m ∷ [])) (sym g)
                  ∙ take-full (utterance_metadata u) (m ∷ [])),
              ground (arith, v.within),
            )
        | inr e ↦
            let f : u.len < length u.samples = ground (arith, v.within) in
            let l1 = length-set u.samples u.len x in
            let l2 = length-set u.metadata u.len m in
            rw e (
              record { within = omega arith; as_many = omega (arith, v.as_many) },
              l1,
              ap (λ k. take k (set u.samples u.len x)) one
                  ∙ take-set u.samples u.len x f
                  ∙ sym
                      (take-short (length u.samples) (utterance_samples u ++ x ∷ []) (omega arith)),
              ap (λ k. take k (set u.metadata u.len m)) one
                  ∙ take-set u.metadata u.len m (omega (arith, v.as_many))
                  ∙ sym (
                      take-short (length u.samples) (utterance_metadata u ++ m ∷ []) (omega arith)),
              omega arith,
            )
      ]

  pub Collects-after :
      (u q z : TimedUtteranceBuffer F) (x : F) (xs : List F) (m : ProcessedSampleMetadata)
      (ms : List ProcessedSampleMetadata)
      → Collects u (x ∷ []) (m ∷ []) q
      → Collects q xs ms z
      → Collects u (x ∷ xs) (m ∷ ms) z
  Collects-after u q z x xs m ms (v, l, e, f, g) (w, l', e', f', g') =
      let cap = length u.samples in
      (
        w,
        l' ∙ l,
        e'
            ∙ ap (λ k. take k (utterance_samples q ++ xs)) l
            ∙ ap (λ y. take cap (y ++ xs)) e
            ∙ take-take_append cap (utterance_samples u ++ x ∷ []) xs
            ∙ ap (take cap) (append_assoc (utterance_samples u) (x ∷ []) xs),
        f'
            ∙ ap (λ k. take k (utterance_metadata q ++ ms)) l
            ∙ ap (λ y. take cap (y ++ ms)) f
            ∙ take-take_append cap (utterance_metadata u ++ m ∷ []) ms
            ∙ ap (take cap) (append_assoc (utterance_metadata u) (m ∷ []) ms),
        omega arith,
      )

  pub Collects-nil : (u : TimedUtteranceBuffer F) → IsBuffer u → Collects u [] [] u
  Collects-nil u v =
      let a1 = length-take u.len u.samples in
      let a2 = length-take u.len u.metadata in
      (
        v,
        refl,
        sym (
            ap (take (length u.samples)) (append-nil (utterance_samples u))
            ∙ take-short (length u.samples) (utterance_samples u) (omega arith)),
        sym (
            ap (take (length u.samples)) (append-nil (utterance_metadata u))
            ∙ take-short (length u.samples) (utterance_metadata u) (omega (arith, v.within))),
        omega (arith, v.within),
      )

  pub append_from-Collects :
      (u : TimedUtteranceBuffer F) (stamp : ℕ → ProcessedSampleMetadata) (offset : ℕ) (xs : List F)
      → IsBuffer u
      → Collects u xs (stamped stamp offset xs) (append_from u stamp offset xs)
  unfolding append_from
  append_from-Collects u stamp offset [] v = Collects-nil u v
  append_from-Collects u stamp offset (x ∷ xs) v =
      let q = (push u x (stamp offset)).0 in
      let c = push-Collects u x (stamp offset) v in
      Collects-after u q (append_from q stamp (suc offset) xs) x xs (stamp offset)
        (stamped stamp (suc offset) xs) c (append_from-Collects q stamp (suc offset) xs c.0)

  length-stamped :
      (stamp : ℕ → ProcessedSampleMetadata) (offset : ℕ) (xs : List F)
      → length (stamped stamp offset xs) ≡ length xs
  length-stamped stamp offset [] = refl
  length-stamped stamp offset (x ∷ xs) = ap suc (length-stamped stamp (suc offset) xs)

  stamped-take :
      (stamp : ℕ → ProcessedSampleMetadata) (offset n : ℕ) (xs : List F)
      → stamped stamp offset (take n xs) ≡ take n (stamped stamp offset xs)
  stamped-take stamp offset zero xs = refl
  stamped-take stamp offset (suc n) [] = refl
  stamped-take stamp offset (suc n) (x ∷ xs) =
      ap (λ ms. stamp offset ∷ ms) (stamped-take stamp (suc offset) n xs)

  -- The utterance after a block, and how many samples are counted.
  abbrev pub Appends :
      TimedUtteranceBuffer F
      → List F
      → List ProcessedSampleMetadata
      → TimedUtteranceBuffer F × ℕ × ℕ
      → Type 0
  Appends u xs ms (q, accepted, rejected) =
      Collects u xs ms q × (u.len + accepted ≡ q.len) × (accepted + rejected ≡ length xs)

  pub append_block-Appends :
      (u : TimedUtteranceBuffer F) (xs : List F) (source : AudioChunkMetadata) (first rate : ℕ)
      → IsBuffer u
      → Appends u xs
          (stamped (sample_metadata source first rate) 0 xs)
          (append_block u xs source first rate)
  unfolding append_block
  append_block-Appends u xs source first rate v =
      let cap = length u.samples in
      let stamp = sample_metadata source first rate in
      let n = min (cap - u.len) (length xs) in
      let (w, l, e, f, g) = append_from-Collects u stamp 0 (take n xs) v in
      let a1 = length-take u.len u.samples in
      let a2 = length-take u.len u.metadata in
      let a3 = length-take n xs in
      let b1 : length (utterance_samples u) ≡ u.len = omega (arith, v.within) in
      let b2 : length (utterance_metadata u) ≡ u.len = omega (arith, v.within, v.as_many) in
      let c1 : n ≡ min (cap - length (utterance_samples u)) (length xs) = omega arith in
      let c2 : n ≡ min (cap - length (utterance_metadata u)) (length (stamped stamp 0 xs)) =
        omega (arith, length-stamped stamp 0 xs) in
      (
        (
          w,
          l,
          e
              ∙ ap (λ k. take cap (utterance_samples u ++ take k xs)) c1
              ∙ take-append_min cap (utterance_samples u) xs (omega (arith, v.within)),
          f
              ∙ ap (λ y. take cap (utterance_metadata u ++ y)) (stamped-take stamp 0 n xs)
              ∙ ap (λ k. take cap (utterance_metadata u ++ take k (stamped stamp 0 xs))) c2
              ∙ take-append_min cap (utterance_metadata u) (stamped stamp 0 xs)
                  (omega (arith, v.within)),
          omega (arith, v.within),
        ),
        omega (arith, v.within),
        omega arith,
      )
