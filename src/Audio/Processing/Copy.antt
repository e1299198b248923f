-- ===== src/Audio/Processing/Copy.antt =====
-- The pre-roll, copied into an utterance.
use mathlib.Core.Path.{subst}
use native.Mathlib.Nat.{mod-lt}
use speakeasy_granite_rust_m.Base.{
  ℕ, zero, suc, ◌%◌, ◌≡◌, Option, none, some, List, [], ◌∷◌, length, get_elem?, arith, refl, sym,
  ap, ◌∙◌, get_elem?-some,
}
use speakeasy_granite_rust_m.Audio.Window.{window-first, window-zero}
use speakeasy_granite_rust_m.Audio.Processing.Buffers.{
  ProcessedSampleMetadata, TimedRingBuffer, TimedUtteranceBuffer, push, copy_from, copy_into,
}
use speakeasy_granite_rust_m.Audio.Processing.Retain.{held, IsRound}
use speakeasy_granite_rust_m.Audio.Processing.Collect.{
  IsBuffer, Collects, Collects-nil, push-Collects, Collects-after,
}

module _ {F : Type 0} where
  abbrev Copies :
      TimedUtteranceBuffer F
      → List F
      → List ProcessedSampleMetadata
      → Option (TimedUtteranceBuffer F)
      → Type 0
  Copies u xs ms none = ⊥
  Copies u xs ms (some q) = Collects u xs ms q

  copy_from-Copies :
      (b : TimedRingBuffer F) (u : TimedUtteranceBuffer F) (at n : ℕ)
      → IsRound b
      → IsBuffer u
      → Copies u (held b.samples at n) (held b.metadata at n) (copy_from b u at n)
  unfolding copy_from
  copy_from-Copies b u at zero r v =
      let e = window-zero (λ (x : F). x) b.samples at in
      let f = window-zero (λ (x : ProcessedSampleMetadata). x) b.metadata at in
      subst (λ xs. Collects u xs (held b.metadata at 0) u) (sym e)
        (subst (λ ms. Collects u [] ms u) (sym f) (Collects-nil u v))
  copy_from-Copies b u at (suc n) r v =
      let size = length b.samples in
      let (x, p) =
        get_elem?-some b.samples (at % size) (mod-lt at {m = size} (omega (arith, r.has_places))) in
      let (m, q) =
        get_elem?-some b.metadata (at % size) (
          let h = mod-lt at {m = size} (omega (arith, r.has_places)) in omega (arith, r.as_many)) in
      let q' : get_elem? b.metadata (at % length b.metadata) ≡ some m =
        ap (λ k. get_elem? b.metadata (at % k)) r.as_many ∙ q in
      let e = window-first (λ (y : F). y) b.samples x at n p in
      let f = window-first (λ (y : ProcessedSampleMetadata). y) b.metadata m at n q' in
      let c = push-Collects u x m v in
      let rest = copy_from-Copies b (push u x m).0 (suc at) n r c.0 in
      subst (λ xs. Copies u xs (held b.metadata at (suc n)) (copy_from b u at (suc n))) (sym e)
        (subst (λ ms. Copies u (x ∷ held b.samples (suc at) n) ms (copy_from b u at (suc n)))
          (sym f)
          (rw (p, q, copy_from) (joined (copy_from b (push u x m).0 (suc at) n) x m c rest)))
    where
      joined :
          (o : Option (TimedUtteranceBuffer F)) (x : F) (m : ProcessedSampleMetadata)
          → Collects u (x ∷ []) (m ∷ []) (push u x m).0
          → Copies (push u x m).0 (held b.samples (suc at) n) (held b.metadata (suc at) n) o
          → Copies u (x ∷ held b.samples (suc at) n) (m ∷ held b.metadata (suc at) n) o
      joined none x m c h = h
      joined (some z) x m c h =
          Collects-after u (push u x m).0 z x (held b.samples (suc at) n) m
            (held b.metadata (suc at) n) c h

  -- A copy of the pre-roll, and its length.
  abbrev pub CopiesAll :
      TimedRingBuffer F → TimedUtteranceBuffer F → Option (TimedUtteranceBuffer F × ℕ) → Type 0
  CopiesAll b u none = ⊥
  CopiesAll b u (some (q, copied)) =
      Collects u (held b.samples b.start b.len) (held b.metadata b.start b.len) q × (copied ≡ b.len)

  pub copy_into-CopiesAll :
      (b : TimedRingBuffer F) (u : TimedUtteranceBuffer F)
      → IsRound b
      → IsBuffer u
      → CopiesAll b u (copy_into b u)
  unfolding copy_into
  copy_into-CopiesAll b u r v =
      go (copy_from b u b.start b.len) (copy_from-Copies b u b.start b.len r v)
    where
      go :
          (o : Option (TimedUtteranceBuffer F))
          → Copies u (held b.samples b.start b.len) (held b.metadata b.start b.len) o
          → CopiesAll b u (elim o as (λ _. Option (TimedUtteranceBuffer F × ℕ)) [
            | none ↦ none
            | some q ↦ some (q, b.len)
          ])
      go none c = c
      go (some q) c = (c, refl)
