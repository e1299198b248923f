-- ===== src/FinalPass/Chunks.antt =====
-- `slice::chunks` cuts a list into pieces of the size asked for, and loses nothing.
use mathlib.Core.List.{flatten}
use speakeasy_granite_rust_m.Base.{
  ℕ, zero, suc, ◌≤◌, ◌<◌, ◌≡◌, refl, ap, ◌∙◌, List, [], ◌∷◌, ◌++◌, arith, All, length, take, drop,
  take-append-drop, length-take, length-drop,
}
use speakeasy_granite_rust_m.FinalPass.{chunks, chunks_within}

module _ {A : Type 0} (k : ℕ) (pos : 0 < k) where
  flatten-chunks_within :
      (f : ℕ) (xs : List A) → length xs ≤ f → flatten (chunks_within f k xs) ≡ xs
  unfolding chunks_within flatten
  flatten-chunks_within zero [] h = refl
  flatten-chunks_within zero (x ∷ xs) h = absurd (omega arith)
  flatten-chunks_within (suc f) [] h = refl
  flatten-chunks_within (suc f) (x ∷ xs) h =
      ap (λ ys. take k (x ∷ xs) ++ ys)
        (flatten-chunks_within f (drop k (x ∷ xs)) (omega (arith, length-drop {0} k (x ∷ xs))))
      ∙ take-append-drop k (x ∷ xs)

  chunks_within-sizes :
      (f : ℕ) (xs : List A) → All (λ ys. (0 < length ys) × (length ys ≤ k)) (chunks_within f k xs)
  unfolding chunks_within
  chunks_within-sizes zero xs = tt
  chunks_within-sizes (suc f) [] = tt
  chunks_within-sizes (suc f) (x ∷ xs) = (
    (omega (arith, length-take {0} k (x ∷ xs)), omega (arith, length-take {0} k (x ∷ xs))),
    chunks_within-sizes f (drop k (x ∷ xs)),
  )

  pub flatten-chunks : (xs : List A) → flatten (chunks k xs) ≡ xs
  unfolding chunks
  flatten-chunks xs = flatten-chunks_within (length xs) xs (omega arith)

  pub chunks-sizes : (xs : List A) → All (λ ys. (0 < length ys) × (length ys ≤ k)) (chunks k xs)
  unfolding chunks
  chunks-sizes xs = chunks_within-sizes (length xs) xs
