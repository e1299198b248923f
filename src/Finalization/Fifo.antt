-- ===== src/Finalization/Fifo.antt =====
-- Jobs are neither lost nor repeated nor reordered once sent, and `depth` counts them.
use speakeasy_granite_rust_m.Base.{
  ℕ, zero, suc, ◌+◌, ◌%◌, ◌≤◌, ◌≡◌, refl, Option, none, some, List, [], ◌∷◌, arith, length,
  length-append, ok,
}
use speakeasy_granite_rust_m.Finalization.{
  FinalAudioJob, OrderedFinalizationQueue, word, pick, Action, take_number, raise_depth, send,
  receive, lower_depth, complete, new, act,
}

abbrev pub listed : {A : Type 0} → Option A → List A
listed none = []
listed (some a) = a ∷ []

-- What an interleaving of the threads can lead to, from a new queue on.
pub data Reachable {J : Type 0} (capacity : ℕ) : OrderedFinalizationQueue J → Type 0 where
  begins : (q : OrderedFinalizationQueue J) → new capacity ≡ ok q → Reachable capacity q
  continues :
      (q r : OrderedFinalizationQueue J) (a : Action J)
      → Reachable capacity q
      → act q a ≡ some r
      → Reachable capacity r

pick-length :
    {A : Type 0} (n : ℕ) (xs : List A) (y : A) (ys : List A)
    → pick n xs ≡ some (y, ys)
    → length xs ≡ suc (length ys)
pick-length n [] y ys e = ground arith
pick-length zero (x ∷ xs) y ys e = ground arith
pick-length {A = A} (suc n) (x ∷ xs) y ys e = go (pick n xs) refl (pick-length n xs)
  where
    go :
        (o : Option (A × List A))
        → pick n xs ≡ o
        → ((z : A) (zs : List A) → pick n xs ≡ some (z, zs) → length xs ≡ suc (length zs))
        → length (x ∷ xs) ≡ suc (length ys)
    go none d h = ground arith
    go (some (z, zs)) d h = let k = h z zs d in ground arith

-- The channel is no longer than its capacity, and `depth` counts the jobs announced and not yet
-- taken off it: those a submission waits to send, those queued, and the one just received.
abbrev pub IsCounted : {J : Type 0} → ℕ → OrderedFinalizationQueue J → Type 0
IsCounted capacity q =
    (q.capacity ≡ capacity)
    × (length q.queued ≤ capacity)
    × (q.depth ≡ (length q.counted + length q.queued + length (listed q.received)) % word)

new-IsCounted :
    {J : Type 0} (capacity : ℕ) (q : OrderedFinalizationQueue J)
    → new capacity ≡ ok q
    → IsCounted capacity q
unfolding new
new-IsCounted capacity q e = ground arith

act-IsCounted :
    {J : Type 0} (capacity : ℕ) (q r : OrderedFinalizationQueue J) (a : Action J)
    → IsCounted capacity q
    → act q a ≡ some r
    → IsCounted capacity r
unfolding act
act-IsCounted capacity q r (take_number j) v e = ground arith
act-IsCounted {J = J} capacity q r (raise_depth n) v e = go (pick n q.numbered) refl
  where
    go :
        (o : Option (FinalAudioJob J × List (FinalAudioJob J)))
        → pick n q.numbered ≡ o
        → IsCounted capacity r
    go none d = ground arith
    go (some (job, others)) d = ground (arith, length-append q.counted (job ∷ []))
act-IsCounted {J = J} capacity q r (send n) v e = go (pick n q.counted) refl
  where
    go :
        (o : Option (FinalAudioJob J × List (FinalAudioJob J)))
        → pick n q.counted ≡ o
        → IsCounted capacity r
    go none d = ground arith
    go (some (job, others)) d =
        ground (arith, length-append q.queued (job ∷ []), pick-length n q.counted job others d)
act-IsCounted capacity q r receive v e = ground arith
act-IsCounted capacity q r lower_depth v e = ground arith
act-IsCounted capacity q r complete v e = ground arith

-- Whatever the interleaving of the threads, the channel keeps to its capacity, and `depth` counts
-- exactly the jobs announced and not yet taken.
pub Reachable-IsCounted :
    {J : Type 0} (capacity : ℕ) (q : OrderedFinalizationQueue J)
    → Reachable capacity q
    → IsCounted capacity q
Reachable-IsCounted capacity q (begins _ e) = new-IsCounted capacity q e
Reachable-IsCounted capacity q (continues p _ a h e) =
    act-IsCounted capacity p q a (Reachable-IsCounted capacity p h) e
