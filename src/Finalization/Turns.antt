-- ===== src/Finalization/Turns.antt =====
-- What an action does to the jobs in `submit`, if submissions do not overlap.
use speakeasy_granite_rust_m.Base.{
  ℕ, zero, suc, ◌+◌, ◌%◌, ◌≤◌, ◌≡◌, refl, Option, none, some, List, [], ◌∷◌, ◌++◌, append-nil,
  arith, length,
}
use speakeasy_granite_rust_m.Finalization.{
  FinalAudioJob, OrderedFinalizationQueue, word, pick, Action, take_number, raise_depth, send,
  receive, lower_depth, complete, act,
}
use speakeasy_granite_rust_m.Finalization.Order.{sends}

-- Jobs in `submit`, the one that is further first.
abbrev pub pending : {J : Type 0} → OrderedFinalizationQueue J → List (FinalAudioJob J)
pending q = q.counted ++ q.numbered

pick_one :
    {A : Type 0} (n : ℕ) (xs : List A) (y : A) (ys : List A)
    → length xs ≤ 1
    → pick n xs ≡ some (y, ys)
    → (xs ≡ y ∷ []) × (ys ≡ [])
pick_one n [] y ys h e = ground arith
pick_one zero (x ∷ []) y ys h e = ground arith
pick_one (suc n) (x ∷ []) y ys h e = ground arith
pick_one n (x ∷ z ∷ xs) y ys h e = ground arith

-- A thread takes a number only while no other is in `submit`.
abbrev pub TakesTurn : {J : Type 0} → OrderedFinalizationQueue J → Action J → Type 0
TakesTurn q (take_number payload) = pending q ≡ []
TakesTurn q _ = Unit {0}

abbrev pub added : {J : Type 0} → OrderedFinalizationQueue J → Action J → List (FinalAudioJob J)
added q (take_number payload) = record { utterance_id = q.next_id; payload = payload } ∷ []
added q _ = []

abbrev pub next_after : {J : Type 0} → OrderedFinalizationQueue J → Action J → ℕ
next_after q (take_number payload) = (q.next_id + 1) % word
next_after q _ = q.next_id

abbrev pub Turns :
    {J : Type 0} → OrderedFinalizationQueue J → Action J → OrderedFinalizationQueue J → Type 0
Turns q a r =
    (length r.counted + length r.numbered ≤ 1)
    × (sends q a ++ pending r ≡ pending q ++ added q a)
    × (r.next_id ≡ next_after q a)

module _ {J : Type 0} where
  pub act-Turns :
      (q r : OrderedFinalizationQueue J) (a : Action J)
      → length q.counted + length q.numbered ≤ 1
      → TakesTurn q a
      → act q a ≡ some r
      → Turns q a r
  unfolding act
  act-Turns q r (take_number j) v t e = go q.counted q.numbered refl refl
    where
      go :
          (c n : List (FinalAudioJob J))
          → q.counted ≡ c
          → q.numbered ≡ n
          → Turns q (take_number j) r
      go [] [] x y = ground arith
      go (k ∷ ks) n x y = ground arith
      go [] (k ∷ ks) x y = ground arith
  act-Turns q r (raise_depth n) v t e = go q.counted refl (pick n q.numbered) refl
    where
      go :
          (c : List (FinalAudioJob J))
          → q.counted ≡ c
          → (o : Option (FinalAudioJob J × List (FinalAudioJob J))) → pick n q.numbered ≡ o
          → Turns q (raise_depth n) r
      go c x none d = ground arith
      go [] x (some (job, others)) d = ground (arith, pick_one n q.numbered job others)
      go (k ∷ ks) x (some (job, others)) d = ground (arith, pick_one n q.numbered job others)
  act-Turns q r (send n) v t e = go q.numbered refl (pick n q.counted) refl
    where
      go :
          (c : List (FinalAudioJob J))
          → q.numbered ≡ c
          → (o : Option (FinalAudioJob J × List (FinalAudioJob J))) → pick n q.counted ≡ o
          → Turns q (send n) r
      go c x none d = ground arith
      go [] x (some (job, others)) d = ground (arith, pick_one n q.counted job others)
      go (k ∷ ks) x (some (job, others)) d = ground (arith, pick_one n q.counted job others)
  act-Turns q r receive v t e = ground (arith, append-nil (pending q))
  act-Turns q r lower_depth v t e = ground (arith, append-nil (pending q))
  act-Turns q r complete v t e = ground (arith, append-nil (pending q))
