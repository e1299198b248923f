-- ===== src/Finalization.antt =====
-- crates/speakeasy-worker/src/finalization.rs: the queue of finished recordings, with any number of
-- threads that submit and one that consumes. An action is one atomic operation of one thread. A
-- job's audio, request and engine are a `J`. A send fails only once the consumer has ended, which
-- its loop does only when no thread holds a sender, so a submission does not see it.
use speakeasy_granite_rust_m.Base.{
  ℕ, zero, suc, ◌+◌, ◌%◌, Bool, true, false, Option, none, some, List, [], ◌∷◌, ◌++◌, ltb, ◌==◌,
  if◌then◌else◌, length, Result, ok, err,
}
pub mod Fifo
pub mod Order
pub mod Turns
pub mod Ids

pub record FinalAudioJob (J : Type 0) : Type 0 where
  pub utterance_id : ℕ
  pub payload : J

pub data FinalizationQueueError : Type 0 where
  invalid_capacity consumer_stopped : FinalizationQueueError

-- `queued` is the channel. Threads in `submit` are in `numbered` once they have an id, and in
-- `counted` once they raised `depth`, until they have sent. The consumer holds `received` until it
-- has lowered `depth`, then `processing`; `processed` is what it is done with, oldest first.
pub record OrderedFinalizationQueue (J : Type 0) : Type 0 where
  pub capacity : ℕ
  pub next_id : ℕ
  pub depth : ℕ
  pub numbered : List (FinalAudioJob J)
  pub counted : List (FinalAudioJob J)
  pub queued : List (FinalAudioJob J)
  pub received : Option (FinalAudioJob J)
  pub processing : Option (FinalAudioJob J)
  pub processed : List (FinalAudioJob J)

-- `2 ^ 64`, where `fetch_add` and `fetch_sub` wrap.
abbrev pub word : ℕ
word = 18446744073709551616

-- A choice of a thread among some, by its place.
abbrev pub pick : {A : Type 0} → ℕ → List A → Option (A × List A)
pick n [] = none
pick zero (x ∷ xs) = some (x, xs)
pick (suc n) (x ∷ xs) = elim (pick n xs) [ none ↦ none | some (y, ys) ↦ some (y, x ∷ ys) ]

pub data Action (J : Type 0) : Type 0 where
  -- `next_id.fetch_add`, `depth.fetch_add` and `send`, by one of the threads that are there.
  take_number : J → Action J
  raise_depth send : ℕ → Action J
  -- `recv`, `depth.fetch_sub`, and the end of `process`, which may panic.
  receive lower_depth complete : Action J

module _ {J : Type 0} where
  unfoldable pub new : ℕ → Result FinalizationQueueError (OrderedFinalizationQueue J)
  new capacity =
      if capacity == 0
      then err invalid_capacity
      else ok (record {
        capacity = capacity;
        next_id = 1;
        depth = 0;
        numbered = [];
        counted = [];
        queued = [];
        received = none;
        processing = none;
        processed = [];
      })

  abbrev raised :
      OrderedFinalizationQueue J
      → Option (FinalAudioJob J × List (FinalAudioJob J))
      → Option (OrderedFinalizationQueue J)
  raised q none = none
  raised q (some (job, others)) = some (record q {
    depth = (q.depth + 1) % word;
    numbered = others;
    counted = q.counted ++ job ∷ [];
  })

  -- A send waits while the channel is full.
  abbrev sent :
      OrderedFinalizationQueue J
      → Option (FinalAudioJob J × List (FinalAudioJob J))
      → Option (OrderedFinalizationQueue J)
  sent q none = none
  sent q (some (job, others)) =
      if ltb (length q.queued) q.capacity
      then some (record q { counted = others; queued = q.queued ++ job ∷ [] })
      else none

  abbrev taken :
      OrderedFinalizationQueue J
      → Option (FinalAudioJob J)
      → Option (FinalAudioJob J)
      → List (FinalAudioJob J)
      → Option (OrderedFinalizationQueue J)
  taken q none none (job ∷ jobs) = some (record q { received = some job; queued = jobs })
  taken q _ _ _ = none

  abbrev lowered :
      OrderedFinalizationQueue J → Option (FinalAudioJob J) → Option (OrderedFinalizationQueue J)
  lowered q none = none
  lowered q (some job) = some (record q {
    depth = (q.depth + 18446744073709551615) % word;
    received = none;
    processing = some job;
  })

  abbrev completed :
      OrderedFinalizationQueue J → Option (FinalAudioJob J) → Option (OrderedFinalizationQueue J)
  completed q none = none
  completed q (some job) =
      some (record q { processing = none; processed = q.processed ++ job ∷ [] })

  -- The queue after the action, if its thread can do it now.
  unfoldable pub act : OrderedFinalizationQueue J → Action J → Option (OrderedFinalizationQueue J)
  act q (take_number payload) = some (record q {
    next_id = (q.next_id + 1) % word;
    numbered = q.numbered ++ record { utterance_id = q.next_id; payload = payload } ∷ [];
  })
  act q (raise_depth place) = raised q (pick place q.numbered)
  act q (send place) = sent q (pick place q.counted)
  act q receive = taken q q.received q.processing q.queued
  act q lower_depth = lowered q q.received
  act q complete = completed q q.processing
