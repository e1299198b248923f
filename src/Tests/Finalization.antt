-- ===== src/Tests/Finalization.antt =====
-- The queue of finished recordings at concrete inputs: crates/speakeasy-worker/src/finalization.rs.
use speakeasy_granite_rust_m.Base.{ℕ, suc, ◌≡◌, refl, none, some, ◌++◌, List, [], ◌∷◌, arith}
use speakeasy_granite_rust_m.Finalization.{
  FinalAudioJob, OrderedFinalizationQueue, Action, take_number, raise_depth, send, receive,
  lower_depth, complete, new, act,
}
use speakeasy_granite_rust_m.Finalization.Fifo.{
  Reachable, begins, continues, IsCounted, Reachable-IsCounted,
}
use speakeasy_granite_rust_m.Finalization.Order.{line, run, all_sends, run_in_order}
use speakeasy_granite_rust_m.Finalization.Turns.{pending}
use speakeasy_granite_rust_m.Finalization.Ids.{ids, up_to, AllTakeTurns, run-ids}

abbrev empty : OrderedFinalizationQueue ℕ
empty = record {
  capacity = 2;
  next_id = 1;
  depth = 0;
  numbered = [];
  counted = [];
  queued = [];
  received = none;
  processing = none;
  processed = [];
}

abbrev job : ℕ → ℕ → FinalAudioJob ℕ
job id payload = record { utterance_id = id; payload = payload }

abbrev turns : List (Action ℕ)
turns =
    take_number 70
    ∷ raise_depth 0
    ∷ send 0
    ∷ take_number 80
    ∷ receive
    ∷ raise_depth 0
    ∷ lower_depth
    ∷ complete
    ∷ []

abbrev after_turns : OrderedFinalizationQueue ℕ
after_turns = record empty {
  next_id = 3;
  depth = 1;
  counted = job 2 80 ∷ [];
  processed = job 1 70 ∷ [];
}

turns-run : run empty turns ≡ some after_turns
unfolding run act
turns-run = refl

-- Two threads whose submissions overlap: the second one's job overtakes the first one's.
abbrev race : List (Action ℕ)
race =
    take_number 70
    ∷ take_number 80
    ∷ raise_depth 1
    ∷ send 0
    ∷ receive
    ∷ lower_depth
    ∷ complete
    ∷ raise_depth 0
    ∷ send 0
    ∷ receive
    ∷ lower_depth
    ∷ complete
    ∷ []

race_overtakes :
    run empty race ≡ some (record empty { next_id = 3; processed = job 2 80 ∷ job 1 70 ∷ [] })
unfolding run act
race_overtakes = refl

run_in_order_example : line after_turns ≡ all_sends empty turns
unfolding new
run_in_order_example = run_in_order 2 turns empty after_turns refl turns-run

turns_alone : AllTakeTurns empty turns
unfolding AllTakeTurns act
turns_alone = (refl, (tt, (tt, (refl, (tt, (tt, (tt, (tt, tt))))))))

run-ids_example :
    (n : ℕ) × (ids (line after_turns ++ pending after_turns) ≡ up_to n)
    × (after_turns.next_id ≡ suc n)
unfolding new
run-ids_example = run-ids 2 turns empty after_turns refl (omega arith) turns_alone turns-run

abbrev with_one : OrderedFinalizationQueue ℕ
with_one = record empty { next_id = 2; numbered = job 1 70 ∷ [] }

one-Reachable : Reachable 2 with_one
unfolding new act
one-Reachable = continues empty with_one (take_number 70) (begins empty refl) refl

Reachable-IsCounted_example : IsCounted 2 with_one
Reachable-IsCounted_example = Reachable-IsCounted 2 with_one one-Reachable
