-- ===== src/Finalization/Order.antt =====
-- The order of the jobs: that of their sends, and of their ids if submissions do not overlap.
use speakeasy_granite_rust_m.Base.{
  ℕ, ◌+◌, ◌≤◌, ◌≡◌, refl, Option, none, some, List, [], ◌∷◌, ◌++◌, append_assoc, append-nil, arith,
  length, ok,
}
use speakeasy_granite_rust_m.Finalization.{
  FinalAudioJob, OrderedFinalizationQueue, pick, Action, take_number, raise_depth, send, receive,
  lower_depth, complete, new, act,
}
use speakeasy_granite_rust_m.Finalization.Fifo.{listed}

-- All that was sent, from the first that was processed to the last that is queued.
abbrev pub line : {J : Type 0} → OrderedFinalizationQueue J → List (FinalAudioJob J)
line q = q.processed ++ (listed q.processing ++ (listed q.received ++ q.queued))

abbrev chosen : {A : Type 0} → Option (A × List A) → List A
chosen none = []
chosen (some (x, xs)) = x ∷ []

-- The job that an action sends, if it sends one.
abbrev pub sends : {J : Type 0} → OrderedFinalizationQueue J → Action J → List (FinalAudioJob J)
sends q (send place) = chosen (pick place q.counted)
sends q _ = []

-- A consumer that has received a job is not processing another.
abbrev pub IsSingle : {J : Type 0} → OrderedFinalizationQueue J → Type 0
IsSingle q = length (listed q.received) + length (listed q.processing) ≤ 1

abbrev pub Continues :
    {J : Type 0} → OrderedFinalizationQueue J → Action J → OrderedFinalizationQueue J → Type 0
Continues q a r = IsSingle r × (line r ≡ line q ++ sends q a)

line-append :
    {A : Type 0} (a b c d e : List A) → a ++ (b ++ (c ++ (d ++ e))) ≡ (a ++ (b ++ (c ++ d))) ++ e
line-append a b c d e = simp append_assoc

pub act-Continues :
    {J : Type 0} (q r : OrderedFinalizationQueue J) (a : Action J)
    → IsSingle q
    → act q a ≡ some r
    → Continues q a r
unfolding act
act-Continues q r (take_number j) v e = ground (arith, append-nil (line q))
act-Continues {J = J} q r (raise_depth n) v e = go (pick n q.numbered) refl
  where
    go :
        (o : Option (FinalAudioJob J × List (FinalAudioJob J)))
        → pick n q.numbered ≡ o
        → Continues q (raise_depth n) r
    go none d = ground arith
    go (some (job, others)) d = ground (arith, append-nil (line q))
act-Continues {J = J} q r (send n) v e = go (pick n q.counted) refl
  where
    go :
        (o : Option (FinalAudioJob J × List (FinalAudioJob J)))
        → pick n q.counted ≡ o
        → Continues q (send n) r
    go none d = ground arith
    go (some (job, others)) d = ground (
      arith,
      line-append q.processed (listed q.processing) (listed q.received) q.queued (job ∷ []),
    )
act-Continues q r receive v e = ground (arith, append-nil (line q))
act-Continues q r lower_depth v e = ground (arith, append-nil (line q))
act-Continues {J = J} q r complete v e = go q.processing refl
  where
    go : (o : Option (FinalAudioJob J)) → q.processing ≡ o → Continues q complete r
    go none d = ground arith
    go (some job) d = ground (
      arith,
      append-nil (line q),
      append_assoc q.processed (job ∷ []) (listed q.received ++ q.queued),
    )

-- The actions in their order, if each can be done when its turn comes; and what they send.
unfoldable pub run :
    {J : Type 0}
    → OrderedFinalizationQueue J
    → List (Action J)
    → Option (OrderedFinalizationQueue J)
run q [] = some q
run q (a ∷ acts) = elim (act q a) [ none ↦ none | some r ↦ run r acts ]

unfoldable pub all_sends :
    {J : Type 0} → OrderedFinalizationQueue J → List (Action J) → List (FinalAudioJob J)
all_sends q [] = []
all_sends q (a ∷ acts) = elim (act q a) [ none ↦ [] | some r ↦ sends q a ++ all_sends r acts ]

run_continues :
    {J : Type 0} (acts : List (Action J)) (q r : OrderedFinalizationQueue J)
    → IsSingle q
    → run q acts ≡ some r
    → line r ≡ line q ++ all_sends q acts
unfolding run all_sends
run_continues [] q r v e = ground (arith, append-nil (line q))
run_continues {J = J} (a ∷ acts) q r v e = go (act q a) refl (run_continues acts)
  where
    go :
        (o : Option (OrderedFinalizationQueue J))
        → act q a ≡ o
        → ((p r : OrderedFinalizationQueue J)
            → IsSingle p
            → run p acts ≡ some r
            → line r ≡ line p ++ all_sends p acts)
        → line r ≡ line q ++ all_sends q (a ∷ acts)
    go none d h = ground arith
    go (some p) d h =
        let (w, c) = act-Continues q p a v d in
        let k = h p r w (ground arith) in
        let l = append_assoc (line q) (sends q a) (all_sends p acts) in ground arith

-- Whatever the interleaving, the jobs processed, in hand and queued are those that were sent, in the
-- order of the sends: none is lost, repeated or overtaken.
pub run_in_order :
    {J : Type 0} (capacity : ℕ) (acts : List (Action J)) (q r : OrderedFinalizationQueue J)
    → new capacity ≡ ok q
    → run q acts ≡ some r
    → line r ≡ all_sends q acts
unfolding new
run_in_order capacity acts q r n e = let h = run_continues acts q r (ground arith) e in ground arith
