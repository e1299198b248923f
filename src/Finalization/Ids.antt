-- ===== src/Finalization/Ids.antt =====
-- Ids: consecutive in the order of processing if submissions do not overlap.
use speakeasy_granite_rust_m.Base.{
  ℕ, zero, suc, ◌+◌, ◌≤◌, ◌<◌, ◌≡◌, refl, sym, ap, ◌∙◌, Option, none, some, List, [], ◌∷◌, ◌++◌,
  append_assoc, append-nil, arith, length, ok,
}
use speakeasy_granite_rust_m.Finalization.{
  FinalAudioJob, OrderedFinalizationQueue, word, Action, take_number, raise_depth, send, receive,
  lower_depth, complete, new, act,
}
use speakeasy_granite_rust_m.Finalization.Order.{line, sends, IsSingle, act-Continues, run}
use speakeasy_granite_rust_m.Finalization.Turns.{pending, TakesTurn, added, next_after, act-Turns}

-- `1` to `n`.
abbrev pub up_to : ℕ → List ℕ
up_to zero = []
up_to (suc n) = up_to n ++ suc n ∷ []

abbrev pub ids : {J : Type 0} → List (FinalAudioJob J) → List ℕ
ids [] = []
ids (job ∷ jobs) = job.utterance_id ∷ ids jobs

ids-append : {J : Type 0} (xs ys : List (FinalAudioJob J)) → ids (xs ++ ys) ≡ ids xs ++ ids ys
ids-append [] ys = refl
ids-append (x ∷ xs) ys = rw (ids-append xs ys)

module _ {J : Type 0} where
  -- The ids given out are 1 to `n`, and are in line in their order.
  abbrev InTurn : OrderedFinalizationQueue J → ℕ → Type 0
  InTurn q n =
      IsSingle q
      × (length q.counted + length q.numbered ≤ 1)
      × (ids (line q ++ pending q) ≡ up_to n)
      × (q.next_id ≡ suc n)

  abbrev given : Action J → ℕ → ℕ
  given (take_number payload) n = suc n
  given _ n = n

  ids-added :
      (q : OrderedFinalizationQueue J) (a : Action J) (n : ℕ)
      → q.next_id ≡ suc n
      → up_to n ++ ids (added q a) ≡ up_to (given a n)
  ids-added q (take_number payload) n e = rw e
  ids-added q (raise_depth _) n e = append-nil (up_to n)
  ids-added q (send _) n e = append-nil (up_to n)
  ids-added q receive n e = append-nil (up_to n)
  ids-added q lower_depth n e = append-nil (up_to n)
  ids-added q complete n e = append-nil (up_to n)

  next_after-given :
      (q : OrderedFinalizationQueue J) (a : Action J) (n : ℕ)
      → q.next_id ≡ suc n
      → suc (suc n) < word
      → next_after q a ≡ suc (given a n)
  next_after-given q (take_number payload) n e b = ground arith
  next_after-given q _ n e b = ground arith

  line_moves :
      (l s p q a m : List (FinalAudioJob J)) → m ≡ l ++ s → s ++ p ≡ q ++ a → m ++ p ≡ (l ++ q) ++ a
  line_moves l s p q a m e f =
      ap (λ x. x ++ p) e ∙ append_assoc l s p ∙ ap (λ x. l ++ x) f ∙ sym (append_assoc l q a)

  act-InTurn :
      (q r : OrderedFinalizationQueue J) (a : Action J) (n : ℕ)
      → InTurn q n
      → suc (suc n) < word
      → TakesTurn q a
      → act q a ≡ some r
      → InTurn r (given a n)
  act-InTurn q r a n (v, l, i, x) b t e =
      let (w, c) = act-Continues q r a v e in
      let (k, p, y) = act-Turns q r a l t e in
      let m = line_moves (line q) (sends q a) (pending r) (pending q) (added q a) (line r) c p in
      (
        w,
        k,
        ap ids m
            ∙ ids-append (line q ++ pending q) (added q a)
            ∙ ap (λ z. z ++ ids (added q a)) i
            ∙ ids-added q a n x,
        y ∙ next_after-given q a n x b,
      )

  -- No submission begins while another is on.
  unfoldable pub AllTakeTurns : OrderedFinalizationQueue J → List (Action J) → Type 0
  AllTakeTurns q [] = Unit {0}
  AllTakeTurns q (a ∷ acts) =
      TakesTurn q a × elim (act q a) [ none ↦ Unit {0} | some r ↦ AllTakeTurns r acts ]

  given_bound : (a : Action J) (n : ℕ) → given a n ≤ suc n
  given_bound (take_number payload) n = omega arith
  given_bound (raise_depth _) n = omega arith
  given_bound (send _) n = omega arith
  given_bound receive n = omega arith
  given_bound lower_depth n = omega arith
  given_bound complete n = omega arith

  run-InTurn :
      (acts : List (Action J)) (q r : OrderedFinalizationQueue J) (n : ℕ)
      → InTurn q n
      → suc n + length acts < word
      → AllTakeTurns q acts
      → run q acts ≡ some r
      → (m : ℕ) × InTurn r m
  unfolding run AllTakeTurns
  run-InTurn [] q r n v b t e = (n, ground arith)
  run-InTurn (a ∷ acts) q r n v b (t, ts) e = go (act q a) refl ts (run-InTurn acts)
    where
      go :
          (o : Option (OrderedFinalizationQueue J))
          → act q a ≡ o
          → elim o as (λ _. Type 0) [ none ↦ Unit {0} | some p ↦ AllTakeTurns p acts ]
          → ((p r : OrderedFinalizationQueue J) (n : ℕ)
              → InTurn p n
              → suc n + length acts < word
              → AllTakeTurns p acts
              → run p acts ≡ some r
              → (m : ℕ) × InTurn r m)
          → (m : ℕ) × InTurn r m
      go none d u h = ground arith
      go (some p) d u h =
          h p r (given a n) (act-InTurn q p a n v (omega arith) t d)
            (omega (arith, given_bound a n)) u (ground arith)

  -- If no submission begins while another is on, the ids of the jobs processed, in hand, queued and
  -- in submission are 1, 2, 3 and so on, in the order of processing, with no gap. Fewer than
  -- 2^64 - 1 actions are taken, so that the ids do not wrap.
  pub run-ids :
      (capacity : ℕ) (acts : List (Action J)) (q r : OrderedFinalizationQueue J)
      → new capacity ≡ ok q
      → 1 + length acts < word
      → AllTakeTurns q acts
      → run q acts ≡ some r
      → (n : ℕ) × (ids (line r ++ pending r) ≡ up_to n) × (r.next_id ≡ suc n)
  unfolding new
  run-ids capacity acts q r e b t g =
      let v : InTurn q 0 = ground arith in
      let (n, (_, _, i, x)) = run-InTurn acts q r 0 v b t g in (n, i, x)
