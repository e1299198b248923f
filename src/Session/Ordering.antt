-- ===== src/Session/Ordering.antt =====
-- Over any sequence of calls: the invariant, numbering, replay and stale sessions.
use speakeasy_granite_rust_m.Base.{
  ℕ, suc, ◌+◌, ◌≤◌, ◌≡◌, ◌≢◌, true, Option, none, some, List, [], ◌∷◌, arith, length, get, get-put,
  u64_max, saturating_add64,
}
use speakeasy_granite_rust_m.Session.Phase.{SessionPhase}
use speakeasy_granite_rust_m.Session.Reducer.{
  IngressEvent, DomainEvent, Reducer, applied, stale_session, default_reducer, is_replay,
  begin_session, apply,
}
use speakeasy_granite_rust_m.Session.Run.{Call, begins, applies, step, run, attach}
use speakeasy_granite_rust_m.Session.Invariant.{Inv, default-Inv, begin_session-Inv, apply-Inv}

-- The reducer has accepted an event of producer `p` that is numbered `n` or above.
abbrev Seen : ℕ → ℕ → Reducer → Type 0
Seen p n r = is_replay (get r.last_source_sequence p) n ≡ true

module _ {ℓ} {T : Type ℓ} where
  step-Inv : (r : Reducer) (c : Call T) → Inv r → Inv (step r c).0
  unfolding step
  step-Inv r (begins s) v = begin_session-Inv r s v
  step-Inv r (applies e next now) v = apply-Inv r e next now v

  run_keeps : (r : Reducer) (cs : List (Call T)) → Inv r → Inv (run r cs).0
  unfolding run
  run_keeps r [] v = v
  run_keeps r (c ∷ cs) v = run_keeps (step r c).0 cs (step-Inv r c v)

  -- After any calls at all, at most 64 producers are tracked, a session is held only in a phase in
  -- flight, and the coordinator sequence is a u64.
  pub run-Inv : (cs : List (Call T)) → Inv (run default_reducer cs).0
  run-Inv cs = run_keeps default_reducer cs default-Inv

  -- A call that is not applied emits nothing and leaves the reducer as it was.
  pub refused_unchanged :
      (r : Reducer) (c : Call T)
      → (step r c).1 ≢ applied
      → ((step r c).0 ≡ r) × ((step r c).2 ≡ none)
  unfolding step begin_session apply
  refused_unchanged r (begins s) h = ground arith
  refused_unchanged r (applies e next now) h = ground arith

  -- The events carry the numbers from `n` on, one apart.
  abbrev pub NumberedFrom : ℕ → List (DomainEvent T) → Type 0
  NumberedFrom n [] = Unit {0}
  NumberedFrom n (e ∷ es) = (e.coordinator_sequence ≡ n) × NumberedFrom (suc n) es

  -- What a call does to the sequence `n`, by the event that it emits.
  abbrev Counts : ℕ → Reducer → Option (DomainEvent T) → Type 0
  Counts n q none = q.coordinator_sequence ≡ n
  Counts n q (some e) =
      (e.coordinator_sequence ≡ saturating_add64 n 1)
      × (q.coordinator_sequence ≡ saturating_add64 n 1)

  step-Counts : (r : Reducer) (c : Call T) → Counts r.coordinator_sequence (step r c).0 (step r c).2
  unfolding step begin_session apply
  step-Counts r (begins s) = ground arith
  step-Counts r (applies e next now) = ground arith

  numbered_attach :
      (n : ℕ) (q : Reducer) (o : Option (DomainEvent T)) (es : List (DomainEvent T))
      → Counts n q o
      → n + length (attach o es) ≤ u64_max
      → (q.coordinator_sequence + length es ≤ u64_max
          → NumberedFrom (suc q.coordinator_sequence) es)
      → NumberedFrom (suc n) (attach o es)
  numbered_attach n q none es c h ih = rw c at (ih (omega arith))
  numbered_attach n q (some e) es (a, b) h ih =
      let now : q.coordinator_sequence ≡ suc n = omega arith in
      (omega arith, rw now at (ih (omega arith)))

  -- Event numbers: while the count fits in a u64, the events that any calls emit are numbered one
  -- after the other, from the reducer's sequence on, with no gap and no repeat.
  pub run_numbered :
      (r : Reducer) (cs : List (Call T))
      → r.coordinator_sequence + length (run r cs).1 ≤ u64_max
      → NumberedFrom (suc r.coordinator_sequence) (run r cs).1
  unfolding run
  run_numbered r [] h = tt
  run_numbered r (c ∷ cs) h =
      numbered_attach r.coordinator_sequence (step r c).0 (step r c).2 (run (step r c).0 cs).1
        (step-Counts r c) h (run_numbered (step r c).0 cs)

  step-Seen : (p n : ℕ) (r : Reducer) (c : Call T) → Seen p n r → Seen p n (step r c).0
  unfolding step begin_session apply
  step-Seen p n r (begins s) h = ground arith
  step-Seen p n r (applies i next now) h =
      ground (arith, get-put i.producer_id p i.source_sequence r.last_source_sequence)

  run-Seen : (p n : ℕ) (r : Reducer) (cs : List (Call T)) → Seen p n r → Seen p n (run r cs).0
  unfolding run
  run-Seen p n r [] h = h
  run-Seen p n r (c ∷ cs) h = run-Seen p n (step r c).0 cs (step-Seen p n r c h)

  applied-Seen :
      (r : Reducer) (e : IngressEvent T) (next : SessionPhase) (now : ℕ)
      → (apply r e next now).1 ≡ applied
      → Seen e.producer_id e.source_sequence (apply r e next now).0
  unfolding apply
  applied-Seen r e next now h =
      ground (arith, get-put e.producer_id e.producer_id e.source_sequence r.last_source_sequence)

  Seen-refuses :
      (r : Reducer) (e : IngressEvent T) (next : SessionPhase) (now n : ℕ)
      → Seen e.producer_id n r
      → e.source_sequence ≤ n
      → (apply r e next now).1 ≢ applied
  unfolding apply
  Seen-refuses r e next now n h k = ground arith

  -- Replay: once an event is applied, no event of the same producer with its number or a lower one
  -- is applied again, whatever calls come between.
  pub applied_once :
      (r : Reducer) (e f : IngressEvent T) (next next' : SessionPhase) (now now' : ℕ)
      (cs : List (Call T))
      → (apply r e next now).1 ≡ applied
      → f.producer_id ≡ e.producer_id
      → f.source_sequence ≤ e.source_sequence
      → (apply (run (apply r e next now).0 cs).0 f next' now').1 ≢ applied
  applied_once r e f next next' now now' cs h p k =
      let seen =
        run-Seen e.producer_id e.source_sequence (apply r e next now).0 cs
          (applied-Seen r e next now h) in
      Seen-refuses (run (apply r e next now).0 cs).0 f next' now' e.source_sequence (rw p seen) k

  -- The calls do not begin session `s` anew.
  abbrev pub NeverBegins : ℕ → List (Call T) → Type 0
  NeverBegins s [] = Unit {0}
  NeverBegins s (begins t ∷ cs) = (t ≢ s) × NeverBegins s cs
  NeverBegins s (applies e next now ∷ cs) = NeverBegins s cs

  -- A late event: once session `s` is not the active one, its events are refused as stale, after
  -- any calls that do not begin it again.
  pub stale_forever :
      (r : Reducer) (s : ℕ) (cs : List (Call T)) (e : IngressEvent T) (next : SessionPhase)
      (now : ℕ)
      → r.active_session ≢ some s
      → NeverBegins s cs
      → e.session_id ≡ some s
      → (apply (run r cs).0 e next now).1 ≡ stale_session
  unfolding run step begin_session apply
  stale_forever r s [] e next now h k i = ground arith
  stale_forever r s (begins t ∷ cs) e next now h k i =
      stale_forever (begin_session r t).0 s cs e next now (ground arith) k.1 i
  stale_forever r s (applies f n m ∷ cs) e next now h k i =
      stale_forever (apply r f n m).0 s cs e next now (ground arith) k i
