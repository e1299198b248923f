-- ===== src/Link/Receive.antt =====
-- The loop that waits for the responses to a request: what it ends with, in time or not.
use speakeasy_granite_rust_m.Base.{
  ℕ, zero, suc, ◌≤◌, length, ◌≡◌, ◌⊎◌, ◌==◌, refl, ◌∙◌, true, false, List, [], ◌∷◌, ◌++◌,
  append_assoc, arith, Result, ok, err, inl, inr, Bool-cases,
}
use speakeasy_granite_rust_m.Protocol.{
  WorkerCommand, WorkerEvent, is_error, worker_response_is_terminal,
}
use speakeasy_granite_rust_m.GraniteWorker.Invariant.{ends_answer}
use speakeasy_granite_rust_m.FinalPass.{
  DomainError, domain_error, adapter_failed, invalid_data, cancelled, deadline_exceeded, Moment,
  check_active,
}
use speakeasy_granite_rust_m.Link.{
  Link, Round, Wait, receive_until, sent_with, write_within_deadline,
}

-- The last event decides between the events and a failure.
abbrev pub settle : List WorkerEvent → List WorkerEvent → Result DomainError (List WorkerEvent)
settle all [] = ok all
settle all (e ∷ []) = elim (is_error e) [
  | true ↦ err (domain_error adapter_failed)
  | false ↦ ok all
]
settle all (e ∷ f ∷ es) = settle all (f ∷ es)

pub ==_refl : (n : ℕ) → (n == n) ≡ true
==_refl n = ground arith

-- The errors of a request that was neither cancelled nor out of time.
abbrev pub Plain : Result DomainError (List WorkerEvent) → Type 0
Plain (ok es) = Unit {0}
Plain (err e) = (e ≡ domain_error invalid_data) ⊎ (e ≡ domain_error adapter_failed)

pub settle-Plain : (all es : List WorkerEvent) → Plain (settle all es)
settle-Plain all [] = tt
settle-Plain all (e ∷ []) = ground arith
settle-Plain all (e ∷ f ∷ es) = settle-Plain all (f ∷ es)

-- The errors of a request that was cancelled or out of time.
abbrev pub IsLate : Result DomainError (List WorkerEvent) → Type 0
IsLate (ok es) = ⊥
IsLate (err e) = (e ≡ domain_error cancelled) ⊎ (e ≡ domain_error deadline_exceeded)

pub check-IsLate :
    (m : Moment) (deadline : ℕ) (e : DomainError) → check_active m deadline ≡ err e → IsLate (err e)
unfolding check_active
check-IsLate m deadline e h = ground arith

pub checked_cases :
    (o : Result DomainError (Unit {0})) → ((e : DomainError) × (o ≡ err e)) ⊎ (o ≡ ok tt)
checked_cases (err e) = inl (e, refl)
checked_cases (ok tt) = inr refl

pub write-IsLate :
    (deadline : ℕ) (ms : List Moment) (e : DomainError)
    → write_within_deadline deadline ms ≡ err e
    → IsLate (err e)
unfolding write_within_deadline
write-IsLate deadline [] e h = cc
write-IsLate deadline (m ∷ ms) e h = elim (checked_cases (check_active m deadline)) [
  | inl (x, k) ↦ check-IsLate m deadline e (k ∙ (rw (k, write_within_deadline) at h))
  | inr k ↦ write-IsLate deadline ms e (rw (k, write_within_deadline) at h)
]

-- Of the next arrivals `n` come in time.
abbrev pub Arrives : ℕ → List Round → ℕ → Type 0
Arrives deadline rounds zero = Unit
Arrives deadline [] (suc n) = ⊥
Arrives deadline (r ∷ rounds) (suc n) =
    (check_active r.seen deadline ≡ ok tt)
    × (((r.arrives ≡ true) × Arrives deadline rounds n)
        ⊎ ((r.arrives ≡ false) × Arrives deadline rounds (suc n)))

-- The request is neither cancelled nor out of time before `n` responses have come.
abbrev pub IsPrompt : ℕ → ℕ → Wait → Type 0
IsPrompt deadline n wait =
    (check_active wait.start deadline ≡ ok tt)
    × (write_within_deadline deadline wait.writing ≡ ok tt)
    × Arrives deadline wait.rounds n

Arrives-fewer :
    (deadline : ℕ) (rounds : List Round) (m n : ℕ)
    → m ≤ n
    → Arrives deadline rounds n
    → Arrives deadline rounds m
Arrives-fewer deadline rounds zero n l a = tt
Arrives-fewer deadline rounds (suc m) zero l a = absurd (omega arith)
Arrives-fewer deadline [] (suc m) (suc n) l a = a
Arrives-fewer deadline (r ∷ rounds) (suc m) (suc n) l (c, inl (y, a)) =
    (c, inl (y, Arrives-fewer deadline rounds m n (omega arith) a))
Arrives-fewer deadline (r ∷ rounds) (suc m) (suc n) l (c, inr (y, a)) =
    (c, inr (y, Arrives-fewer deadline rounds (suc m) (suc n) l a))

pub IsPrompt-fewer :
    (deadline : ℕ) (wait : Wait) (m n : ℕ)
    → m ≤ n
    → IsPrompt deadline n wait
    → IsPrompt deadline m wait
IsPrompt-fewer deadline wait m n l (s, w, a) = (s, w, Arrives-fewer deadline wait.rounds m n l a)

module _ {S M : Type 0} where
  -- The process was terminated.
  abbrev pub Ended : Link S M × Result DomainError (List WorkerEvent) → Type 0
  Ended (q, r) = (q.alive ≡ false) × IsLate r

  -- Everything was read, or the process was terminated.
  abbrev pub Outcome :
      Link S M
      → List WorkerEvent
      → List WorkerEvent
      → Link S M × Result DomainError (List WorkerEvent)
      → Type 0
  Outcome l all es x = (x ≡ (record l { responses = [] }, settle all es)) ⊎ Ended x

module _ {S M : Type 0} (deadline : ℕ) where
  pub receive_complete :
      (id : ℕ) (c : WorkerCommand S) (l : Link S M) (before es all : List WorkerEvent)
      (rounds : List Round)
      → ends_answer c es ≡ true
      → before ++ es ≡ all
      → Arrives deadline rounds (length es)
      → receive_until deadline id c l before rounds (sent_with id es)
        ≡ (record l { responses = [] }, settle all es)
  unfolding receive_until
  receive_complete id c l before [] all rounds h g a = cc
  receive_complete id c l before (e ∷ es) all (r ∷ rounds) h g (k, inr (y, a)) =
      rw (k, y, receive_until) (receive_complete id c l before (e ∷ es) all rounds h g a)
  receive_complete id c l before (e ∷ []) all (r ∷ rounds) h g (k, inl (y, a)) =
      rw (k, y, ==_refl id, h, receive_until) (rw (← g) (ground arith))
  receive_complete id c l before (e ∷ f ∷ es) all (r ∷ rounds) h g (k, inl (y, a)) =
      elim (Bool-cases (worker_response_is_terminal c e)) [
        | inl t ↦ cc (rw t at h)
        | inr t ↦
            rw (k, y, ==_refl id, t, receive_until)
              (receive_complete id c l (before ++ e ∷ []) (f ∷ es) all rounds (rw t at h)
                (append_assoc before (e ∷ []) (f ∷ es) ∙ g) a)
      ]
  receive_complete id c l before (e ∷ es) all [] h g a = absurd a

  -- A response arrives, and what is said of those after it is known.
  arrived :
      (id : ℕ) (c : WorkerCommand S) (l : Link S M) (before : List WorkerEvent) (e : WorkerEvent)
      (es all : List WorkerEvent) (r : Round) (rounds : List Round)
      → ends_answer c (e ∷ es) ≡ true
      → before ++ e ∷ es ≡ all
      → check_active r.seen deadline ≡ ok tt
      → r.arrives ≡ true
      → ((f : WorkerEvent) (fs : List WorkerEvent)
          → ends_answer c (f ∷ fs) ≡ true
          → (before ++ e ∷ []) ++ f ∷ fs ≡ all
          → Outcome l all
              (f ∷ fs)
              (receive_until deadline id c l (before ++ e ∷ []) rounds (sent_with id (f ∷ fs))))
      → Outcome l all
          (e ∷ es)
          (receive_until deadline id c l before (r ∷ rounds) (sent_with id (e ∷ es)))
  unfolding receive_until
  arrived id c l before e [] all r rounds h g k y more =
      rw (k, y, ==_refl id, h, receive_until) (inl (rw (← g) (ground arith)))
  arrived id c l before e (f ∷ es) all r rounds h g k y more =
      elim (Bool-cases (worker_response_is_terminal c e)) [
        | inl t ↦ cc (rw t at h)
        | inr t ↦
            rw (k, y, ==_refl id, t, receive_until)
              (more f es (rw t at h) (append_assoc before (e ∷ []) (f ∷ es) ∙ g))
      ]

  pub receive-Outcome :
      (id : ℕ) (c : WorkerCommand S) (l : Link S M) (before es all : List WorkerEvent)
      (rounds : List Round)
      → ends_answer c es ≡ true
      → before ++ es ≡ all
      → Outcome l all es (receive_until deadline id c l before rounds (sent_with id es))
  unfolding receive_until
  receive-Outcome id c l before es all [] h g = inr (refl, inr refl)
  receive-Outcome id c l before [] all (r ∷ rounds) h g = cc
  receive-Outcome id c l before (e ∷ es) all (r ∷ rounds) h g =
      elim (checked_cases (check_active r.seen deadline)) [
        | inl (x, k) ↦ rw (k, receive_until) (inr (refl, check-IsLate r.seen deadline x k))
        | inr k ↦ elim (Bool-cases r.arrives) [
          | inr y ↦ rw (k, y, receive_until) (receive-Outcome id c l before (e ∷ es) all rounds h g)
          | inl y ↦
              arrived id c l before e es all r rounds h g k y
                (λ f fs d j. receive-Outcome id c l (before ++ e ∷ []) (f ∷ fs) all rounds d j)
        ]
      ]
