-- ===== src/Link/Steps.antt =====
-- One request over the link: nothing is left unread, and what the worker answers comes back.
use speakeasy_granite_rust_m.Base.{
  ℕ, length, ◌≡◌, ◌⊎◌, refl, ◌∙◌, Bool, true, false, not, Option, none, some, List, [], Result, ok,
  saturating_add64,
}
use speakeasy_granite_rust_m.Protocol.{
  WorkerCommand, WorkerRequest, WorkerEvent, validate, worker_protocol_version,
}
use speakeasy_granite_rust_m.GraniteWorker.{Host, Worker, handle}
use speakeasy_granite_rust_m.GraniteWorker.Invariant.{Inv, ends_answer}
use speakeasy_granite_rust_m.FinalPass.{DomainError, check_active}
use speakeasy_granite_rust_m.Link.{
  Link, Round, Wait, receive_until, sent_with, exchange, write_within_deadline, request,
}
use speakeasy_granite_rust_m.Link.Receive.{settle, Plain, IsLate, IsPrompt, receive_complete}

module _ {S M : Type 0} where
  -- A link at rest: the process lives, the worker is well formed, and nothing is left unread.
  pub record IsReady (l : Link S M) : Type 0 where
    pub live : l.alive ≡ true
    pub drained : l.responses ≡ []
    pub well : Inv l.worker

  -- The request that the link makes of a command.
  abbrev pub numbered : Link S M → WorkerCommand S → WorkerRequest S
  numbered l c = record {
    protocol_version = worker_protocol_version;
    request_id = l.next_request_id;
    command = c;
  }

  -- The link after a request that the worker answered.
  abbrev pub answered : Link S M → Worker S M → Bool → Link S M
  answered l w exit = record {
    worker = w;
    next_request_id = saturating_add64 l.next_request_id 1;
    responses = [];
    alive = not exit;
  }

  -- The link is at rest again and the request was neither cancelled nor out of time; or nothing was
  -- sent and the link is as it was; or the process was terminated.
  abbrev pub Fate : Link S M → Link S M × Result DomainError (List WorkerEvent) → Type 0
  Fate l (q, r) = (IsReady q × Plain r) ⊎ ((q ≡ l) × IsLate r) ⊎ ((q.alive ≡ false) × IsLate r)

  -- How many responses the worker gives.
  abbrev pub response_count : Option (Worker S M × List WorkerEvent × Bool) → ℕ
  response_count none = 0
  response_count (some (w, es, exit)) = length es

module _ {S M : Type 0} (deadline : ℕ) where
  exchange_eq :
      (finite : S → Bool) (h : Host S M) (rounds : List Round) (l : Link S M) (r : WorkerRequest S)
      (w : Worker S M) (es : List WorkerEvent) (exit : Bool)
      → l.responses ≡ []
      → handle finite h l.worker r ≡ some (w, es, exit)
      → exchange finite h deadline rounds l r
        ≡ receive_until deadline r.request_id r.command
            (record l { worker = w; alive = not exit })
            []
            rounds
            (sent_with r.request_id es)
  unfolding exchange
  exchange_eq finite h rounds l r w es exit d e = rw (e, exchange) (rw d refl)

  -- The frame is written, and the responses are waited for.
  sent_eq :
      (finite : S → Bool) (h : Host S M) (waits : ℕ → Wait) (l : Link S M) (c : WorkerCommand S)
      (w : Worker S M) (es : List WorkerEvent) (exit : Bool)
      → l.alive ≡ true
      → l.responses ≡ []
      → validate finite (numbered l c) ≡ true
      → handle finite h l.worker (numbered l c) ≡ some (w, es, exit)
      → check_active (waits l.next_request_id).start deadline ≡ ok tt
      → write_within_deadline deadline (waits l.next_request_id).writing ≡ ok tt
      → request finite h waits deadline l c
        ≡ receive_until deadline l.next_request_id c
            (answered l w exit)
            []
            (waits l.next_request_id).rounds
            (sent_with l.next_request_id es)
  unfolding request
  sent_eq finite h waits l c w es exit live d t e s v =
      rw (s, t, live, v, request)
        (exchange_eq finite h (waits l.next_request_id).rounds
          (record l { next_request_id = saturating_add64 l.next_request_id 1 }) (numbered l c) w es
          exit d e)

  pub request_lem :
      (finite : S → Bool) (h : Host S M) (waits : ℕ → Wait) (l : Link S M) (c : WorkerCommand S)
      (w : Worker S M) (es : List WorkerEvent) (exit : Bool)
      → l.alive ≡ true
      → l.responses ≡ []
      → validate finite (numbered l c) ≡ true
      → handle finite h l.worker (numbered l c) ≡ some (w, es, exit)
      → ends_answer c es ≡ true
      → IsPrompt deadline (length es) (waits l.next_request_id)
      → request finite h waits deadline l c ≡ (answered l w exit, settle es es)
  unfolding request
  request_lem finite h waits l c w es exit live d t e k (s, v, a) =
      sent_eq finite h waits l c w es exit live d t e s v
      ∙ receive_complete deadline l.next_request_id c (answered l w exit) [] es es
          (waits l.next_request_id).rounds k refl a
