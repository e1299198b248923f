-- ===== src/Link.antt =====
-- crates/speakeasy-windows/src/worker_process.rs: the host's end of the pipe to the worker process,
-- joined to the model of that process. The frames, the pipe and the threads around it carry the events
-- unchanged; when they do, and what the cancel token and the clock say meanwhile, is a `Wait`.
use Prim.Native.String.{String}
use speakeasy_granite_rust_m.Base.{
  ℕ, Bool, true, false, not, ◌||◌, Option, none, some, List, [], ◌∷◌, ◌++◌, map, ◌==◌,
  if◌then◌else◌, saturating_add64, Result, ok, err,
}
use speakeasy_granite_rust_m.Protocol.{
  WorkerCommand, WorkerRequest, WorkerEvent, is_error, validate, worker_protocol_version,
  worker_response_is_terminal,
}
use speakeasy_granite_rust_m.GraniteWorker.{Host, Worker, handle, new}
use speakeasy_granite_rust_m.FinalPass.{
  DomainError, domain_error, adapter_failed, invalid_data, stale_event, deadline_exceeded, Moment,
  check_active,
}
pub mod Receive
pub mod Steps
pub mod Dictation

-- `responses` are the ones sent and not yet read, each with its request's id.
pub record Link (S M : Type 0) : Type 0 where
  pub worker : Worker S M
  pub next_request_id : ℕ
  pub responses : List (ℕ × WorkerEvent)
  pub alive : Bool

-- A round of the loop of `receive_until`: what its checks see, and whether the wait of 10 ms ends with
-- what comes next, a response or the end of the pipe.
pub record Round : Type 0 where
  pub seen : Moment
  pub arrives : Bool

-- What a request sees at its start, at each poll before its frame is written, and in each round until
-- the deadline has passed.
pub record Wait : Type 0 where
  pub start : Moment
  pub writing : List Moment
  pub rounds : List Round

abbrev pub sent_with : ℕ → List WorkerEvent → List (ℕ × WorkerEvent)
sent_with id = map (λ e. (id, e))

-- The polls of `write_within_deadline` until the frame is written.
unfoldable pub write_within_deadline : ℕ → List Moment → Result DomainError (Unit {0})
unfolding check_active
write_within_deadline deadline [] = ok tt
write_within_deadline deadline (m ∷ moments) = elim (check_active m deadline) [
  | err reason ↦ err reason
  | ok _ ↦ write_within_deadline deadline moments
]

module _ {S M : Type 0} where
  -- A process just spawned, its `Hello` not yet sent.
  abbrev pub connect : Link S M
  connect = record { worker = new; next_request_id = 1; responses = []; alive = true }

  abbrev terminate : Link S M → Link S M
  terminate l = record l { alive = false }

  -- The loop of `receive_until`, with the events so far. After the rounds the deadline has passed.
  unfoldable pub receive_until :
      ℕ
      → ℕ
      → WorkerCommand S
      → Link S M
      → List WorkerEvent
      → List Round
      → List (ℕ × WorkerEvent)
      → Link S M × Result DomainError (List WorkerEvent)
  unfolding check_active
  receive_until deadline id command l events [] responses =
      (terminate (record l { responses = responses }), err (domain_error deadline_exceeded))
  receive_until deadline id command l events (r ∷ rounds) responses =
      elim (check_active r.seen deadline) [
        | err reason ↦ (terminate (record l { responses = responses }), err reason)
        | ok _ ↦ elim r.arrives [
          | false ↦ receive_until deadline id command l events rounds responses
          | true ↦ elim responses [
            | [] ↦ elim l.alive [
              | true ↦ receive_until deadline id command l events rounds []
              | false ↦ (terminate (record l { responses = [] }), err (domain_error adapter_failed))
            ]
            | (sent, e) ∷ rest ↦
                let more = receive_until deadline id command l (events ++ e ∷ []) rounds rest in
                if not (sent == id)
                then (terminate (record l { responses = rest }), err (domain_error stale_event))
                else if not (worker_response_is_terminal command e)
                then more
                else if is_error e
                then (record l { responses = rest }, err (domain_error adapter_failed))
                else (record l { responses = rest }, ok (events ++ e ∷ []))
          ]
        ]
      ]

  -- The process takes the request and writes its responses; a panic or an exit ends it.
  unfoldable pub exchange :
      (S → Bool)
      → Host S M
      → ℕ
      → List Round
      → Link S M
      → WorkerRequest S
      → Link S M × Result DomainError (List WorkerEvent)
  unfolding receive_until
  exchange finite h deadline rounds l r = elim (handle finite h l.worker r) [
    | none ↦ receive_until deadline r.request_id r.command (terminate l) [] rounds l.responses
    | some (w, events, exit) ↦
        receive_until deadline r.request_id r.command (record l { worker = w; alive = not exit }) []
          rounds (l.responses ++ sent_with r.request_id events)
  ]

  -- What follows the two checks that a request begins with. A process that has ended takes no frame.
  abbrev pub checked_request :
      (S → Bool)
      → Host S M
      → ℕ
      → Wait
      → Link S M
      → WorkerCommand S
      → Link S M × Result DomainError (List WorkerEvent)
  checked_request finite h deadline wait l command =
      let r : WorkerRequest S = record {
        protocol_version = worker_protocol_version;
        request_id = l.next_request_id;
        command = command;
      } in
      let taken = record l { next_request_id = saturating_add64 l.next_request_id 1 } in
      if not (validate finite r)
      then (taken, err (domain_error invalid_data))
      else if not l.alive
      then (taken, err (domain_error adapter_failed))
      else elim (write_within_deadline deadline wait.writing) [
        | err reason ↦ (terminate taken, err reason)
        | ok _ ↦ exchange finite h deadline wait.rounds taken r
      ]

  -- `ProcessWorkerClient::request`; the wait of a request is given by its id.
  unfoldable pub request :
      (S → Bool)
      → Host S M
      → (ℕ → Wait)
      → ℕ
      → Link S M
      → WorkerCommand S
      → Link S M × Result DomainError (List WorkerEvent)
  unfolding exchange write_within_deadline check_active
  request finite h waits deadline l command =
      elim (check_active (waits l.next_request_id).start deadline) [
        | err reason ↦ (l, err reason)
        | ok _ ↦ checked_request finite h deadline (waits l.next_request_id) l command
      ]
