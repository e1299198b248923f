-- ===== src/GraniteWorker/Invariant.antt =====
-- What every request keeps of the worker, and how it is answered.
use Prim.Native.String.{String}
use text.Mathlib.TextEquality.{eq_iff}
use speakeasy_granite_rust_m.Base.{
  ℕ, ◌≤◌, ◌≡◌, ◌≢◌, refl, Bool, true, false, not, ◌&&◌, Option, none, some, List, [], ◌∷◌, arith,
  is_some, length, length-append, Bool-cases, Option-cases, inl, inr,
}
use speakeasy_granite_rust_m.Protocol.{
  WorkerCommand, hello, load_model, unload_model, start_stream, push_audio, finish_stream, cancel,
  shutdown, WorkerRequest, WorkerEvent, worker_response_is_terminal, validate,
}
use speakeasy_granite_rust_m.GraniteWorker.{
  Host, Worker, ActiveStream, granite_artifact_id, max_utterance_samples, new, dispatch, handle,
}

abbrev pub IsServed : Option String → Type 0
IsServed none = Unit {0}
IsServed (some id) = id ≡ granite_artifact_id

abbrev pub IsBounded : {S : Type 0} → Option (ActiveStream S) → Type 0
IsBounded none = Unit {0}
IsBounded (some a) =
    (length a.samples ≤ max_utterance_samples) × (a.next_sequence ≤ length a.samples)

-- One event that ends the answer to `c`, behind events that do not.
abbrev pub ends_answer : {S : Type 0} → WorkerCommand S → List WorkerEvent → Bool
ends_answer c [] = false
ends_answer c (e ∷ []) = worker_response_is_terminal c e
ends_answer c (e ∷ f ∷ es) = not (worker_response_is_terminal c e) && ends_answer c (f ∷ es)

module _ {S M : Type 0} where
  -- The artifact, its root and the model come and go together; only the one artifact is ever held;
  -- a stream has its model; and its samples and frames are bounded.
  pub record Inv (w : Worker S M) : Type 0 where
    pub resident : is_some w.artifact_id ≡ is_some w.model
    pub rooted : is_some w.model_root ≡ is_some w.model
    pub served : IsServed w.artifact_id
    pub streaming : is_some w.active ≡ true → is_some w.model ≡ true
    pub bounded : IsBounded w.active

  pub new-Inv : Inv (new {S = S} {M = M})
  new-Inv = ground arith

  -- The request was handled with no panic, the worker is well formed and the answer is complete.
  abbrev pub Handled : WorkerCommand S → Option (Worker S M × List WorkerEvent × Bool) → Type 0
  Handled c none = ⊥
  Handled c (some (w, events, exit)) = Inv w × (ends_answer c events ≡ true)

  load_model-Handled :
      (h : Host S M) (w : Worker S M) (id root : String)
      → Inv w
      → Handled (load_model id root) (dispatch h w (load_model id root))
  unfolding dispatch worker_response_is_terminal
  load_model-Handled h w id root v = ground (arith, eq_iff id granite_artifact_id)

  push_audio-Handled :
      (h : Host S M) (w : Worker S M) (s n : ℕ) (xs : List S)
      → Inv w
      → length xs ≢ 0
      → Handled (push_audio s n xs) (dispatch h w (push_audio s n xs))
  unfolding dispatch worker_response_is_terminal
  push_audio-Handled h w s n xs v k = elim (Option-cases w.active) [
    | inl e ↦ ground arith
    | inr (a, e) ↦ ground (arith, length-append a.samples xs)
  ]

  finish_stream-Handled :
      (h : Host S M) (w : Worker S M) (s : ℕ)
      → Inv w
      → Handled (finish_stream s) (dispatch h w (finish_stream s))
  unfolding dispatch worker_response_is_terminal
  finish_stream-Handled h w s v = ground arith

  dispatch-Handled :
      (finite : S → Bool) (h : Host S M) (w : Worker S M) (r : WorkerRequest S)
      (c : WorkerCommand S)
      → r.command ≡ c
      → validate finite r ≡ true
      → Inv w
      → Handled c (dispatch h w c)
  unfolding dispatch worker_response_is_terminal validate
  dispatch-Handled f h w r (load_model id root) e k v = load_model-Handled h w id root v
  dispatch-Handled f h w r (push_audio s n xs) e k v =
      push_audio-Handled h w s n xs v (ground arith)
  dispatch-Handled f h w r (finish_stream s) e k v = finish_stream-Handled h w s v
  dispatch-Handled f h w r (start_stream s n) e k v = ground arith
  dispatch-Handled f h w r (cancel s) e k v = ground arith
  dispatch-Handled f h w r unload_model e k v = ground arith
  dispatch-Handled f h w r _ e k v = ground arith

  -- Every request, valid or not, from any well-formed worker and whatever the files and the engine
  -- answer, is handled with no panic; the worker stays well formed; and the answer is a list of
  -- events of which the last and only the last is terminal for the command.
  pub handle-Handled :
      (finite : S → Bool) (h : Host S M) (w : Worker S M) (r : WorkerRequest S)
      → Inv w
      → Handled r.command (handle finite h w r)
  unfolding handle worker_response_is_terminal
  handle-Handled f h w r v = elim (Bool-cases (validate f r)) [
    | inl e ↦ rw (e, handle) (dispatch-Handled f h w r r.command refl e v)
    | inr e ↦ rw (e, handle) (ground arith)
  ]

  -- Only `Shutdown` ends the process.
  pub continues :
      (h : Host S M) (w : Worker S M) (c : WorkerCommand S) {q : Worker S M} {es : List WorkerEvent}
      {exit : Bool}
      → c ≢ shutdown
      → dispatch h w c ≡ some (q, es, exit)
      → exit ≡ false
  unfolding dispatch
  continues h w shutdown n e = absurd (n refl)
  continues h w hello n e = ground arith
  continues h w _ n e = ground arith
