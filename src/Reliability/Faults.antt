-- ===== src/Reliability/Faults.antt =====
-- crates/speakeasy-domain/src/reliability.rs: a bounded script of faults to inject, each used once.
-- A boundary is its position in the enum, by which `Ord` compares boundaries.
use speakeasy_granite_rust_m.Base.{
  ℕ, suc, ◌+◌, ◌-◌, ◌≡◌, ◌≢◌, refl, ◌&&◌, Option, none, some, List, [], ◌∷◌, ◌++◌, arith, leb, ◌==◌,
  if◌then◌else◌, is_some, Assoc, get, put, erase_key, get-put, get-erase_key, Result, ok, err,
}

pub data FaultBoundary : Type 0 where
  coordinator_queue audio_queue streaming_queue result_queue delivery_queue : FaultBoundary
  coordinator_actor audio_actor engine_actor delivery_actor filesystem_read : FaultBoundary
  filesystem_write filesystem_rename filesystem_sync model_verify : FaultBoundary
  model_install runtime_load runtime_provider worker_spawn worker_protocol : FaultBoundary
  worker_crash worker_hang worker_out_of_memory target_inspect uia_observe : FaultBoundary
  input_write clipboard_open clipboard_write clipboard_sequence : FaultBoundary
  credential_read credential_write network_connect network_read : FaultBoundary
  optional_storage_open optional_storage_migrate optional_storage_write : FaultBoundary

-- The discriminant.
unfoldable pub position : FaultBoundary → ℕ
position coordinator_queue = 0
position audio_queue = 1
position streaming_queue = 2
position result_queue = 3
position delivery_queue = 4
position coordinator_actor = 5
position audio_actor = 6
position engine_actor = 7
position delivery_actor = 8
position filesystem_read = 9
position filesystem_write = 10
position filesystem_rename = 11
position filesystem_sync = 12
position model_verify = 13
position model_install = 14
position runtime_load = 15
position runtime_provider = 16
position worker_spawn = 17
position worker_protocol = 18
position worker_crash = 19
position worker_hang = 20
position worker_out_of_memory = 21
position target_inspect = 22
position uia_observe = 23
position input_write = 24
position clipboard_open = 25
position clipboard_write = 26
position clipboard_sequence = 27
position credential_read = 28
position credential_write = 29
position network_connect = 30
position network_read = 31
position optional_storage_open = 32
position optional_storage_migrate = 33
position optional_storage_write = 34

pub data InjectedFault : Type 0 where
  busy closed timeout denied missing disconnected overflow corrupt : InjectedFault
  tampered disk_full out_of_memory crash protocol_mismatch stale : InjectedFault
  changed too_new : InjectedFault

pub record FaultScript : Type 0 where
  pub maximum_entries : ℕ
  pub entries : Assoc (List InjectedFault)
  pub remaining : ℕ

pub data FaultScriptError : Type 0 where
  capacity_exceeded : FaultScriptError

abbrev pub script_maximum_entries : ℕ
script_maximum_entries = 256

unfoldable pub new : ℕ → Option FaultScript
new maximum =
    if leb 1 maximum && leb maximum script_maximum_entries
    then some (record { maximum_entries = maximum; entries = []; remaining = 0 })
    else none

-- The queue of a boundary, empty if it has no entry.
abbrev pub queued : Option (List InjectedFault) → List InjectedFault
queued none = []
queued (some faults) = faults

abbrev pub queue : FaultScript → FaultBoundary → List InjectedFault
queue s b = queued (get s.entries (position b))

unfoldable pub schedule :
    FaultScript → FaultBoundary → InjectedFault → FaultScript × Result FaultScriptError (Unit {0})
schedule s b fault = if s.remaining == s.maximum_entries then (s, err capacity_exceeded) else (
  record s {
    entries = put s.entries (position b) (queue s b ++ fault ∷ []);
    remaining = s.remaining + 1;
  },
  ok tt,
)

-- What is left of the queue goes back, or its entry is removed.
abbrev store_rest : Assoc (List InjectedFault) → ℕ → List InjectedFault → Assoc (List InjectedFault)
store_rest m key [] = erase_key m key
store_rest m key (f ∷ fs) = put m key (f ∷ fs)

take_from : FaultScript → ℕ → Option (List InjectedFault) → FaultScript × Option InjectedFault
take_from s key none = (s, none)
take_from s key (some []) = (record s { entries = erase_key s.entries key }, none)
take_from s key (some (f ∷ fs)) =
    (record s { entries = store_rest s.entries key fs; remaining = s.remaining - 1 }, some f)

unfoldable pub take_fault : FaultScript → FaultBoundary → FaultScript × Option InjectedFault
unfolding take_from
take_fault s b = take_from s (position b) (get s.entries (position b))

-- Scheduling a fault, while there is room, puts it last in the queue of its boundary and touches no
-- other queue; when the script is full it is refused and nothing changes.
pub schedule-queue :
    (s : FaultScript) (b c : FaultBoundary) (fault : InjectedFault)
    → ((s.remaining ≢ s.maximum_entries)
        → ((schedule s b fault).1 ≡ ok tt)
          × (queue (schedule s b fault).0 c
              ≡ (if position b == position c then queue s b ++ fault ∷ [] else queue s c))
          × ((schedule s b fault).0.remaining ≡ suc s.remaining))
      × (s.remaining ≡ s.maximum_entries → schedule s b fault ≡ (s, err capacity_exceeded))
unfolding schedule
schedule-queue s b c fault =
    ground (arith, get-put (position b) (position c) (queue s b ++ fault ∷ []) s.entries)

-- The first of a queue, and the queue behind it.
abbrev pub head_of : List InjectedFault → Option InjectedFault
head_of [] = none
head_of (f ∷ fs) = some f

abbrev pub tail_of : List InjectedFault → List InjectedFault
tail_of [] = []
tail_of (f ∷ fs) = fs

-- Taking a fault gives the oldest one scheduled for the boundary, if there is one, removes just it,
-- and touches no other queue.
pub take_fault-queue :
    (s : FaultScript) (b c : FaultBoundary)
    → ((take_fault s b).1 ≡ head_of (queue s b))
      × (queue (take_fault s b).0 c
          ≡ (if position b == position c then tail_of (queue s b) else queue s c))
      × ((take_fault s b).0.remaining
          ≡ (if is_some (take_fault s b).1 then s.remaining - 1 else s.remaining))
unfolding take_fault
take_fault-queue s b c = go (get s.entries (position b)) refl
  where
    go :
        (o : Option (List InjectedFault))
        → get s.entries (position b) ≡ o
        → ((take_fault s b).1 ≡ head_of (queue s b))
          × (queue (take_fault s b).0 c
              ≡ (if position b == position c then tail_of (queue s b) else queue s c))
          × ((take_fault s b).0.remaining
              ≡ (if is_some (take_fault s b).1 then s.remaining - 1 else s.remaining))
    go none e = ground arith
    go (some []) e = ground (arith, get-erase_key (position b) (position c) s.entries)
    go (some (f ∷ [])) e = ground (arith, get-erase_key (position b) (position c) s.entries)
    go (some (f ∷ g ∷ fs)) e = ground (arith, get-put (position b) (position c) (g ∷ fs) s.entries)
