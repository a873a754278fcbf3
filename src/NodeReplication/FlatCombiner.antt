-- ===== src/NodeReplication/FlatCombiner.antt =====
-- verified-node-replication/verified-node-replication/src/spec/flat_combiner.rs: the flat combiner
-- of a replica. Client threads put requests into their slots; the combiner collects them slot by
-- slot, and then answers them slot by slot. The transitions are the constructors of `Step`.
pub mod Invariant
pub mod Safety
pub mod Round
pub mod Tests
use verified_nrkernel.Prelude.{
  ℕ, ◌+◌, ◌<◌, ◌≡◌, Bool, true, false, Option, none, some, List, [], ◌∷◌, ◌++◌, length, get_elem?,
  insert, new_map,
}

abbrev pub ThreadId : Type 0
ThreadId = ℕ

abbrev pub ReqId : Type 0
ReqId = ℕ

pub data ClientState : Type 0 where
  idle : ClientState
  waiting : ReqId → ClientState

pub data SlotState : Type 0 where
  empty : SlotState
  request : ReqId → SlotState
  in_progress : ReqId → SlotState
  response : ReqId → SlotState

abbrev pub is_idle : ClientState → Bool
is_idle idle = true
is_idle (waiting _) = false

abbrev pub is_empty : SlotState → Bool
is_empty empty = true
is_empty (request _) = false
is_empty (in_progress _) = false
is_empty (response _) = false

-- The source's `get_ReqId` is arbitrary at an empty slot: here it has no value there.
abbrev pub get_req_id : SlotState → Option ReqId
get_req_id empty = none
get_req_id (request rid) = some rid
get_req_id (in_progress rid) = some rid
get_req_id (response rid) = some rid

pub data CombinerState : Type 0 where
  collecting : List (Option ReqId) → CombinerState
  responding : List (Option ReqId) → ℕ → CombinerState

pub record FlatCombiner : Type 0 where
  pub num_threads : ℕ
  pub clients : ℕ → Option ClientState
  pub slots : ℕ → Option SlotState
  pub combiner : CombinerState

abbrev pub is_in_progress : SlotState → Bool
is_in_progress empty = false
is_in_progress (request _) = false
is_in_progress (in_progress _) = true
is_in_progress (response _) = false

-- The slot of a thread that is not there is in no state.
abbrev pub slot_in_progress : Option SlotState → Bool
slot_in_progress none = false
slot_in_progress (some st) = is_in_progress st

abbrev pub initialize : ℕ → FlatCombiner
initialize n = record {
  num_threads = n;
  clients = new_map n idle;
  slots = new_map n empty;
  combiner = collecting [];
}

-- A slot that `combiner_collect_empty` passes over.
abbrev pub is_skipped : SlotState → Bool
is_skipped empty = true
is_skipped (request _) = false
is_skipped (in_progress _) = false
is_skipped (response _) = true

-- The combiner's own transitions.
pub data CombinerStep (s : FlatCombiner) : FlatCombiner → Type 0 where
  combiner_collect_empty :
      (reqs : List (Option ReqId)) (st : SlotState)
      → s.combiner ≡ collecting reqs
      → s.slots (length reqs) ≡ some st
      → is_skipped st ≡ true
      → CombinerStep s (record s { combiner = collecting (reqs ++ none ∷ []) })
  combiner_collect_request :
      (reqs : List (Option ReqId)) (rid : ReqId)
      → s.combiner ≡ collecting reqs
      → s.slots (length reqs) ≡ some (request rid)
      → CombinerStep s (record s {
        slots = insert s.slots (length reqs) (in_progress rid);
        combiner = collecting (reqs ++ some rid ∷ []);
      })
  combiner_responding_start :
      (reqs : List (Option ReqId))
      → s.combiner ≡ collecting reqs
      → length reqs ≡ s.num_threads
      → CombinerStep s (record s { combiner = responding reqs 0 })
  combiner_responding_empty :
      (reqs : List (Option ReqId)) (tid : ThreadId)
      → s.combiner ≡ responding reqs tid
      → tid < s.num_threads
      → get_elem? reqs tid ≡ some none
      → CombinerStep s (record s { combiner = responding reqs (tid + 1) })
  -- The request `q` that the combiner holds and the request `rid` of the slot are two values: that
  -- they agree is asserted by the source, and proved in `Invariant`.
  combiner_responding_result :
      (reqs : List (Option ReqId)) (tid : ThreadId) (q rid : ReqId)
      → s.combiner ≡ responding reqs tid
      → tid < s.num_threads
      → get_elem? reqs tid ≡ some (some q)
      → s.slots tid ≡ some (in_progress rid)
      → CombinerStep s (record s {
        slots = insert s.slots tid (response rid);
        combiner = responding reqs (tid + 1);
      })
  combiner_responding_done :
      (reqs : List (Option ReqId)) (tid : ThreadId)
      → s.combiner ≡ responding reqs tid
      → tid ≡ s.num_threads
      → CombinerStep s (record s { combiner = collecting [] })

-- The transitions of the whole machine: the combiner's and the clients'.
pub data Step (s : FlatCombiner) : FlatCombiner → Type 0 where
  combine : {t : FlatCombiner} → CombinerStep s t → Step s t
  send_request :
      (tid : ThreadId) (rid : ReqId)
      → s.clients tid ≡ some idle
      → s.slots tid ≡ some empty
      → Step s (record s {
        clients = insert s.clients tid (waiting rid);
        slots = insert s.slots tid (request rid);
      })
  recv_response :
      (tid : ThreadId) (rid : ReqId)
      → s.clients tid ≡ some (waiting rid)
      → s.slots tid ≡ some (response rid)
      → Step s (record s { clients = insert s.clients tid idle; slots = insert s.slots tid empty })

-- The states that `n` threads can bring about.
pub data Reach (n : ℕ) : FlatCombiner → Type 0 where
  start : Reach n (initialize n)
  next : {s t : FlatCombiner} → Reach n s → Step s t → Reach n t
