-- ===== src/NodeReplication/FlatCombiner/Invariant.antt =====
-- The invariants of spec/flat_combiner.rs.
use verified_nrkernel.Prelude.{
  ℕ, ◌<◌, ◌≤◌, ◌≡◌, refl, subst, false, Option, none, some, ltb, arith, length, get_elem?, insert,
  new_map-eq, new_map_lt, is_some, is_some-new_map, length-push, get_elem?-push,
}
use verified_nrkernel.NodeReplication.FlatCombiner.{
  ReqId, ClientState, idle, waiting, SlotState, empty, request, in_progress, response, is_idle,
  is_empty, is_in_progress, get_req_id, CombinerState, collecting, responding, FlatCombiner,
  slot_in_progress, initialize, CombinerStep, combiner_collect_empty, combiner_collect_request,
  combiner_responding_start, combiner_responding_empty, combiner_responding_result,
  combiner_responding_done, Step, combine, send_request, recv_response, Reach, start, next,
}

abbrev pub CombinerElements : ℕ → CombinerState → Type 0
CombinerElements n (collecting elems) = length elems ≤ n
CombinerElements n (responding elems idx) = (length elems ≡ n) × (idx ≤ length elems)

-- Which slots the combiner does not hold: not collected, collected as empty, or answered.
abbrev pub SlotsNotInProgress : ℕ → (ℕ → Option SlotState) → CombinerState → Type 0
SlotsNotInProgress n slots (collecting elems) =
    ((i : ℕ) → get_elem? elems i ≡ some none → slot_in_progress (slots i) ≡ false)
    × ((i : ℕ) → length elems ≤ i → i < n → slot_in_progress (slots i) ≡ false)
SlotsNotInProgress n slots (responding elems idx) =
    ((i : ℕ) → get_elem? elems i ≡ some none → slot_in_progress (slots i) ≡ false)
    × ((i : ℕ) → i < idx → slot_in_progress (slots i) ≡ false)

-- A request that the combiner holds and has not answered is in progress in its slot.
abbrev pub RequestIds : (ℕ → Option SlotState) → CombinerState → Type 0
RequestIds slots (collecting elems) =
    (i : ℕ) (rid : ReqId) → get_elem? elems i ≡ some (some rid) → slots i ≡ some (in_progress rid)
RequestIds slots (responding elems idx) =
    (i : ℕ) (rid : ReqId)
    → idx ≤ i
    → get_elem? elems i ≡ some (some rid)
    → slots i ≡ some (in_progress rid)

pub record Inv (s : FlatCombiner) : Type 0 where
  pub clients_complete : (i : ℕ) → is_some (s.clients i) ≡ ltb i s.num_threads
  pub slots_complete : (i : ℕ) → is_some (s.slots i) ≡ ltb i s.num_threads
  pub client_slot_empty :
      (i : ℕ) (c : ClientState) (st : SlotState)
      → s.clients i ≡ some c
      → s.slots i ≡ some st
      → is_idle c ≡ is_empty st
  pub client_reqids :
      (i : ℕ) (rid : ReqId) (st : SlotState)
      → s.clients i ≡ some (waiting rid)
      → s.slots i ≡ some st
      → get_req_id st ≡ some rid
  pub combiner_elements : CombinerElements s.num_threads s.combiner
  pub combiner_slots_not_in_progress : SlotsNotInProgress s.num_threads s.slots s.combiner
  pub combiner_request_ids : RequestIds s.slots s.combiner

pub initialize-Inv : (n : ℕ) → Inv (initialize n)
initialize-Inv n = record {
  clients_complete = is_some-new_map n idle;
  slots_complete = is_some-new_map n empty;
  client_slot_empty =
      λ i c st hc hs. ground (arith, new_map-eq n idle i hc, new_map-eq n empty i hs);
  client_reqids = λ i rid st hc hs. ground (arith, new_map-eq n idle i hc);
  combiner_elements = omega arith;
  combiner_slots_not_in_progress =
      ((λ i h. ground arith), (λ i h k. ground (arith, new_map_lt n empty i k)));
  combiner_request_ids = λ i rid h. ground arith;
}

-- What the invariant says of the combiner, at a known state of it.
module _ {s : FlatCombiner} (v : Inv s) {c : CombinerState} (e : s.combiner ≡ c) where
  pub elements_at : CombinerElements s.num_threads c
  elements_at = subst (CombinerElements s.num_threads) e v.combiner_elements

  pub not_in_progress_at : SlotsNotInProgress s.num_threads s.slots c
  not_in_progress_at =
      subst (SlotsNotInProgress s.num_threads s.slots) e v.combiner_slots_not_in_progress

  pub RequestIds-at : RequestIds s.slots c
  RequestIds-at = subst (RequestIds s.slots) e v.combiner_request_ids

-- A combiner step keeps the invariant.
pub CombinerStep-Inv : {s t : FlatCombiner} → CombinerStep s t → Inv s → Inv t
CombinerStep-Inv {s} (combiner_collect_empty reqs st e h k) v = record {
  clients_complete = v.clients_complete;
  slots_complete = v.slots_complete;
  client_slot_empty = v.client_slot_empty;
  client_reqids = v.client_reqids;
  combiner_elements = ground (arith, length-push reqs none, v.slots_complete (length reqs));
  combiner_slots_not_in_progress = (
    (λ i g. ground (arith, get_elem?-push reqs none i, (not_in_progress_at v e).0 i)),
    (λ i g lt. ground (arith, length-push reqs none, (not_in_progress_at v e).1 i)),
  );
  combiner_request_ids =
      λ i rid g. ground (arith, get_elem?-push reqs none i, RequestIds-at v e i rid);
}
CombinerStep-Inv {s} (combiner_collect_request reqs rid e h) v = record {
  clients_complete = v.clients_complete;
  slots_complete = λ i. ground (arith, v.slots_complete i);
  client_slot_empty = λ i c st hc hs.
      ground (arith, v.client_slot_empty i c (request rid), v.client_slot_empty i c st);
  client_reqids =
      λ i q st hc hs. ground (arith, v.client_reqids i q (request rid), v.client_reqids i q st);
  combiner_elements = ground (arith, length-push reqs (some rid), v.slots_complete (length reqs));
  combiner_slots_not_in_progress = (
    (λ i g. ground (arith, get_elem?-push reqs (some rid) i, (not_in_progress_at v e).0 i)),
    (λ i g lt. ground (arith, length-push reqs (some rid), (not_in_progress_at v e).1 i)),
  );
  combiner_request_ids =
      λ i q g. ground (arith, get_elem?-push reqs (some rid) i, RequestIds-at v e i q);
}
CombinerStep-Inv {s} (combiner_responding_start reqs e l) v = record {
  clients_complete = v.clients_complete;
  slots_complete = v.slots_complete;
  client_slot_empty = v.client_slot_empty;
  client_reqids = v.client_reqids;
  combiner_elements = omega arith;
  combiner_slots_not_in_progress = ((not_in_progress_at v e).0, (λ i lt. absurd (omega arith)));
  combiner_request_ids = λ i rid le g. RequestIds-at v e i rid g;
}
CombinerStep-Inv {s} (combiner_responding_empty reqs tid e lt h) v = record {
  clients_complete = v.clients_complete;
  slots_complete = v.slots_complete;
  client_slot_empty = v.client_slot_empty;
  client_reqids = v.client_reqids;
  combiner_elements = omega (arith, elements_at v e);
  combiner_slots_not_in_progress = (
    (not_in_progress_at v e).0,
    (λ i k. ground (arith, (not_in_progress_at v e).0 i, (not_in_progress_at v e).1 i)),
  );
  combiner_request_ids = λ i rid le g. RequestIds-at v e i rid (omega arith) g;
}
CombinerStep-Inv {s} (combiner_responding_result reqs tid q rid e lt h k) v = record {
  clients_complete = v.clients_complete;
  slots_complete = λ i. ground (arith, v.slots_complete i);
  client_slot_empty = λ i c st hc hs.
      ground (arith, v.client_slot_empty i c (in_progress rid), v.client_slot_empty i c st);
  client_reqids =
      λ i p st hc hs. ground (arith, v.client_reqids i p (in_progress rid), v.client_reqids i p st);
  combiner_elements = omega (arith, elements_at v e);
  combiner_slots_not_in_progress = (
    (λ i g. ground (arith, (not_in_progress_at v e).0 i)),
    (λ i l. ground (arith, (not_in_progress_at v e).1 i)),
  );
  combiner_request_ids = λ i p le g. ground (arith, RequestIds-at v e i p);
}
CombinerStep-Inv {s} (combiner_responding_done reqs tid e l) v = record {
  clients_complete = v.clients_complete;
  slots_complete = v.slots_complete;
  client_slot_empty = v.client_slot_empty;
  client_reqids = v.client_reqids;
  combiner_elements = omega arith;
  combiner_slots_not_in_progress =
      ((λ i g. ground arith), (λ i le lt. (not_in_progress_at v e).1 i (omega arith)));
  combiner_request_ids = λ i rid g. ground arith;
}

-- A slot that was not in progress and is not afterwards is no concern of the combiner's.
module _ (n : ℕ) (slots : ℕ → Option SlotState) (tid : ℕ) (old st : SlotState) where
  pub insert-SlotsNotInProgress :
      (c : CombinerState)
      → is_in_progress st ≡ false
      → SlotsNotInProgress n slots c
      → SlotsNotInProgress n (insert slots tid st) c
  insert-SlotsNotInProgress (collecting elems) h v =
      ((λ i g. ground (arith, v.0 i)), (λ i le lt. ground (arith, v.1 i)))
  insert-SlotsNotInProgress (responding elems idx) h v =
      ((λ i g. ground (arith, v.0 i)), (λ i lt. ground (arith, v.1 i)))

  pub insert-RequestIds :
      (c : CombinerState)
      → slots tid ≡ some old
      → is_in_progress old ≡ false
      → RequestIds slots c
      → RequestIds (insert slots tid st) c
  insert-RequestIds (collecting elems) e h v = λ i rid g. ground (arith, v i rid)
  insert-RequestIds (responding elems idx) e h v = λ i rid le g. ground (arith, v i rid)

-- Every transition keeps the invariant.
pub Step-Inv : {s t : FlatCombiner} → Step s t → Inv s → Inv t
Step-Inv (combine st) v = CombinerStep-Inv st v
Step-Inv {s} (send_request tid rid hc hs) v = record {
  clients_complete = λ i. ground (arith, v.clients_complete i);
  slots_complete = λ i. ground (arith, v.slots_complete i);
  client_slot_empty = λ i c st gc gs. ground (arith, v.client_slot_empty i c st);
  client_reqids = λ i p st gc gs. ground (arith, v.client_reqids i p st);
  combiner_elements = v.combiner_elements;
  combiner_slots_not_in_progress =
      insert-SlotsNotInProgress s.num_threads s.slots tid empty (request rid) s.combiner refl
        v.combiner_slots_not_in_progress;
  combiner_request_ids =
      insert-RequestIds s.num_threads s.slots tid empty (request rid) s.combiner hs refl
        v.combiner_request_ids;
}
Step-Inv {s} (recv_response tid rid hc hs) v = record {
  clients_complete = λ i. ground (arith, v.clients_complete i);
  slots_complete = λ i. ground (arith, v.slots_complete i);
  client_slot_empty = λ i c st gc gs. ground (arith, v.client_slot_empty i c st);
  client_reqids = λ i p st gc gs. ground (arith, v.client_reqids i p st);
  combiner_elements = v.combiner_elements;
  combiner_slots_not_in_progress =
      insert-SlotsNotInProgress s.num_threads s.slots tid (response rid) empty s.combiner refl
        v.combiner_slots_not_in_progress;
  combiner_request_ids =
      insert-RequestIds s.num_threads s.slots tid (response rid) empty s.combiner hs refl
        v.combiner_request_ids;
}

-- In every state that `n` threads can bring about, from the initial one by the transitions of the
-- clients and of the combiner, the invariants of the flat combiner hold.
pub combiner-Inv : {n : ℕ} {s : FlatCombiner} → Reach n s → Inv s
combiner-Inv {n} start = initialize-Inv n
combiner-Inv (next r st) = Step-Inv st (combiner-Inv r)
