-- ===== src/NodeReplication/FlatCombiner/Safety.antt =====
-- The `property!` obligations of spec/flat_combiner.rs in the reachable states, and that
-- the combiner always has a step.
use verified_nrkernel.Prelude.{
  ℕ, ◌<◌, ◌≡◌, refl, false, Option, none, some, List, inl, inr, arith, dec_lt, length, get_elem?,
  get_elem?_total, Option-cases,
}
use verified_nrkernel.NodeReplication.FlatCombiner.{
  ReqId, ClientState, idle, waiting, SlotState, empty, request, in_progress, response, is_empty,
  get_req_id, CombinerState, collecting, responding, FlatCombiner, slot_in_progress, CombinerStep,
  combiner_collect_empty, combiner_collect_request, combiner_responding_start,
  combiner_responding_empty, combiner_responding_result, combiner_responding_done, Reach,
}
use verified_nrkernel.NodeReplication.FlatCombiner.Invariant.{
  Inv, elements_at, not_in_progress_at, RequestIds-at, combiner-Inv,
}

-- In a reachable state in which the combiner collects and has not passed all threads, the next slot is
-- not in progress.
pub pre_combiner_collect_request :
    {n : ℕ} {s : FlatCombiner} (reqs : List (Option ReqId)) (st : SlotState)
    → Reach n s
    → s.combiner ≡ collecting reqs
    → length reqs < s.num_threads
    → s.slots (length reqs) ≡ some st
    → slot_in_progress (some st) ≡ false
pre_combiner_collect_request reqs st r e lt h =
    ground (arith, (not_in_progress_at (combiner-Inv r) e).1 (length reqs))

-- In a reachable state the slot of an idle client is empty, and the slot of a client that waits for
-- the answer to `rid` is not empty and holds that request or its answer.
pub client_slot :
    {n : ℕ} {s : FlatCombiner} (tid : ℕ) (c : ClientState) (st : SlotState)
    → Reach n s
    → s.clients tid ≡ some c
    → s.slots tid ≡ some st
    → (c ≡ idle → st ≡ empty)
      × ((rid : ReqId) → c ≡ waiting rid → (is_empty st ≡ false) × (get_req_id st ≡ some rid))
client_slot tid c st r hc hs = (
  (λ e. ground (arith, client_slot_empty tid c st)),
  (λ rid e. ground (arith, client_slot_empty tid c st, client_reqids tid rid st)),
)
  where
    open (combiner-Inv r) use {client_slot_empty, client_reqids}

-- The step that the combiner can take, by the state that it is in.
collect_next :
    {s : FlatCombiner} (reqs : List (Option ReqId))
    → Inv s
    → s.combiner ≡ collecting reqs
    → length reqs < s.num_threads
    → (st : SlotState) → s.slots (length reqs) ≡ some st
    → (t : FlatCombiner) × CombinerStep s t
collect_next reqs v e lt empty h = (_, combiner_collect_empty reqs empty e h refl)
collect_next reqs v e lt (request rid) h = (_, combiner_collect_request reqs rid e h)
collect_next reqs v e lt (in_progress rid) h =
    absurd (ground (arith, (not_in_progress_at v e).1 (length reqs)))
collect_next reqs v e lt (response rid) h = (_, combiner_collect_empty reqs (response rid) e h refl)

respond_next :
    {s : FlatCombiner} (reqs : List (Option ReqId)) (tid : ℕ)
    → Inv s
    → s.combiner ≡ responding reqs tid
    → tid < s.num_threads
    → (q : Option ReqId) → get_elem? reqs tid ≡ some q
    → (t : FlatCombiner) × CombinerStep s t
respond_next reqs tid v e lt none h = (_, combiner_responding_empty reqs tid e lt h)
respond_next reqs tid v e lt (some q) h =
    (_, combiner_responding_result reqs tid q q e lt h (RequestIds-at v e tid q (omega arith) h))

pub slot_at :
    {s : FlatCombiner} (i : ℕ)
    → Inv s
    → i < s.num_threads
    → (st : SlotState) × (s.slots i ≡ some st)
slot_at {s} i v lt = elim (Option-cases (s.slots i)) [
  | inl e ↦ absurd (ground (arith, v.slots_complete i))
  | inr h ↦ h
]

combiner_next :
    {s : FlatCombiner} (c : CombinerState)
    → Inv s
    → s.combiner ≡ c
    → (t : FlatCombiner) × CombinerStep s t
combiner_next {s} (collecting reqs) v e = elim (dec_lt (length reqs) s.num_threads) [
  | yes lt ↦ let (st, h) = slot_at (length reqs) v lt in collect_next reqs v e lt st h
  | no ge ↦ (_, combiner_responding_start reqs e (omega (arith, elements_at v e)))
]
combiner_next {s} (responding reqs tid) v e = elim (dec_lt tid s.num_threads) [
  | yes lt ↦
      let (q, h) = get_elem?_total reqs tid (omega (arith, elements_at v e)) in
      respond_next reqs tid v e lt q h
  | no ge ↦ (_, combiner_responding_done reqs tid e (omega (arith, elements_at v e)))
]

-- In every reachable state the combiner has a step: no state of the clients and slots blocks it.
pub combiner_not_stuck :
    {n : ℕ} {s : FlatCombiner} → Reach n s → (t : FlatCombiner) × CombinerStep s t
combiner_not_stuck {s} r = combiner_next s.combiner (combiner-Inv r) refl
