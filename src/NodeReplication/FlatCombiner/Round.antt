-- ===== src/NodeReplication/FlatCombiner/Round.antt =====
-- A round of the combiner of spec/flat_combiner.rs, from an empty collection to the next.
use verified_nrkernel.Prelude.{
  ℕ, zero, suc, ◌+◌, ◌<◌, ◌≤◌, ◌≡◌, refl, ◌∙◌, subst, Bool, Option, none, some, List, [], ◌∷◌, ◌++◌,
  arith, leb, ◌==◌, if◌then◌else◌, length, get_elem?, get_elem?_total, length-push,
}
use verified_nrkernel.NodeReplication.FlatCombiner.{
  ReqId, SlotState, empty, request, in_progress, response, collecting, responding, FlatCombiner,
  CombinerStep, combiner_collect_empty, combiner_collect_request, combiner_responding_start,
  combiner_responding_empty, combiner_responding_result, combiner_responding_done, Reach,
}
use verified_nrkernel.NodeReplication.FlatCombiner.Invariant.{
  Inv, elements_at, not_in_progress_at, RequestIds-at, CombinerStep-Inv, combiner-Inv,
}
use verified_nrkernel.NodeReplication.FlatCombiner.Safety.{slot_at}

-- Combiner steps in a row, with no step of a client between them.
pub data CombinerRun : FlatCombiner → FlatCombiner → Type 0 where
  done : {s : FlatCombiner} → CombinerRun s s
  more : {s t u : FlatCombiner} → CombinerStep s t → CombinerRun t u → CombinerRun s u

pub CombinerRun-trans : {s t u : FlatCombiner} → CombinerRun s t → CombinerRun t u → CombinerRun s u
CombinerRun-trans done q = q
CombinerRun-trans (more st p) q = more st (CombinerRun-trans p q)

-- What the collection and the answering phase make of a slot.
abbrev pub collect_slot : Option SlotState → Option SlotState
collect_slot none = none
collect_slot (some empty) = some empty
collect_slot (some (request rid)) = some (in_progress rid)
collect_slot (some (in_progress rid)) = some (in_progress rid)
collect_slot (some (response rid)) = some (response rid)

abbrev pub answer_slot : Option SlotState → Option SlotState
answer_slot none = none
answer_slot (some empty) = some empty
answer_slot (some (request rid)) = some (request rid)
answer_slot (some (in_progress rid)) = some (response rid)
answer_slot (some (response rid)) = some (response rid)

-- `t` comes from `s` by combiner steps that apply `f` to the slots that `sel` selects.
record Turns (sel : ℕ → Bool) (f : Option SlotState → Option SlotState) (s t : FlatCombiner)
    : Type 0 where
  pub run : CombinerRun s t
  pub threads : t.num_threads ≡ s.num_threads
  pub clients : (i : ℕ) → t.clients i ≡ s.clients i
  pub slots : (i : ℕ) → t.slots i ≡ (if sel i then f (s.slots i) else s.slots i)

-- The turn of slot `k` and those of the slots after it make up the turns from `k` on.
Turns-cons :
    (k : ℕ) (f : Option SlotState → Option SlotState) {s t u : FlatCombiner}
    → Turns (λ i. i == k) f s t
    → Turns (λ i. leb (k + 1) i) f t u
    → Turns (λ i. leb k i) f s u
Turns-cons k f {s} {t} {u} a b = record {
  run = CombinerRun-trans a.run b.run;
  threads = b.threads ∙ a.threads;
  clients = λ i. b.clients i ∙ a.clients i;
  slots = λ i. ground (arith, a.slots i, b.slots i);
}

-- No slot is left from `num_threads` on.
Turns-nil :
    (k : ℕ) (f : Option SlotState → Option SlotState) {s : FlatCombiner}
    → f none ≡ none
    → Inv s
    → s.num_threads ≤ k
    → Turns (λ i. leb k i) f s s
Turns-nil k f {s} h v le = record {
  run = done;
  threads = refl;
  clients = λ i. refl;
  slots = λ i. ground (arith, v.slots_complete i);
}

run_one : {s t : FlatCombiner} → CombinerStep s t → CombinerRun s t
run_one st = more st done

-- One turn of the collection.
collect_one :
    {s : FlatCombiner} (reqs : List (Option ReqId))
    → Inv s
    → s.combiner ≡ collecting reqs
    → (st : SlotState) → s.slots (length reqs) ≡ some st
    → length reqs < s.num_threads
    → (q : Option ReqId) × (t : FlatCombiner) × Inv t
      × (t.combiner ≡ collecting (reqs ++ q ∷ []))
      × Turns (λ i. i == length reqs) collect_slot s t
collect_one {s} reqs v e empty h lt =
    let st : CombinerStep s _ = combiner_collect_empty reqs empty e h refl in
    (
      none,
      _,
      CombinerStep-Inv st v,
      refl,
      record { run = run_one st; threads = refl; clients = λ i. refl; slots = λ i. ground arith },
    )
collect_one {s} reqs v e (request rid) h lt =
    let st : CombinerStep s _ = combiner_collect_request reqs rid e h in
    (
      some rid,
      _,
      CombinerStep-Inv st v,
      refl,
      record { run = run_one st; threads = refl; clients = λ i. refl; slots = λ i. ground arith },
    )
collect_one reqs v e (in_progress rid) h lt =
    absurd (ground (arith, (not_in_progress_at v e).1 (length reqs)))
collect_one {s} reqs v e (response rid) h lt =
    let st : CombinerStep s _ = combiner_collect_empty reqs (response rid) e h refl in
    (
      none,
      _,
      CombinerStep-Inv st v,
      refl,
      record { run = run_one st; threads = refl; clients = λ i. refl; slots = λ i. ground arith },
    )

abbrev Collected : ℕ → FlatCombiner → Type 0
Collected k s =
    (t : FlatCombiner) × Inv t
    × (reqs : List (Option ReqId)) × (t.combiner ≡ collecting reqs)
    × (length reqs ≡ t.num_threads)
    × Turns (λ i. leb k i) collect_slot s t

collect_all :
    (k : ℕ) {s : FlatCombiner} (reqs : List (Option ReqId))
    → Inv s
    → s.combiner ≡ collecting reqs
    → length reqs + k ≡ s.num_threads
    → Collected (length reqs) s
collect_all zero {s} reqs v e l =
    (s, v, reqs, e, omega arith, Turns-nil (length reqs) collect_slot refl v (omega arith))
collect_all (suc k) {s} reqs v e l =
    let (st, h) = slot_at (length reqs) v (omega arith) in
    let (q, t, v', e', a) = collect_one reqs v e st h (omega arith) in
    let (u, w, rs, d, full, b) =
      collect_all k (reqs ++ q ∷ []) v' e' (omega (arith, length-push reqs q, a.threads)) in
    (
      u,
      w,
      rs,
      d,
      full,
      Turns-cons (length reqs) collect_slot a
          (subst (λ n. Turns (λ i. leb n i) collect_slot t u) (length-push reqs q) b),
    )

-- One turn of the answering phase.
answer_one :
    {s : FlatCombiner} (reqs : List (Option ReqId)) (tid : ℕ)
    → Inv s
    → s.combiner ≡ responding reqs tid
    → tid < s.num_threads
    → (q : Option ReqId) → get_elem? reqs tid ≡ some q
    → (t : FlatCombiner) × Inv t
      × (t.combiner ≡ responding reqs (tid + 1))
      × Turns (λ i. i == tid) answer_slot s t
answer_one {s} reqs tid v e lt none h =
    let st : CombinerStep s _ = combiner_responding_empty reqs tid e lt h in
    (
      _,
      CombinerStep-Inv st v,
      refl,
      record {
        run = run_one st;
        threads = refl;
        clients = λ i. refl;
        slots = λ i. ground (arith, (not_in_progress_at v e).0 i);
      },
    )
answer_one {s} reqs tid v e lt (some q) h =
    let k = RequestIds-at v e tid q (omega arith) h in
    let st : CombinerStep s _ = combiner_responding_result reqs tid q q e lt h k in
    (
      _,
      CombinerStep-Inv st v,
      refl,
      record {
        run = run_one st;
        threads = refl;
        clients = λ i. refl;
        slots = λ i. ground (arith, k);
      },
    )

abbrev Answered : ℕ → FlatCombiner → Type 0
Answered k s =
    (t : FlatCombiner) × Inv t × (t.combiner ≡ collecting []) × Turns (λ i. leb k i) answer_slot s t

answer_all :
    (k : ℕ) {s : FlatCombiner} (reqs : List (Option ReqId)) (tid : ℕ)
    → Inv s
    → s.combiner ≡ responding reqs tid
    → tid + k ≡ s.num_threads
    → Answered tid s
answer_all zero {s} reqs tid v e l =
    let st : CombinerStep s _ = combiner_responding_done reqs tid e (omega arith) in
    (
      _,
      CombinerStep-Inv st v,
      refl,
      record {
        run = run_one st;
        threads = refl;
        clients = λ i. refl;
        slots = λ i. ground (arith, v.slots_complete i);
      },
    )
answer_all (suc k) {s} reqs tid v e l =
    let (q, h) = get_elem?_total reqs tid (omega (arith, elements_at v e)) in
    let (t, v', e', a) = answer_one reqs tid v e (omega arith) q h in
    let (u, w, d, b) = answer_all k reqs (tid + 1) v' e' (omega (arith, a.threads)) in
    (u, w, d, Turns-cons tid answer_slot a b)

-- What a round makes of a slot.
abbrev pub serve_slot : Option SlotState → Option SlotState
serve_slot none = none
serve_slot (some empty) = some empty
serve_slot (some (request rid)) = some (response rid)
serve_slot (some (in_progress rid)) = some (in_progress rid)
serve_slot (some (response rid)) = some (response rid)

round_turns :
    {s : FlatCombiner}
    → Inv s
    → s.combiner ≡ collecting []
    → (t : FlatCombiner) × CombinerRun s t
      × (t.combiner ≡ collecting [])
      × ((i : ℕ) → t.clients i ≡ s.clients i)
      × ((i : ℕ) → t.slots i ≡ serve_slot (s.slots i))
round_turns {s} v e =
    let (t, v1, reqs, e1, full, a) = collect_all s.num_threads [] v e (omega arith) in
    let st : CombinerStep t _ = combiner_responding_start reqs e1 full in
    let (u, w, d, b) =
      answer_all t.num_threads reqs 0 (CombinerStep-Inv st v1) refl (omega arith) in
    (
      u,
      CombinerRun-trans a.run (more st b.run),
      d,
      (λ i. b.clients i ∙ a.clients i),
      (λ i. ground (arith, a.slots i, b.slots i, (not_in_progress_at v e).1 i, v.slots_complete i)),
    )

-- From every reachable state in which a collection is about to begin, the combiner's own steps lead
-- to the beginning of the next collection, where each slot that held a request holds the response
-- to that request, and all other slots and all clients are unchanged.
pub round_serves :
    {n : ℕ} {s : FlatCombiner}
    → Reach n s
    → s.combiner ≡ collecting []
    → (t : FlatCombiner) × CombinerRun s t
      × (t.combiner ≡ collecting [])
      × ((i : ℕ) → t.clients i ≡ s.clients i)
      × ((i : ℕ) → t.slots i ≡ serve_slot (s.slots i))
round_serves r e = round_turns (combiner-Inv r) e
