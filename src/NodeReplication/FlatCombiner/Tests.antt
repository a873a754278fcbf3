-- ===== src/NodeReplication/FlatCombiner/Tests.antt =====
-- Concrete runs of the flat combiner of spec/flat_combiner.rs with two threads.
use verified_nrkernel.Prelude.{ℕ, ◌≡◌, refl, false, none, some, [], ◌∷◌, insert, new_map}
use verified_nrkernel.NodeReplication.FlatCombiner.{
  ReqId, idle, waiting, empty, request, in_progress, is_empty, get_req_id, collecting, responding,
  FlatCombiner, initialize, CombinerStep, combiner_collect_empty, combiner_collect_request,
  combiner_responding_start, combine, send_request, Reach, start, next,
}
use verified_nrkernel.NodeReplication.FlatCombiner.Invariant.{Inv, combiner-Inv}
use verified_nrkernel.NodeReplication.FlatCombiner.Safety.{client_slot, combiner_not_stuck}
use verified_nrkernel.NodeReplication.FlatCombiner.Round.{CombinerRun, serve_slot, round_serves}

-- Thread 0 of two has sent request 7.
abbrev sent : FlatCombiner
sent = record (initialize 2) {
  clients = insert (initialize 2).clients 0 (waiting 7);
  slots = insert (initialize 2).slots 0 (request 7);
}

abbrev collected : FlatCombiner
collected = record sent {
  slots = insert sent.slots 0 (in_progress 7);
  combiner = collecting (some 7 ∷ []);
}

abbrev answering : FlatCombiner
answering = record collected { combiner = responding (some 7 ∷ none ∷ []) 0 }

sent_reached : Reach 2 sent
unfolding new_map
sent_reached = next start (send_request 0 7 refl refl)

collected_reached : Reach 2 collected
unfolding new_map
collected_reached = next sent_reached (combine (combiner_collect_request [] 7 refl refl))

answering_reached : Reach 2 answering
unfolding new_map
answering_reached =
    next
      (next collected_reached (combine (combiner_collect_empty (some 7 ∷ []) empty refl refl refl)))
      (combine (combiner_responding_start (some 7 ∷ none ∷ []) refl refl))

combiner-Inv_example : Inv answering
combiner-Inv_example = combiner-Inv answering_reached

client_slot_example :
    (waiting 7 ≡ idle → request 7 ≡ empty)
    × ((rid : ReqId)
        → waiting 7 ≡ waiting rid
        → (is_empty (request 7) ≡ false) × (get_req_id (request 7) ≡ some rid))
unfolding new_map
client_slot_example = client_slot 0 (waiting 7) (request 7) sent_reached refl refl

combiner_not_stuck_example : (t : FlatCombiner) × CombinerStep answering t
combiner_not_stuck_example = combiner_not_stuck answering_reached

round_serves_example :
    (t : FlatCombiner) × CombinerRun sent t
    × (t.combiner ≡ collecting [])
    × ((i : ℕ) → t.clients i ≡ sent.clients i)
    × ((i : ℕ) → t.slots i ≡ serve_slot (sent.slots i))
round_serves_example = round_serves sent_reached refl
