-- ===== src/NodeReplication/UnboundedLog/Tests.antt =====
-- A run of the unbounded log of spec/unbounded_log.rs over a counter, with one node: an update adds,
-- and answers the old value.
use verified_nrkernel.Prelude.{
  ℕ, ◌+◌, ◌<◌, ◌≡◌, refl, some, [], ◌∷◌, arith, get_elem?, length, insert, new_map, new_map-eq, sym,
  ◌∙◌, ap,
}
use verified_nrkernel.NodeReplication.Dispatch.{Dispatch, InputOperation, internal, start}
use verified_nrkernel.NodeReplication.SimpleLog
use verified_nrkernel.NodeReplication.UnboundedLog.{
  UpdateState, applied, CombinerState, loaded_local_version, loop, ready, queued_ops, UnboundedLog,
  initialize, ticket, update, Step, add_ticket_write, update_place_ops_in_log_one,
  exec_trivial_start, exec_load_local_version, exec_load_global_head, exec_dispatch_local, Run,
  stop, more,
}
use verified_nrkernel.NodeReplication.UnboundedLog.Invariant.{Inv, initialize-Inv}
use verified_nrkernel.NodeReplication.UnboundedLog.Interp.{interp}
use verified_nrkernel.NodeReplication.UnboundedLog.Preserved.{
  unbounded_log-Inv, dispatch_local_ready, queue_used_up, no_change_no_requests,
}
use verified_nrkernel.NodeReplication.UnboundedLog.Refinement.{step_refines, unbounded_log_refines}

abbrev pub counter : Dispatch
counter = record {
  ReadOperation = ℕ;
  WriteOperation = ℕ;
  Response = ℕ;
  View = ℕ;
  init_spec = 0;
  dispatch_spec = λ v n. v + n;
  dispatch_mut_spec = λ v n. (v + n, v);
}

abbrev pub begun : UnboundedLog counter
begun = initialize counter 1

-- Request 4 adds 5.
abbrev asked : UnboundedLog counter
asked = record begun { local_updates = insert begun.local_updates 4 (UpdateState.init 5) }

abbrev started : UnboundedLog counter
started = record asked { combiner = insert asked.combiner 0 (CombinerState.placed []) }

abbrev placed : UnboundedLog counter
placed = record started {
  tail = 1;
  log = insert started.log 0 (record { op = 5; node_id = 0 });
  local_updates = insert started.local_updates 4 (UpdateState.placed 5 0);
  combiner = insert started.combiner 0 (CombinerState.placed (4 ∷ []));
}

abbrev loaded : UnboundedLog counter
loaded = record placed { combiner = insert placed.combiner 0 (loaded_local_version (4 ∷ []) 0) }

abbrev looping : UnboundedLog counter
looping = record loaded { combiner = insert loaded.combiner 0 (loop (4 ∷ []) 0 0 1) }

abbrev pub answered : UnboundedLog counter
answered = record looping {
  local_updates = insert looping.local_updates 4 (applied 0 0);
  replicas = insert looping.replicas 0 5;
  combiner = insert looping.combiner 0 (loop (4 ∷ []) 1 1 1);
}

-- A combiner that starts when there is nothing to do.
abbrev idle : UnboundedLog counter
idle = record begun { combiner = insert begun.combiner 0 (CombinerState.placed []) }

abbrev idle_loaded : UnboundedLog counter
idle_loaded = record idle { combiner = insert idle.combiner 0 (loaded_local_version [] 0) }

fresh_request :
    (n : ℕ) (c : CombinerState) (i : ℕ)
    → begun.combiner n ≡ some c
    → ¬ (get_elem? (queued_ops c) i ≡ some 4)
fresh_request n c i h q =
    let e = new_map-eq 1 ready n h in absurd (cc (sym q ∙ ap (λ x. get_elem? (queued_ops x) i) e))

dispatches : Step counter looping internal answered
unfolding new_map
dispatches = update (
    exec_dispatch_local 0 (4 ∷ []) 0 0 1 0 4 (UpdateState.placed 5 0)
      (record { op = 5; node_id = 0 }) refl refl refl refl refl refl (omega arith) refl)

Run-looping :
    Run counter
      (start 4 (InputOperation.write 5) ∷ internal ∷ internal ∷ internal ∷ internal ∷ [])
      begun
      looping
unfolding new_map
Run-looping = more {t = asked} (ticket (add_ticket_write 4 5 refl refl refl fresh_request)) (
    more {t = started} (update (exec_trivial_start 0 refl refl)) (
      more {t = placed} (update (update_place_ops_in_log_one 0 4 [] 5 refl refl refl)) (
        more {t = loaded} (update (exec_load_local_version 0 (4 ∷ []) 0 refl refl refl))
          (more {t = looping} (update (exec_load_global_head 0 (4 ∷ []) 0 refl refl)) stop))))

pub Run-answered :
    Run counter
      (start 4 (InputOperation.write 5) ∷ internal ∷ internal ∷ internal ∷ internal ∷ internal ∷ [])
      begun
      answered
unfolding new_map
Run-answered = more {t = asked} (ticket (add_ticket_write 4 5 refl refl refl fresh_request)) (
    more {t = started} (update (exec_trivial_start 0 refl refl)) (
      more {t = placed} (update (update_place_ops_in_log_one 0 4 [] 5 refl refl refl)) (
        more {t = loaded} (update (exec_load_local_version 0 (4 ∷ []) 0 refl refl refl)) (
          more {t = looping} (update (exec_load_global_head 0 (4 ∷ []) 0 refl refl))
            (more {t = answered} dispatches stop)))))

Run-idle_loaded : Run counter (internal ∷ internal ∷ []) begun idle_loaded
unfolding new_map
Run-idle_loaded =
    more {t = idle} (update (exec_trivial_start 0 refl refl))
      (more {t = idle_loaded} (update (exec_load_local_version 0 [] 0 refl refl refl)) stop)

unbounded_log-Inv_example : Inv answered
unbounded_log-Inv_example = unbounded_log-Inv 1 Run-answered

dispatch_local_ready_example :
    (rid : ℕ) × (op : ℕ) × (0 < length {A = ℕ} (4 ∷ []))
    × (get_elem? {A = ℕ} (4 ∷ []) 0 ≡ some rid)
    × (looping.local_updates rid ≡ some (UpdateState.placed op 0))
dispatch_local_ready_example =
    dispatch_local_ready 1 Run-looping 0 (4 ∷ []) 0 0 1 refl (record { op = 5; node_id = 0 }) refl
      refl (omega arith)

queue_used_up_example : 1 ≡ length {A = ℕ} (4 ∷ [])
queue_used_up_example = queue_used_up 1 Run-answered 0 (4 ∷ []) 1 1 1 refl refl

no_change_no_requests_example : length {A = ℕ} [] ≡ 0
no_change_no_requests_example = no_change_no_requests 1 0 [] 0 Run-idle_loaded refl refl

step_refines_example : SimpleLog.Step counter (interp begun) internal (interp idle)
unfolding new_map
step_refines_example = step_refines (update (exec_trivial_start 0 refl refl)) (initialize-Inv 1)

unbounded_log_refines_example :
    SimpleLog.Run counter
      (start 4 (InputOperation.write 5) ∷ internal ∷ internal ∷ internal ∷ internal ∷ internal ∷ [])
      (SimpleLog.initialize counter 1)
      (interp answered)
unbounded_log_refines_example = unbounded_log_refines 1 Run-answered
