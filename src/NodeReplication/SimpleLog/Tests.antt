-- ===== src/NodeReplication/SimpleLog/Tests.antt =====
-- A run of the abstract log of spec/simple_log.rs over a counter: an update adds, and answers the old
-- value; a read adds to the value.
use verified_nrkernel.Prelude.{
  ℕ, ◌+◌, ◌≤◌, ◌<◌, ◌≡◌, refl, some, [], ◌∷◌, arith, get_elem?, insert, remove, new_map,
}
use verified_nrkernel.NodeReplication.Dispatch.{
  Dispatch, InputOperation, OutputOperation, internal, start, end,
}
use verified_nrkernel.NodeReplication.SimpleLog.{
  SimpleLog, initialize, init, req, nrstate_at_version, Step, readonly_start, readonly_read_version,
  readonly_finish, update_start, update_add_op_to_log, update_incr_version, update_finish,
  update_replica_update, Run, done, more,
}
use verified_nrkernel.NodeReplication.SimpleLog.Invariant.{Inv, simple_log-Inv}
use verified_nrkernel.NodeReplication.SimpleLog.Answers.{
  Read, update_answer_settled, read_sees_update, reads_in_order,
}

abbrev counter : Dispatch
counter = record {
  ReadOperation = ℕ;
  WriteOperation = ℕ;
  Response = ℕ;
  View = ℕ;
  init_spec = 0;
  dispatch_spec = λ v n. v + n;
  dispatch_mut_spec = λ v n. (v + n, v);
}

abbrev fresh : SimpleLog counter
fresh = initialize counter 1

-- Request 0 adds 5.
abbrev asked : SimpleLog counter
asked = record fresh { update_reqs = insert fresh.update_reqs 0 5 }

abbrev logged : SimpleLog counter
logged = record asked {
  log = 5 ∷ [];
  update_reqs = remove asked.update_reqs 0;
  update_resps = insert asked.update_resps 0 0;
}

abbrev seen : SimpleLog counter
seen = record logged { version = 1 }

abbrev answered : SimpleLog counter
answered = record seen { update_resps = remove seen.update_resps 0 }

-- Request 1 reads.
abbrev reading : SimpleLog counter
reading = record answered { readonly_reqs = insert answered.readonly_reqs 1 (init 2 0) }

abbrev recorded : SimpleLog counter
recorded = record reading { readonly_reqs = insert reading.readonly_reqs 1 (req 1 2 0) }

abbrev caught_up : SimpleLog counter
caught_up = record recorded { replica_versions = insert recorded.replica_versions 0 1 }

abbrev read_done : SimpleLog counter
read_done = record caught_up { readonly_reqs = remove caught_up.readonly_reqs 1 }

-- Request 2 reads after it.
abbrev reading_2 : SimpleLog counter
reading_2 = record read_done { readonly_reqs = insert read_done.readonly_reqs 2 (init 3 0) }

abbrev recorded_2 : SimpleLog counter
recorded_2 = record reading_2 { readonly_reqs = insert reading_2.readonly_reqs 2 (req 1 3 0) }

abbrev read_done_2 : SimpleLog counter
read_done_2 = record recorded_2 { readonly_reqs = remove recorded_2.readonly_reqs 2 }

Run-logged : Run counter (start 0 (InputOperation.write 5) ∷ internal ∷ []) fresh logged
Run-logged =
    more {t = asked} (update_start 0 5 refl refl refl refl)
      (more (update_add_op_to_log 0 5 refl refl) done)

Run-seen : Run counter (internal ∷ []) logged seen
Run-seen = more (update_incr_version 1 refl (omega arith) (omega arith)) done

finishes : Step counter seen (end 0 (OutputOperation.write 0)) answered
finishes = update_finish 0 0 5 0 refl refl (omega arith) (omega arith) refl refl

Run-caught_up :
    Run counter (start 1 (InputOperation.read 2 0) ∷ internal ∷ internal ∷ []) answered caught_up
unfolding new_map
Run-caught_up = more {t = reading} (readonly_start 1 0 2 refl refl refl refl) (
    more {t = recorded} (readonly_read_version 1 0 2 refl refl)
      (more (update_replica_update 0 0 1 refl (omega arith) refl (omega arith) (omega arith)) done))

reads : Step counter caught_up (end 1 (OutputOperation.read 7)) read_done
reads =
    readonly_finish 1 1 1 1 0 2 7 refl refl refl (omega arith) (omega arith) (omega arith)
      (omega arith) refl

Run-recorded_2 :
    Run counter (start 2 (InputOperation.read 3 0) ∷ internal ∷ []) read_done recorded_2
Run-recorded_2 =
    more {t = reading_2} (readonly_start 2 0 3 refl refl refl refl)
      (more (readonly_read_version 2 0 3 refl refl) done)

reads_2 : Step counter recorded_2 (end 2 (OutputOperation.read 8)) read_done_2
reads_2 =
    readonly_finish 2 1 1 1 0 3 8 refl refl refl (omega arith) (omega arith) (omega arith)
      (omega arith) refl

simple_log-Inv_example : Inv counter logged
simple_log-Inv_example = simple_log-Inv counter 1 Run-logged

update_answer_settled_example :
    (op : ℕ) × (get_elem? logged.log 0 ≡ some op)
    × (0 ≡ (counter.dispatch_mut_spec (nrstate_at_version counter logged 0) op).1)
update_answer_settled_example =
    update_answer_settled counter 1 0 0 0 Run-logged refl Run-seen refl finishes

read_sees_update_example : (f : Read counter caught_up 1 7) × (0 < f.version)
read_sees_update_example =
    read_sees_update counter 0 1 0 0 7 refl finishes done refl Run-caught_up reads

reads_in_order_example :
    (f1 : Read counter caught_up 1 7) × (f2 : Read counter recorded_2 2 8) × (f1.version
      ≤ f2.version)
reads_in_order_example = reads_in_order counter 1 2 7 8 reads done refl Run-recorded_2 reads_2
