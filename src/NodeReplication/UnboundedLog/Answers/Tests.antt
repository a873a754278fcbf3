-- ===== src/NodeReplication/UnboundedLog/Answers/Tests.antt =====
-- The run of spec/unbounded_log.rs over a counter goes on: the update's answer is published, the
-- client takes it, and then request 5 reads.
use mathlib.Core.Option.{some-injective}
use verified_nrkernel.Prelude.{
  ℕ, zero, suc, ◌≤◌, ◌<◌, ◌≡◌, refl, sym, ◌∙◌, ap, some, List, [], ◌∷◌, ◌++◌, arith, get_elem?,
  insert, remove, new_map, new_map-eq,
}
use verified_nrkernel.NodeReplication.Dispatch.{AsyncLabel, InputOperation, internal, start}
use verified_nrkernel.NodeReplication.UnboundedLog.{
  ReadonlyState, UpdateState, CombinerState, queued_ops, ready, updated_version, UnboundedLog,
  ticket, readonly, update, compute_nrstate_at_version, add_ticket_read,
  readonly_version_upper_bound, readonly_ready_to_read, readonly_apply, update_done,
  exec_update_version_upper_bound, exec_finish, Run, stop, more,
}
use verified_nrkernel.NodeReplication.UnboundedLog.Interp.{interp}
use verified_nrkernel.NodeReplication.UnboundedLog.Tests.{counter, begun, answered, Run-answered}
use verified_nrkernel.NodeReplication.UnboundedLog.Answers.{read_after_update}

abbrev published : UnboundedLog counter
published = record answered {
  version_upper_bound = 1;
  combiner = insert answered.combiner 0 (updated_version (4 ∷ []) 1);
}

abbrev finished : UnboundedLog counter
finished = record published {
  local_versions = insert published.local_versions 0 1;
  combiner = insert published.combiner 0 ready;
}

abbrev stub_ready : UnboundedLog counter
stub_ready = record finished {
  local_updates = insert finished.local_updates 4 (UpdateState.done 0 0);
}

abbrev consumed : UnboundedLog counter
consumed = record stub_ready { local_updates = remove stub_ready.local_updates 4 }

abbrev read_begun : UnboundedLog counter
read_begun = record consumed {
  local_reads = insert consumed.local_reads 5 (ReadonlyState.init 2 0);
}

abbrev read_bound : UnboundedLog counter
read_bound = record read_begun {
  local_reads = insert read_begun.local_reads 5 (ReadonlyState.version_upper_bound 2 0 1);
}

abbrev read_ready : UnboundedLog counter
read_ready = record read_bound {
  local_reads = insert read_bound.local_reads 5 (ReadonlyState.ready_to_read 2 0 1);
}

abbrev read_done : UnboundedLog counter
read_done = record read_ready {
  local_reads = insert read_ready.local_reads 5 (ReadonlyState.done 2 0 1 7);
}

Run-append :
    {s t u : UnboundedLog counter} {first rest : List (AsyncLabel counter)}
    → Run counter first s t
    → Run counter rest t u
    → Run counter (first ++ rest) s u
Run-append stop q = q
Run-append (more st r) q = more st (Run-append r q)

Run-stub_ready :
    Run counter
      (start 4 (InputOperation.write 5)
        ∷ internal
        ∷ internal
        ∷ internal
        ∷ internal
        ∷ internal
        ∷ internal
        ∷ internal
        ∷ internal
        ∷ [])
      begun
      stub_ready
unfolding new_map
Run-stub_ready = Run-append Run-answered (
    more {t = published} (update (exec_update_version_upper_bound 0 (4 ∷ []) 1 1 1 refl refl refl))
      (more {t = finished} (update (exec_finish 0 (4 ∷ []) 1 0 refl refl refl))
        (more {t = stub_ready} (update (update_done 4 0 0 refl refl (omega arith))) stop)))

fresh_request :
    (n : ℕ) (c : CombinerState) (i : ℕ)
    → consumed.combiner n ≡ some c
    → ¬ (get_elem? (queued_ops c) i ≡ some 5)
unfolding new_map
fresh_request zero c i h q =
    let e : ready ≡ c = some-injective _ _ h in
    absurd (cc (sym q ∙ ap (λ x. get_elem? (queued_ops x) i) (sym e)))
fresh_request (suc n) c i h q =
    let e : c ≡ ready = new_map-eq 1 ready (suc n) (ground arith) in
    absurd (cc (sym q ∙ ap (λ x. get_elem? (queued_ops x) i) e))

Run-read_done :
    Run counter
      (start 5 (InputOperation.read 2 0) ∷ internal ∷ internal ∷ internal ∷ [])
      consumed
      read_done
unfolding new_map
Run-read_done =
    more {t = read_begun} (ticket (add_ticket_read 5 2 0 refl refl refl fresh_request)) (
      more {t = read_bound} (readonly (readonly_version_upper_bound 5 2 0 refl refl)) (
        more {t = read_ready}
          (readonly (readonly_ready_to_read 5 2 0 1 1 refl refl refl (omega arith)))
          (more {t = read_done} (readonly (readonly_apply 5 2 0 1 5 refl refl refl refl)) stop)))

read_after_update_example :
    (version : ℕ) × (0 < version)
    × (version ≤ read_done.tail)
    × (7 ≡ counter.dispatch_spec (compute_nrstate_at_version counter read_done.log version) 2)
    × ((e : ℕ) × (get_elem? (interp read_done).log 0 ≡ some e)
        × (0
            ≡ (counter.dispatch_mut_spec (compute_nrstate_at_version counter read_done.log 0) e).1))
read_after_update_example =
    read_after_update 1 4 5 0 1 0 7 2 0 Run-stub_ready refl stop refl Run-read_done refl
