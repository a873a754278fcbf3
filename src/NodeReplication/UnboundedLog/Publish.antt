-- ===== src/NodeReplication/UnboundedLog/Publish.antt =====
-- spec/unbounded_log.rs: the steps in which a combiner publishes the version that it has reached
-- keep the invariants.
use verified_nrkernel.Prelude.{
  ◌≤◌, ◌≡◌, refl, ◌∙◌, ap, some, List, [], arith, insert, leb, if◌then◌else◌,
}
use verified_nrkernel.NodeReplication.Dispatch.{NodeId, ReqId, LogIdx, Dispatch}
use verified_nrkernel.NodeReplication.UnboundedLog.{
  ready, loop, updated_version, queued_ops, UnboundedLog, compute_nrstate_at_version,
}
use verified_nrkernel.NodeReplication.UnboundedLog.Ranges.{matches_at_end}
use verified_nrkernel.NodeReplication.UnboundedLog.Invariant.{Inv}
use verified_nrkernel.NodeReplication.UnboundedLog.Combiner.{
  insert-here, insert-there, Keeps-refl, WfCombiner-Keeps,
}
use verified_nrkernel.NodeReplication.UnboundedLog.Node.{WfUpdate-Extends, IsNodeStep-Inv}
use verified_nrkernel.NodeReplication.UnboundedLog.Exec.{Within-refl, Within-distinct}

module _ {DT : Dispatch} (s : UnboundedLog DT) (v : Inv s) where
  pub exec_update_version_upper_bound-Inv :
      (n : NodeId) (queue : List ReqId) (lversion idx tail : LogIdx)
      → s.combiner n ≡ some (loop queue lversion idx tail)
      → lversion ≡ tail
      → Inv (record s {
        version_upper_bound =
            if leb tail s.version_upper_bound then s.version_upper_bound else tail;
        combiner = insert s.combiner n (updated_version queue tail);
      })
  exec_update_version_upper_bound-Inv n queue lversion idx tail h end =
      let w = v.nodes_wf n (loop queue lversion idx tail) h in
      let upper' = if leb tail s.version_upper_bound then s.version_upper_bound else tail in
      let grows : s.version_upper_bound ≤ upper' = ground arith in
      let reaches : tail ≤ upper' = ground arith in
      let in_log : upper' ≤ s.tail = ground (arith, v.version_in_range, w.wf.last_in_log) in
      let used_up = matches_at_end n s.log s.local_updates queue tail end w.wf.matches in
      let c' = updated_version queue tail in
      IsNodeStep-Inv s v s.log upper' s.tail s.local_updates s.local_versions s.replicas
        (insert s.combiner n c') n (loop queue lversion idx tail) c'
        (record {
          ext = λ i x g. g;
          upper_grows = grows;
          tail_grows = omega arith;
          upper_in_log = in_log;
          full = v.log_complete;
          ends = v.log_ends;
          updates_wf = λ r u g.
              WfUpdate-Extends s.log s.log s.version_upper_bound upper' s.tail s.tail (λ i x y. y)
                grows (omega arith) v.log_complete v.version_in_range u (v.updates_wf r u g);
          before = h;
          after = insert-here s.combiner n c';
          combiner_else = insert-there s.combiner n c';
          local_versions_else = λ m ne. refl;
          replicas_else = λ m ne. refl;
          wf_else = λ m d l ne g.
              WfCombiner-Keeps s.log s.version_upper_bound s.tail s.local_updates s.local_updates m
                l d (Keeps-refl (queued_ops d) s.local_updates) upper' grows;
          wf_here = record {
            local = w.local;
            has_local = w.has_local;
            local_in_version = omega (arith, w.local_in_version);
            in_log = w.wf.last_in_log;
            has_state = w.has_state ∙ ap (λ k. some (compute_nrstate_at_version DT s.log k)) end;
            wf = record {
              last_in_version = reaches;
              from_local = omega (arith, w.wf.from_local);
              rest = w.wf.rest;
              answered = λ j r u lt. w.wf.answered j r u (omega arith);
              unique = w.wf.unique;
            };
          };
          forward = omega arith;
          distinct =
              Within-distinct s v n (loop queue lversion idx tail) queue h (Within-refl queue);
        })

  pub exec_finish-Inv :
      (n : NodeId) (queue : List ReqId) (tail : LogIdx)
      → s.combiner n ≡ some (updated_version queue tail)
      → Inv (record s {
        local_versions = insert s.local_versions n tail;
        combiner = insert s.combiner n ready;
      })
  exec_finish-Inv n queue tail h =
      let w = v.nodes_wf n (updated_version queue tail) h in
      IsNodeStep-Inv s v s.log s.version_upper_bound s.tail s.local_updates
        (insert s.local_versions n tail) s.replicas (insert s.combiner n ready) n
        (updated_version queue tail) ready
        (record {
          ext = λ i x g. g;
          upper_grows = omega arith;
          tail_grows = omega arith;
          upper_in_log = v.version_in_range;
          full = v.log_complete;
          ends = v.log_ends;
          updates_wf = v.updates_wf;
          before = h;
          after = insert-here s.combiner n ready;
          combiner_else = insert-there s.combiner n ready;
          local_versions_else = insert-there s.local_versions n tail;
          replicas_else = λ m ne. refl;
          wf_else = λ m d l ne g x. x;
          wf_here = record {
            local = tail;
            has_local = insert-here s.local_versions n tail;
            local_in_version = w.wf.last_in_version;
            in_log = w.in_log;
            has_state = w.has_state;
            wf = w.wf.rest;
          };
          forward = omega arith;
          distinct =
              Within-distinct s v n (updated_version queue tail) [] h (λ i rid q. absurd (cc q));
        })
