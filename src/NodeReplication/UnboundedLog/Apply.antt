-- ===== src/NodeReplication/UnboundedLog/Apply.antt =====
-- spec/unbounded_log.rs: the steps in which a combiner applies the log to its replica, and those in
-- which it publishes the version that it has reached, keep the invariants.
use verified_nrkernel.Prelude.{
  ℕ, suc, ◌+◌, ◌<◌, ◌≡◌, ◌≢◌, inl, inr, refl, sym, ◌∙◌, ap, some, List, arith, get_elem?,
  get_elem?-lt, insert, insert-cases,
}
use mathlib.Core.Option.{some-injective}
use verified_nrkernel.NodeReplication.Dispatch.{NodeId, ReqId, LogIdx, Dispatch}
use verified_nrkernel.NodeReplication.UnboundedLog.{
  LogEntry, applied, loop, queued_ops, UnboundedLog, apply_entry, compute_nrstate_at_version,
}
use verified_nrkernel.NodeReplication.UnboundedLog.Ranges.{
  KeepsPlaced, LogRangeMatchesQueue-mono, matches_local, matches_remote, QueueRidsUpdateDone,
  QueueRidsUpdatePlaced,
}
use verified_nrkernel.NodeReplication.UnboundedLog.Invariant.{WfLoop, Inv}
use verified_nrkernel.NodeReplication.UnboundedLog.Combiner.{
  insert-here, insert-there, insert-Keeps, WfCombiner-Keeps,
}
use verified_nrkernel.NodeReplication.UnboundedLog.Node.{IsNodeStep-Inv}
use verified_nrkernel.NodeReplication.UnboundedLog.Requests.{inserted_update}
use verified_nrkernel.NodeReplication.UnboundedLog.Exec.{Within-refl, Within-distinct}

module _ {DT : Dispatch} (s : UnboundedLog DT) (v : Inv s) where
  -- The state at the next version is what the entry makes of the one before.
  next_state :
      (lversion : LogIdx) (e : LogEntry DT) (state : DT.View)
      → s.log lversion ≡ some e
      → state ≡ compute_nrstate_at_version DT s.log lversion
      → (DT.dispatch_mut_spec state e.op).0 ≡ compute_nrstate_at_version DT s.log (lversion + 1)
  next_state lversion e state h same =
      let bump : suc lversion ≡ lversion + 1 = omega arith in
      ap (λ y. (DT.dispatch_mut_spec y e.op).0) same
      ∙ ap (λ o. apply_entry DT o (compute_nrstate_at_version DT s.log lversion)) (sym h)
      ∙ ap (compute_nrstate_at_version DT s.log) bump

  pub exec_dispatch_remote-Inv :
      (n : NodeId) (queue : List ReqId) (lversion idx tail : LogIdx) (state : DT.View)
      (e : LogEntry DT)
      → s.combiner n ≡ some (loop queue lversion idx tail)
      → s.replicas n ≡ some state
      → s.log lversion ≡ some e
      → lversion < tail
      → e.node_id ≢ n
      → Inv (record s {
        replicas = insert s.replicas n (DT.dispatch_mut_spec state e.op).0;
        combiner = insert s.combiner n (loop queue (lversion + 1) idx tail);
      })
  exec_dispatch_remote-Inv n queue lversion idx tail state e h rep entry lt other =
      let w = v.nodes_wf n (loop queue lversion idx tail) h in
      let at = some-injective _ _ (sym rep ∙ w.has_state) in
      let state' = (DT.dispatch_mut_spec state e.op).0 in
      let c' = loop queue (lversion + 1) idx tail in
      IsNodeStep-Inv s v s.log s.version_upper_bound s.tail s.local_updates s.local_versions
        (insert s.replicas n state') (insert s.combiner n c') n (loop queue lversion idx tail) c'
        (record {
          ext = λ i x g. g;
          upper_grows = omega arith;
          tail_grows = omega arith;
          upper_in_log = v.version_in_range;
          full = v.log_complete;
          ends = v.log_ends;
          updates_wf = v.updates_wf;
          before = h;
          after = insert-here s.combiner n c';
          combiner_else = insert-there s.combiner n c';
          local_versions_else = λ m ne. refl;
          replicas_else = insert-there s.replicas n state';
          wf_else = λ m d l ne g x. x;
          wf_here = record {
            local = w.local;
            has_local = w.has_local;
            local_in_version = w.local_in_version;
            in_log = omega (arith, w.wf.last_in_log);
            has_state =
                insert-here s.replicas n state' ∙ ap some (next_state lversion e state entry at);
            wf = record {
              last_in_log = w.wf.last_in_log;
              from_local = omega (arith, w.wf.from_local);
              not_beyond = omega arith;
              idx_in_queue = w.wf.idx_in_queue;
              matches =
                  matches_remote n s.log s.local_updates queue tail e lt entry other w.wf.matches;
              rest = w.wf.rest;
              unapplied = w.wf.unapplied;
              answered = w.wf.answered;
              unique = w.wf.unique;
            };
          };
          forward = omega arith;
          distinct =
              Within-distinct s v n (loop queue lversion idx tail) queue h (Within-refl queue);
        })

  -- The queue after its request `rid` at `idx` is answered.
  module _ (queue : List ReqId) (lversion idx tail : LogIdx) (n : NodeId) (local : LogIdx)
      (rid : ReqId) (ret : DT.Response) (q : get_elem? queue idx ≡ some rid)
      (w : WfLoop s.log s.version_upper_bound s.tail s.local_updates n local queue lversion idx
        tail) where
    other_request : (j : ℕ) (r : ReqId) → j ≢ idx → get_elem? queue j ≡ some r → rid ≢ r
    other_request j r ne h e = ne (w.unique j idx rid (h ∙ ap some (sym e)) q)

    later_kept :
        KeepsPlaced queue
          (idx + 1)
          s.local_updates
          (insert s.local_updates rid (applied ret lversion))
    later_kept j r op i le h g =
        insert-there s.local_updates rid (applied ret lversion) r
          (other_request j r (λ e. absurd (omega arith)) h)
        ∙ g

    unapplied_after :
        QueueRidsUpdatePlaced queue (insert s.local_updates rid (applied ret lversion)) (idx + 1)
    unapplied_after j r le h =
        let (op, i, g) = w.unapplied j r (omega arith) h in (op, i, later_kept j r op i le h g)

    answered_after :
        QueueRidsUpdateDone queue (insert s.local_updates rid (applied ret lversion)) (idx + 1)
    answered_after j r u lt h g =
        elim (insert-cases s.local_updates rid (applied ret lversion) r u g) [
          | inl (e, same) ↦ (ret, lversion, inl (sym same))
          | inr (ne, old) ↦
              let j_ne : j ≢ idx =
                λ e. ne (some-injective _ _ (sym q ∙ ap (get_elem? queue) (sym e) ∙ h)) in
              w.answered j r u (omega arith) h old
        ]

  pub exec_dispatch_local-Inv :
      (n : NodeId) (queue : List ReqId) (lversion idx tail : LogIdx) (state : DT.View) (rid : ReqId)
      (e : LogEntry DT)
      → s.combiner n ≡ some (loop queue lversion idx tail)
      → s.replicas n ≡ some state
      → get_elem? queue idx ≡ some rid
      → s.log lversion ≡ some e
      → lversion < tail
      → e.node_id ≡ n
      → Inv (record s {
        local_updates =
            insert s.local_updates rid (applied (DT.dispatch_mut_spec state e.op).1 lversion);
        replicas = insert s.replicas n (DT.dispatch_mut_spec state e.op).0;
        combiner = insert s.combiner n (loop queue (lversion + 1) (idx + 1) tail);
      })
  exec_dispatch_local-Inv n queue lversion idx tail state rid e h rep q entry lt own =
      let w = v.nodes_wf n (loop queue lversion idx tail) h in
      let at = some-injective _ _ (sym rep ∙ w.has_state) in
      let ret = (DT.dispatch_mut_spec state e.op).1 in
      let state' = (DT.dispatch_mut_spec state e.op).0 in
      let c' = loop queue (lversion + 1) (idx + 1) tail in
      let updates' = insert s.local_updates rid (applied ret lversion) in
      let (r, op, q', placed, m) =
        matches_local n s.log s.local_updates queue tail e lt entry own w.wf.matches in
      IsNodeStep-Inv s v s.log s.version_upper_bound s.tail updates' s.local_versions
        (insert s.replicas n state') (insert s.combiner n c') n (loop queue lversion idx tail) c'
        (record {
          ext = λ i x g. g;
          upper_grows = omega arith;
          tail_grows = omega arith;
          upper_in_log = v.version_in_range;
          full = v.log_complete;
          ends = v.log_ends;
          updates_wf = inserted_update s v rid (applied ret lversion) (
            e,
            entry,
            omega (arith, w.wf.last_in_log),
            ap (λ y. (DT.dispatch_mut_spec y e.op).1) at,
          );
          before = h;
          after = insert-here s.combiner n c';
          combiner_else = insert-there s.combiner n c';
          local_versions_else = λ m ne. refl;
          replicas_else = insert-there s.replicas n state';
          wf_else = λ k d l ne g.
              WfCombiner-Keeps s.log s.version_upper_bound s.tail s.local_updates updates' k l d
                (insert-Keeps (queued_ops d) s.local_updates rid (applied ret lversion)
                  (λ j. v.rids_distinct n k (loop queue lversion idx tail) d ne h g idx j rid q))
                s.version_upper_bound (omega arith);
          wf_here = record {
            local = w.local;
            has_local = w.has_local;
            local_in_version = w.local_in_version;
            in_log = omega (arith, w.wf.last_in_log);
            has_state =
                insert-here s.replicas n state' ∙ ap some (next_state lversion e state entry at);
            wf = record {
              last_in_log = w.wf.last_in_log;
              from_local = omega (arith, w.wf.from_local);
              not_beyond = omega arith;
              idx_in_queue = omega (arith, get_elem?-lt queue idx q);
              matches =
                  LogRangeMatchesQueue-mono n s.log s.log s.local_updates updates' (λ i x g. g)
                    queue tail (later_kept queue lversion idx tail n w.local rid ret q w.wf) m;
              rest = w.wf.rest;
              unapplied = unapplied_after queue lversion idx tail n w.local rid ret q w.wf;
              answered = answered_after queue lversion idx tail n w.local rid ret q w.wf;
              unique = w.wf.unique;
            };
          };
          forward = omega arith;
          distinct =
              Within-distinct s v n (loop queue lversion idx tail) queue h (Within-refl queue);
        })
