-- ===== src/NodeReplication/UnboundedLog/Exec.antt =====
-- spec/unbounded_log.rs: the steps of a combiner keep the invariants of the unbounded log.
use verified_nrkernel.Prelude.{
  ℕ, ◌-◌, ◌≡◌, ◌≢◌, refl, sym, ◌∙◌, ap, subst, some, List, [], arith, get_elem?, insert,
}
use mathlib.Core.Option.{some-injective}
use verified_nrkernel.NodeReplication.Dispatch.{NodeId, ReqId, LogIdx, Dispatch}
use verified_nrkernel.NodeReplication.UnboundedLog.{
  CombinerState, ready, loaded_local_version, loop, queued_ops, current_local_version, UnboundedLog,
  compute_nrstate_at_version,
}
use verified_nrkernel.NodeReplication.UnboundedLog.Ranges.{LogRangeNoNodeId-Matches, SeqDisjoint}
use verified_nrkernel.NodeReplication.UnboundedLog.Invariant.{WfCombiner, Pending, Inv}
use verified_nrkernel.NodeReplication.UnboundedLog.Combiner.{insert-here, insert-there}
use verified_nrkernel.NodeReplication.UnboundedLog.Node.{IsNodeStep-Inv}

-- Every request of the one queue is in the other.
abbrev pub Within : List ReqId → List ReqId → Type 0
Within xs ys =
    (i : ℕ) (rid : ReqId) → get_elem? xs i ≡ some rid → (j : ℕ) × (get_elem? ys j ≡ some rid)

pub Within-refl : (xs : List ReqId) → Within xs xs
Within-refl xs i rid h = (i, h)

module _ {DT : Dispatch} (s : UnboundedLog DT) (v : Inv s) where
  pub Within-distinct :
      (n : NodeId) (c : CombinerState) (queue : List ReqId)
      → s.combiner n ≡ some c
      → Within queue (queued_ops c)
      → (m : NodeId) (d : CombinerState) → n ≢ m
      → s.combiner m ≡ some d
      → SeqDisjoint queue (queued_ops d)
  Within-distinct n c queue h sub m d ne g i j rid q r =
      let (k, old) = sub i rid q in v.rids_distinct n m c d ne h g k j rid old r

  -- A combiner goes on to another state, at the same version and with no other request.
  combiner_step :
      (n : NodeId) (c c' : CombinerState) (h : s.combiner n ≡ some c)
      → (let w = v.nodes_wf n c h in
          (current_local_version c' w.local ≡ current_local_version c w.local)
          × WfCombiner s.log s.version_upper_bound s.tail s.local_updates n w.local c')
      → Within (queued_ops c') (queued_ops c)
      → Inv (record s { combiner = insert s.combiner n c' })
  combiner_step n c c' h (same, wf') sub =
      let w = v.nodes_wf n c h in
      IsNodeStep-Inv s v s.log s.version_upper_bound s.tail s.local_updates s.local_versions
        s.replicas (insert s.combiner n c') n c c'
        (record {
          ext = λ i e g. g;
          upper_grows = omega arith;
          tail_grows = omega arith;
          upper_in_log = v.version_in_range;
          full = v.log_complete;
          ends = v.log_ends;
          updates_wf = v.updates_wf;
          before = h;
          after = insert-here s.combiner n c';
          combiner_else = insert-there s.combiner n c';
          local_versions_else = λ m ne. refl;
          replicas_else = λ m ne. refl;
          wf_else = λ m d l ne g x. x;
          wf_here = record {
            local = w.local;
            has_local = w.has_local;
            local_in_version = w.local_in_version;
            in_log = omega (arith, w.in_log);
            has_state =
                w.has_state ∙ ap (λ k. some (compute_nrstate_at_version DT s.log k)) (sym same);
            wf = wf';
          };
          forward = omega arith;
          distinct = Within-distinct n c (queued_ops c') h sub;
        })

  pub exec_trivial_start-Inv :
      (n : NodeId)
      → s.combiner n ≡ some ready
      → Inv (record s { combiner = insert s.combiner n (CombinerState.placed []) })
  exec_trivial_start-Inv n h =
      let w = v.nodes_wf n ready h in
      combiner_step n ready (CombinerState.placed []) h
        (
          refl,
          record {
            matches =
                LogRangeNoNodeId-Matches n s.log s.local_updates (s.tail - w.local) w.local s.tail
                  (omega (arith, w.in_log)) w.wf;
            unapplied = λ j rid le q. absurd (cc q);
            unique = λ i j rid q r. absurd (cc q);
          },
        )
        (Within-refl [])

  pub exec_load_local_version-Inv :
      (n : NodeId) (queue : List ReqId) (lversion : LogIdx)
      → s.combiner n ≡ some (CombinerState.placed queue)
      → s.local_versions n ≡ some lversion
      → Inv (record s { combiner = insert s.combiner n (loaded_local_version queue lversion) })
  exec_load_local_version-Inv n queue lversion h g =
      let w = v.nodes_wf n (CombinerState.placed queue) h in
      let same : lversion ≡ w.local = some-injective _ _ (sym g ∙ w.has_local) in
      combiner_step n (CombinerState.placed queue) (loaded_local_version queue lversion) h
        (
          same,
          (
            same,
            subst
                (λ l. Pending s.log s.version_upper_bound s.tail s.local_updates n w.local queue l)
                (sym same) w.wf,
          ),
        )
        (Within-refl queue)

  pub exec_load_global_head-Inv :
      (n : NodeId) (queue : List ReqId) (lversion : LogIdx)
      → s.combiner n ≡ some (loaded_local_version queue lversion)
      → Inv (record s { combiner = insert s.combiner n (loop queue lversion 0 s.tail) })
  exec_load_global_head-Inv n queue lversion h =
      let w = v.nodes_wf n (loaded_local_version queue lversion) h in
      combiner_step n (loaded_local_version queue lversion) (loop queue lversion 0 s.tail) h
        (
          refl,
          record {
            last_in_log = omega arith;
            from_local = omega (arith, w.wf.0);
            not_beyond = w.in_log;
            idx_in_queue = omega arith;
            matches = w.wf.1.matches;
            rest = λ i le lt. absurd (omega arith);
            unapplied = w.wf.1.unapplied;
            answered = λ j rid u lt q r. absurd (omega arith);
            unique = w.wf.1.unique;
          },
        )
        (Within-refl queue)

  pub exec_finish_no_change-Inv :
      (n : NodeId) (queue : List ReqId) (lversion : LogIdx)
      → s.combiner n ≡ some (loaded_local_version queue lversion)
      → lversion ≡ s.tail
      → Inv (record s { combiner = insert s.combiner n ready })
  exec_finish_no_change-Inv n queue lversion h at_tail =
      let w = v.nodes_wf n (loaded_local_version queue lversion) h in
      combiner_step n (loaded_local_version queue lversion) ready h
        (sym w.wf.0, λ i le lt. absurd (omega (arith, w.wf.0))) (λ i rid q. absurd (cc q))
