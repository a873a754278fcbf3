-- ===== src/NodeReplication/UnboundedLog/Place.antt =====
-- spec/unbounded_log.rs: the step in which a combiner places an update in the log keeps the
-- invariants.
use verified_nrkernel.Prelude.{
  ℕ, ◌+◌, ◌≡◌, ◌≢◌, inl, inr, refl, sym, ◌∙◌, ap, subst, Option, some, List, [], ◌∷◌, ◌++◌, arith,
  get_elem?, get_elem?-lt, insert, insert-cases, ℕ_discrete, dec_lt,
}
use verified_nrkernel.NodeReplication.Dispatch.{NodeId, ReqId, LogIdx, Dispatch}
use verified_nrkernel.NodeReplication.UnboundedLog.{
  LogEntry, UpdateState, CombinerState, ready, loaded_local_version, loop, updated_version,
  queued_ops, UnboundedLog,
}
use verified_nrkernel.NodeReplication.UnboundedLog.Ranges.{
  Extends, IsPlaced, IsAppliedOrDone, LogRangeMatchesQueue-push_local, get_elem?-pushed,
  LogContainsEntriesUpToHere, LogNoEntriesFromHere,
}
use verified_nrkernel.NodeReplication.UnboundedLog.Invariant.{WfUpdate, WfCombiner, Pending, Inv}
use verified_nrkernel.NodeReplication.UnboundedLog.Combiner.{
  insert-here, insert-there, Keeps, insert-Keeps, WfCombiner-push,
}
use verified_nrkernel.NodeReplication.UnboundedLog.Node.{
  WfUpdate-Extends, nrstate-Extends, IsNodeStep-Inv,
}

module _ {DT : Dispatch} (s : UnboundedLog DT) (v : Inv s) where
  -- A combiner holds no request that has just begun.
  init_not_queued :
      (n : NodeId) (c : CombinerState) (local : LogIdx) (rid : ReqId) (op : DT.WriteOperation)
      → s.local_updates rid ≡ some (UpdateState.init op)
      → WfCombiner s.log s.version_upper_bound s.tail s.local_updates n local c
      → (i : ℕ) → get_elem? (queued_ops c) i ≢ some rid
  init_not_queued n c local rid op h w i q = go c w q
    where
      not_placed : ¬ IsPlaced (s.local_updates rid)
      not_placed (o, k, e) = absurd (cc (sym h ∙ e))

      not_answered : ¬ IsAppliedOrDone {DT = DT} (UpdateState.init op)
      not_answered (ret, k, inl e) = absurd (cc e)
      not_answered (ret, k, inr e) = absurd (cc e)

      go :
          (c : CombinerState)
          → WfCombiner s.log s.version_upper_bound s.tail s.local_updates n local c
          → get_elem? (queued_ops c) i ≢ some rid
      go ready w q = absurd (cc q)
      go (CombinerState.placed queue) w q = not_placed (w.unapplied i rid (omega arith) q)
      go (loaded_local_version queue l) (e, w) q = not_placed (w.unapplied i rid (omega arith) q)
      go (loop queue l idx last) w q = elim (dec_lt i idx) [
        | yes lt ↦ not_answered (w.answered i rid (UpdateState.init op) lt q h)
        | no ge ↦ not_placed (w.unapplied i rid (omega arith) q)
      ]
      go (updated_version queue last) w q =
          not_answered (w.answered i rid (UpdateState.init op) (get_elem?-lt queue i q) q h)

  pub push-Extends : (e : LogEntry DT) → Extends s.log (insert s.log s.tail e)
  push-Extends e i x h =
      insert-there s.log s.tail e i (λ same. absurd (cc (sym (v.log_ends i (omega arith)) ∙ h))) ∙ h

  push_full : (e : LogEntry DT) → LogContainsEntriesUpToHere (insert s.log s.tail e) (s.tail + 1)
  push_full e i lt = elim (ℕ_discrete s.tail i) [
    | yes same ↦ (e, ap (insert s.log s.tail e) (sym same) ∙ insert-here s.log s.tail e)
    | no ne ↦ let (x, h) = v.log_complete i (omega arith) in (x, push-Extends e i x h)
  ]

  push_ends : (e : LogEntry DT) → LogNoEntriesFromHere (insert s.log s.tail e) (s.tail + 1)
  push_ends e i le =
      insert-there s.log s.tail e i (λ same. absurd (omega arith)) ∙ v.log_ends i (omega arith)

  module _ (n : NodeId) (rid : ReqId) (queue : List ReqId) (op : DT.WriteOperation)
      (h : s.combiner n ≡ some (CombinerState.placed queue))
      (fresh : s.local_updates rid ≡ some (UpdateState.init op)) where
    abbrev new_entry : LogEntry DT
    new_entry = record { op = op; node_id = n }

    abbrev updates' : ReqId → Option (UpdateState DT)
    updates' = insert s.local_updates rid (UpdateState.placed op s.tail)

    keeps :
        (m : NodeId) (d : CombinerState)
        → s.combiner m ≡ some d
        → Keeps (queued_ops d) s.local_updates updates'
    keeps m d g =
        let w = v.nodes_wf m d g in
        insert-Keeps (queued_ops d) s.local_updates rid (UpdateState.placed op s.tail)
          (init_not_queued m d w.local rid op fresh w.wf)

    place_updates_wf :
        (r : ReqId) (u : UpdateState DT)
        → updates' r ≡ some u
        → WfUpdate (insert s.log s.tail new_entry) s.version_upper_bound (s.tail + 1) u
    place_updates_wf r u g =
        elim (insert-cases s.local_updates rid (UpdateState.placed op s.tail) r u g) [
          | inl (e, same) ↦
              subst (WfUpdate (insert s.log s.tail new_entry) s.version_upper_bound (s.tail + 1))
                same (new_entry, insert-here s.log s.tail new_entry, omega arith)
          | inr (ne, old) ↦
              WfUpdate-Extends s.log (insert s.log s.tail new_entry) s.version_upper_bound
                s.version_upper_bound s.tail (s.tail + 1) (push-Extends new_entry) (omega arith)
                (omega arith) v.log_complete v.version_in_range u (v.updates_wf r u old)
        ]

    pushed-Pending :
        Pending
          (insert s.log s.tail new_entry)
          s.version_upper_bound
          (s.tail + 1)
          updates'
          n
          (v.nodes_wf n (CombinerState.placed queue) h).local
          (queue ++ rid ∷ [])
          (v.nodes_wf n (CombinerState.placed queue) h).local
    pushed-Pending =
        let w = v.nodes_wf n (CombinerState.placed queue) h in
        let new : updates' rid ≡ some (UpdateState.placed op s.tail) =
          insert-here s.local_updates rid (UpdateState.placed op s.tail) in
        let absent = init_not_queued n (CombinerState.placed queue) w.local rid op fresh w.wf in
        let k = keeps n (CombinerState.placed queue) h in
        record {
          matches =
              LogRangeMatchesQueue-push_local n s.log (insert s.log s.tail new_entry)
                s.local_updates updates' (push-Extends new_entry) queue s.tail new_entry rid op
                k.placed (insert-here s.log s.tail new_entry) refl new w.wf.matches;
          unapplied = λ j r le q. elim (get_elem?-pushed queue rid j r q) [
            | inl (e, same) ↦ (op, s.tail, ap updates' same ∙ new)
            | inr old ↦
                let (o, i, g) = w.wf.unapplied j r le old in (o, i, k.placed j r o i le old g)
          ];
          unique = λ i j r q1 q2. elim (get_elem?-pushed queue rid i r q1) [
            | inl (e1, s1) ↦ elim (get_elem?-pushed queue rid j r q2) [
              | inl (e2, s2) ↦ omega arith
              | inr old2 ↦ absurd (absent j (old2 ∙ ap some s1))
            ]
            | inr old1 ↦ elim (get_elem?-pushed queue rid j r q2) [
              | inl (e2, s2) ↦ absurd (absent i (old1 ∙ ap some s2))
              | inr old2 ↦ w.wf.unique i j r old1 old2
            ]
          ];
        }

    pub update_place_ops_in_log_one-Inv : Inv (record s {
      tail = s.tail + 1;
      log = insert s.log s.tail (record { op = op; node_id = n });
      local_updates = insert s.local_updates rid (UpdateState.placed op s.tail);
      combiner = insert s.combiner n (CombinerState.placed (queue ++ rid ∷ []));
    })
    update_place_ops_in_log_one-Inv =
        let w = v.nodes_wf n (CombinerState.placed queue) h in
        let c' = CombinerState.placed (queue ++ rid ∷ []) in
        let log' = insert s.log s.tail new_entry in
        IsNodeStep-Inv s v log' s.version_upper_bound (s.tail + 1) updates' s.local_versions
          s.replicas (insert s.combiner n c') n (CombinerState.placed queue) c'
          (record {
            ext = push-Extends new_entry;
            upper_grows = omega arith;
            tail_grows = omega arith;
            upper_in_log = omega (arith, v.version_in_range);
            full = push_full new_entry;
            ends = push_ends new_entry;
            updates_wf = place_updates_wf;
            before = h;
            after = insert-here s.combiner n c';
            combiner_else = insert-there s.combiner n c';
            local_versions_else = λ m ne. refl;
            replicas_else = λ m ne. refl;
            wf_else = λ m d l ne g.
                WfCombiner-push s.log s.version_upper_bound s.tail s.local_updates updates' m l d
                  (keeps m d g) new_entry (push-Extends new_entry) ne;
            wf_here = record {
              local = w.local;
              has_local = w.has_local;
              local_in_version = w.local_in_version;
              in_log = omega (arith, w.in_log);
              has_state =
                  w.has_state
                  ∙ ap some (
                      sym (
                        nrstate-Extends s.log log' (push-Extends new_entry) w.local
                          (λ i lt. v.log_complete i (omega (arith, w.in_log)))));
              wf = pushed-Pending;
            };
            forward = omega arith;
            distinct = λ m d ne g i j r q1 q2. elim (get_elem?-pushed queue rid i r q1) [
              | inl (e, same) ↦
                  let wd = v.nodes_wf m d g in
                  init_not_queued m d wd.local rid op fresh wd.wf j (q2 ∙ ap some same)
              | inr old ↦ v.rids_distinct n m (CombinerState.placed queue) d ne h g i j r old q2
            ];
          })
