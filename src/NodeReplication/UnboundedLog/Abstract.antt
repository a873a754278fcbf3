-- ===== src/NodeReplication/UnboundedLog/Abstract.antt =====
-- spec/unbounded_log_refines_simplelog.rs: what the invariants say of the abstract log that a state
-- stands for.
use verified_nrkernel.Prelude.{
  ◌≤◌, ◌<◌, ◌≡◌, inl, inr, sym, ◌∙◌, ap, ap₂, subst, none, some, Option-cases, is_some, length,
  insert, lt→ltb, ltb→lt, if◌then◌else◌,
}
use verified_nrkernel.NodeReplication.Dispatch.{NodeId, LogIdx, Dispatch, AsyncLabel}
use verified_nrkernel.NodeReplication.SimpleLog
use verified_nrkernel.NodeReplication.UnboundedLog.{
  CombinerState, current_local_version, UnboundedLog, compute_nrstate_at_version,
}
use verified_nrkernel.NodeReplication.UnboundedLog.Invariant.{version_at, Inv}
use verified_nrkernel.NodeReplication.UnboundedLog.Interp.{
  interp, length-interp_log, nrstate-interp_log,
}
use verified_nrkernel.NodeReplication.UnboundedLog.Mapped.{versions-same}

module _ {DT : Dispatch} (s : UnboundedLog DT) (v : Inv s) where
  -- A node that is there has a number below that of the replicas.
  pub node_lt : (n : NodeId) (c : CombinerState) → s.combiner n ≡ some c → n < s.num_replicas
  node_lt n c h = ltb→lt n s.num_replicas (sym (v.combiner_complete n) ∙ ap is_some h)

  -- The version of the replica of a node that is there.
  pub version_here :
      (n : NodeId) (c : CombinerState) (h : s.combiner n ≡ some c)
      → (interp s).replica_versions n ≡ some (current_local_version c (v.nodes_wf n c h).local)
  version_here n c h =
      let w = v.nodes_wf n c h in
      ap₂ (λ b x. if b then x else none) (lt→ltb n s.num_replicas (node_lt n c h))
        (ap₂ version_at h w.has_local)

  pub node_there :
      (n : NodeId) (now : LogIdx)
      → version_at (s.combiner n) (s.local_versions n) ≡ some now
      → (c : CombinerState) × (s.combiner n ≡ some c)
  node_there n now h = elim (Option-cases (s.combiner n)) [
    | inl e ↦ absurd (cc (sym (ap (λ x. version_at x (s.local_versions n)) e) ∙ h))
    | inr found ↦ found
  ]

  pub node_below : (n : NodeId) → n < s.num_replicas → (c : CombinerState) × (s.combiner n ≡ some c)
  node_below n lt = elim (Option-cases (s.combiner n)) [
    | inl e ↦ absurd (cc (sym (ap is_some e) ∙ v.combiner_complete n ∙ lt→ltb n s.num_replicas lt))
    | inr found ↦ found
  ]

  -- The combiner of a node goes on at the same version.
  pub same_versions :
      (n : NodeId) (c c' : CombinerState) (h : s.combiner n ≡ some c)
      → (let local = (v.nodes_wf n c h).local in
          current_local_version c' local ≡ current_local_version c local)
      → interp s ≡ interp (record s { combiner = insert s.combiner n c' })
  same_versions n c c' h e =
      ap (λ m. record (interp s) { replica_versions = m })
        (sym (
          versions-same s.num_replicas s.combiner s.local_versions n c c' (v.nodes_wf n c h).local h
            (v.nodes_wf n c h).has_local e))

  pub length_log : length (interp s).log ≡ s.tail
  length_log = length-interp_log s.log s.tail v.log_complete

  -- The state at a version in the log.
  pub nrstate_here :
      (k : LogIdx)
      → k ≤ s.tail
      → SimpleLog.nrstate_at_version DT (interp s) k ≡ compute_nrstate_at_version DT s.log k
  nrstate_here k le = nrstate-interp_log s.log s.tail k v.log_complete le

  -- A step of the abstract log to what the state stands for.
  pub arrive :
      {label : AsyncLabel DT} {x : SimpleLog.SimpleLog DT} (t : UnboundedLog DT)
      → SimpleLog.Step DT (interp s) label x
      → x ≡ interp t
      → SimpleLog.Step DT (interp s) label (interp t)
  arrive {label} t st e = subst (λ y. SimpleLog.Step DT (interp s) label y) e st
