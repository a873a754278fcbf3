-- ===== src/NodeReplication/UnboundedLog/Invariant.antt =====
-- spec/unbounded_log.rs: the invariants of the unbounded log. A predicate takes the parts of the
-- state that it reads, so that a step that leaves them alone leaves it as it is.
--
-- That the sets of requests are finite is not modelled. `LogContainsEntriesUpToHere` at a combiner's
-- version is left out, since it follows from `inv_log_complete`.
use verified_nrkernel.Prelude.{
  ℕ, ◌≤◌, ◌<◌, ◌≡◌, ◌≢◌, refl, sym, ◌∙◌, ap, Option, none, some, List, arith, length, get_elem?,
  is_some, ltb, is_some-new_map, new_map-eq, new_map_lt, new_map-lt, new_map, empty_map, subst,
}
use verified_nrkernel.NodeReplication.Dispatch.{NodeId, ReqId, LogIdx, Dispatch}
use verified_nrkernel.NodeReplication.UnboundedLog.{
  LogEntry, ReadonlyState, UpdateState, applied, CombinerState, ready, loaded_local_version, loop,
  updated_version, queued_ops, current_local_version, UnboundedLog, initialize,
  compute_nrstate_at_version,
}
use verified_nrkernel.NodeReplication.UnboundedLog.Ranges.{
  LogContainsEntriesUpToHere, LogNoEntriesFromHere, LogRangeNoNodeId, LogRangeMatchesQueue,
  QueueRidsUpdateDone, QueueRidsUpdatePlaced, SeqUnique, SeqDisjoint,
}

-- The version of a node's replica, if the node is there.
abbrev pub version_at : Option CombinerState → Option LogIdx → Option LogIdx
version_at none local = none
version_at (some c) none = none
version_at (some c) (some local) = some (current_local_version c local)

module _ {DT : Dispatch} where
  module _ (log : LogIdx → Option (LogEntry DT)) (upper : LogIdx) where
    module _ (versions : NodeId → Option LogIdx) where
      -- A read that may be made, or has been, sees at least the version it waited for.
      abbrev pub WfReadstate : ReadonlyState DT → Type 0
      WfReadstate (ReadonlyState.init op node_id) = Unit
      WfReadstate (ReadonlyState.version_upper_bound op node_id v) = v ≤ upper
      WfReadstate (ReadonlyState.ready_to_read op node_id v) =
          (v ≤ upper) × (now : LogIdx) × (versions node_id ≡ some now) × (v ≤ now)
      WfReadstate (ReadonlyState.done op node_id v ret) =
          (v ≤ upper) × (now : LogIdx) × (versions node_id ≡ some now) × (v ≤ now)

      abbrev pub ReadResultsMatch : ReadonlyState DT → Type 0
      ReadResultsMatch (ReadonlyState.init op node_id) = Unit
      ReadResultsMatch (ReadonlyState.version_upper_bound op node_id v) = Unit
      ReadResultsMatch (ReadonlyState.ready_to_read op node_id v) = Unit
      ReadResultsMatch (ReadonlyState.done op node_id v ret) =
          (at : LogIdx) × (v ≤ at)
          × (at ≤ upper)
          × (now : LogIdx) × (versions node_id ≡ some now)
          × (at ≤ now)
          × (ret ≡ DT.dispatch_spec (compute_nrstate_at_version DT log at) op)

    module _ (tail : LogIdx) where
      abbrev pub WfUpdate : UpdateState DT → Type 0
      WfUpdate (UpdateState.init op) = Unit
      WfUpdate (UpdateState.placed op idx) = (e : LogEntry DT) × (log idx ≡ some e) × (idx < tail)
      WfUpdate (applied ret idx) =
          (e : LogEntry DT) × (log idx ≡ some e)
          × (idx < tail)
          × (ret ≡ (DT.dispatch_mut_spec (compute_nrstate_at_version DT log idx) e.op).1)
      WfUpdate (UpdateState.done ret idx) =
          (e : LogEntry DT) × (log idx ≡ some e)
          × (idx < upper)
          × (ret ≡ (DT.dispatch_mut_spec (compute_nrstate_at_version DT log idx) e.op).1)

      module _ (updates : ReqId → Option (UpdateState DT)) (node_id : NodeId) (local : LogIdx) where
        -- The queue of a combiner that has not begun to apply the log.
        pub record Pending (queue : List ReqId) (lversion : LogIdx) : Type 0 where
          pub matches : LogRangeMatchesQueue queue log tail node_id updates 0 lversion
          pub unapplied : QueueRidsUpdatePlaced queue updates 0
          pub unique : SeqUnique queue

        pub record WfLoop (queue : List ReqId) (lversion : LogIdx) (idx : ℕ) (last : LogIdx)
            : Type 0 where
          pub last_in_log : last ≤ tail
          pub from_local : local ≤ lversion
          pub not_beyond : lversion ≤ last
          pub idx_in_queue : idx ≤ length queue
          pub matches : LogRangeMatchesQueue queue log last node_id updates idx lversion
          pub rest : LogRangeNoNodeId log last tail node_id
          pub unapplied : QueueRidsUpdatePlaced queue updates idx
          pub answered : QueueRidsUpdateDone queue updates idx
          pub unique : SeqUnique queue

        pub record WfUpdated (queue : List ReqId) (last : LogIdx) : Type 0 where
          pub last_in_version : last ≤ upper
          pub from_local : local ≤ last
          pub rest : LogRangeNoNodeId log last tail node_id
          pub answered : QueueRidsUpdateDone queue updates (length queue)
          pub unique : SeqUnique queue

        abbrev pub WfCombiner : CombinerState → Type 0
        WfCombiner ready = LogRangeNoNodeId log local tail node_id
        WfCombiner (CombinerState.placed queue) = Pending queue local
        WfCombiner (loaded_local_version queue lversion) =
            (lversion ≡ local) × Pending queue lversion
        WfCombiner (loop queue lversion idx last) = WfLoop queue lversion idx last
        WfCombiner (updated_version queue last) = WfUpdated queue last

      -- A node: its published version, its replica, which is the log's state at the version that
      -- it is at, and its combiner.
      pub record WfNode (updates : ReqId → Option (UpdateState DT))
          (local_versions : NodeId → Option LogIdx) (replicas : NodeId → Option DT.View)
          (node_id : NodeId) (c : CombinerState) : Type 0 where
        pub local : LogIdx
        pub has_local : local_versions node_id ≡ some local
        pub local_in_version : local ≤ upper
        pub in_log : current_local_version c local ≤ tail
        pub has_state :
            replicas node_id
            ≡ some (compute_nrstate_at_version DT log (current_local_version c local))
        pub wf : WfCombiner updates node_id local c

  pub record Inv (s : UnboundedLog DT) : Type 0 where
    pub combiner_complete : (n : NodeId) → is_some (s.combiner n) ≡ ltb n s.num_replicas
    pub local_versions_complete : (n : NodeId) → is_some (s.local_versions n) ≡ ltb n s.num_replicas
    pub replicas_complete : (n : NodeId) → is_some (s.replicas n) ≡ ltb n s.num_replicas
    pub version_in_range : s.version_upper_bound ≤ s.tail
    pub log_complete : LogContainsEntriesUpToHere s.log s.tail
    pub log_ends : LogNoEntriesFromHere s.log s.tail
    pub reads_wf :
        (rid : ReqId) (r : ReadonlyState DT)
        → s.local_reads rid ≡ some r
        → WfReadstate s.log s.version_upper_bound
            (λ n. version_at (s.combiner n) (s.local_versions n))
            r
    pub read_results :
        (rid : ReqId) (r : ReadonlyState DT)
        → s.local_reads rid ≡ some r
        → ReadResultsMatch s.log s.version_upper_bound
            (λ n. version_at (s.combiner n) (s.local_versions n))
            r
    pub updates_wf :
        (rid : ReqId) (u : UpdateState DT)
        → s.local_updates rid ≡ some u
        → WfUpdate s.log s.version_upper_bound s.tail u
    pub nodes_wf :
        (n : NodeId) (c : CombinerState)
        → s.combiner n ≡ some c
        → WfNode s.log s.version_upper_bound s.tail s.local_updates s.local_versions s.replicas n c
    pub rids_distinct :
        (n m : NodeId) (c d : CombinerState)
        → n ≢ m
        → s.combiner n ≡ some c
        → s.combiner m ≡ some d
        → SeqDisjoint (queued_ops c) (queued_ops d)

  pub initialize-Inv : (n : ℕ) → Inv (initialize DT n)
  initialize-Inv n = record {
    combiner_complete = is_some-new_map n ready;
    local_versions_complete = is_some-new_map n 0;
    replicas_complete = is_some-new_map n DT.init_spec;
    version_in_range = omega arith;
    log_complete = λ i lt. absurd (omega arith);
    log_ends = λ i le. refl;
    reads_wf = λ rid r h. absurd (cc h);
    read_results = λ rid r h. absurd (cc h);
    updates_wf = λ rid u h. absurd (cc h);
    nodes_wf = λ m c h.
        let e = new_map-eq n ready m h in
        let lt = new_map-lt n ready m h in
        subst (λ x. WfNode empty_map 0 0 empty_map (new_map n 0) (new_map n DT.init_spec) m x)
          (sym e)
          (record {
            local = 0;
            has_local = new_map_lt n 0 m lt;
            local_in_version = omega arith;
            in_log = omega arith;
            has_state = new_map_lt n DT.init_spec m lt;
            wf = λ i le l. absurd (omega arith);
          });
    rids_distinct = λ m k c d ne h g i j rid q.
        let e = new_map-eq n ready m h in
        let none_queued = ap (λ x. get_elem? (queued_ops x) i) e in
        absurd (cc (sym q ∙ none_queued));
  }
