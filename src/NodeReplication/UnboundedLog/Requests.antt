-- ===== src/NodeReplication/UnboundedLog/Requests.antt =====
-- spec/unbounded_log.rs: the steps of one request keep the invariants of the unbounded log.
use verified_nrkernel.Prelude.{
  ◌≤◌, ◌<◌, ◌≡◌, inl, inr, refl, sym, ◌∙◌, ap, ap₂, subst, Option, some, arith, Option-cases,
  is_some, insert, insert-cases, remove, remove-some,
}
use mathlib.Core.Option.{some-injective}
use verified_nrkernel.NodeReplication.Dispatch.{NodeId, ReqId, LogIdx, Dispatch}
use verified_nrkernel.NodeReplication.UnboundedLog.{
  ReadonlyState, UpdateState, applied, CombinerState, ready, loaded_local_version, loop,
  updated_version, queued_ops, current_local_version, UnboundedLog, compute_nrstate_at_version,
  IsFreshRequest,
}
use verified_nrkernel.NodeReplication.UnboundedLog.Invariant.{
  version_at, WfReadstate, ReadResultsMatch, WfUpdate, WfCombiner, Inv,
}
use verified_nrkernel.NodeReplication.UnboundedLog.Combiner.{
  Keeps, insert-Keeps, answer-Keeps, remove-Keeps, WfCombiner-Keeps,
}

module _ {DT : Dispatch} (s : UnboundedLog DT) (v : Inv s) where
  -- The two invariants of a read.
  ReadOk : ReadonlyState DT → Type 0
  ReadOk r =
      WfReadstate s.log s.version_upper_bound (λ n. version_at (s.combiner n) (s.local_versions n))
        r
      × ReadResultsMatch s.log s.version_upper_bound
          (λ n. version_at (s.combiner n) (s.local_versions n)) r

  -- The reads may become any that are well-formed.
  reads_change :
      (reads' : ReqId → Option (ReadonlyState DT))
      → ((rid : ReqId) (r : ReadonlyState DT) → reads' rid ≡ some r → ReadOk r)
      → Inv (record s { local_reads = reads' })
  unfolding ReadOk
  reads_change reads' f = record {
    combiner_complete = v.combiner_complete;
    local_versions_complete = v.local_versions_complete;
    replicas_complete = v.replicas_complete;
    version_in_range = v.version_in_range;
    log_complete = v.log_complete;
    log_ends = v.log_ends;
    reads_wf = λ rid r h. (f rid r h).0;
    read_results = λ rid r h. (f rid r h).1;
    updates_wf = v.updates_wf;
    nodes_wf = v.nodes_wf;
    rids_distinct = v.rids_distinct;
  }

  insert_read-Inv :
      (rid : ReqId) (r : ReadonlyState DT)
      → ReadOk r
      → Inv (record s { local_reads = insert s.local_reads rid r })
  unfolding ReadOk
  insert_read-Inv rid r w = reads_change (insert s.local_reads rid r) (λ k x h.
      elim (insert-cases s.local_reads rid r k x h) [
        | inl (e, same) ↦ subst ReadOk same w
        | inr (ne, old) ↦ (v.reads_wf k x old, v.read_results k x old)
      ])

  pub add_ticket_read-Inv :
      (rid : ReqId) (op : DT.ReadOperation) (node_id : NodeId)
      → Inv (record s { local_reads = insert s.local_reads rid (ReadonlyState.init op node_id) })
  unfolding ReadOk
  add_ticket_read-Inv rid op node_id = insert_read-Inv rid (ReadonlyState.init op node_id) (tt, tt)

  pub consume_stub_read-Inv :
      (rid : ReqId) → Inv (record s { local_reads = remove s.local_reads rid })
  unfolding ReadOk
  consume_stub_read-Inv rid = reads_change (remove s.local_reads rid) (λ k x h.
      let old = (remove-some s.local_reads rid k x h).1 in
      (v.reads_wf k x old, v.read_results k x old))

  pub readonly_version_upper_bound-Inv :
      (rid : ReqId) (op : DT.ReadOperation) (node_id : NodeId)
      → Inv (record s {
        local_reads =
            insert s.local_reads rid
              (ReadonlyState.version_upper_bound op node_id s.version_upper_bound);
      })
  unfolding ReadOk
  readonly_version_upper_bound-Inv rid op node_id =
      insert_read-Inv rid (ReadonlyState.version_upper_bound op node_id s.version_upper_bound)
        (omega arith, tt)

  -- A node with a published version is there, and its replica is at that version or a later one.
  published :
      (n : NodeId) (local : LogIdx)
      → s.local_versions n ≡ some local
      → (now : LogIdx) × (version_at (s.combiner n) (s.local_versions n) ≡ some now) × (local ≤ now)
  published n local h = elim (Option-cases (s.combiner n)) [
    | inl none_here ↦
        let complete : is_some (s.combiner n) ≡ is_some (s.local_versions n) =
          v.combiner_complete n ∙ sym (v.local_versions_complete n) in
        absurd (cc (sym (ap is_some none_here) ∙ complete ∙ ap is_some h))
    | inr (c, here) ↦
        let w = v.nodes_wf n c here in
        let same : w.local ≡ local = some-injective _ _ (sym w.has_local ∙ h) in
        (
          current_local_version c w.local,
          ap₂ version_at here w.has_local,
          omega (arith, local_behind c w.local w.wf),
        )
  ]
    where
      local_behind :
          (c : CombinerState) (l : LogIdx)
          → WfCombiner s.log s.version_upper_bound s.tail s.local_updates n l c
          → l ≤ current_local_version c l
      local_behind ready l w = omega arith
      local_behind (CombinerState.placed queue) l w = omega arith
      local_behind (loaded_local_version queue lversion) l (e, w) = omega arith
      local_behind (loop queue lversion idx last) l w = w.from_local
      local_behind (updated_version queue last) l w = w.from_local

  pub readonly_ready_to_read-Inv :
      (rid : ReqId) (op : DT.ReadOperation) (node_id : NodeId) (upper local_head : LogIdx)
      → s.local_reads rid ≡ some (ReadonlyState.version_upper_bound op node_id upper)
      → s.local_versions node_id ≡ some local_head
      → upper ≤ local_head
      → Inv (record s {
        local_reads = insert s.local_reads rid (ReadonlyState.ready_to_read op node_id upper);
      })
  unfolding ReadOk
  readonly_ready_to_read-Inv rid op node_id upper local_head h g le =
      let bound = v.reads_wf rid (ReadonlyState.version_upper_bound op node_id upper) h in
      let (now, at, later) = published node_id local_head g in
      insert_read-Inv rid (ReadonlyState.ready_to_read op node_id upper)
        ((bound, now, at, omega arith), tt)

  pub readonly_apply-Inv :
      (rid : ReqId) (op : DT.ReadOperation) (node_id : NodeId) (upper : LogIdx) (state : DT.View)
      → s.local_reads rid ≡ some (ReadonlyState.ready_to_read op node_id upper)
      → s.combiner node_id ≡ some ready
      → s.replicas node_id ≡ some state
      → Inv (record s {
        local_reads =
            insert s.local_reads rid
              (ReadonlyState.done op node_id upper (DT.dispatch_spec state op));
      })
  unfolding ReadOk
  readonly_apply-Inv rid op node_id upper state h g rep =
      let (bound, now, at, le) = v.reads_wf rid (ReadonlyState.ready_to_read op node_id upper) h in
      let w = v.nodes_wf node_id ready g in
      let same : now ≡ w.local = some-injective _ _ (sym at ∙ ap₂ version_at g w.has_local) in
      let view : state ≡ compute_nrstate_at_version DT s.log w.local =
        some-injective _ _ (sym rep ∙ w.has_state) in
      insert_read-Inv rid (ReadonlyState.done op node_id upper (DT.dispatch_spec state op)) (
        (bound, now, at, le),
        (
          w.local,
          omega arith,
          w.local_in_version,
          now,
          at,
          omega arith,
          ap (λ x. DT.dispatch_spec x op) view,
        ),
      )

  -- The updates may change to any that are well-formed and keep what the combiners hold.
  updates_change :
      (updates' : ReqId → Option (UpdateState DT))
      → ((rid : ReqId) (u : UpdateState DT)
          → updates' rid ≡ some u
          → WfUpdate s.log s.version_upper_bound s.tail u)
      → ((n : NodeId) (c : CombinerState)
          → s.combiner n ≡ some c
          → Keeps (queued_ops c) s.local_updates updates')
      → Inv (record s { local_updates = updates' })
  updates_change updates' f k = record {
    combiner_complete = v.combiner_complete;
    local_versions_complete = v.local_versions_complete;
    replicas_complete = v.replicas_complete;
    version_in_range = v.version_in_range;
    log_complete = v.log_complete;
    log_ends = v.log_ends;
    reads_wf = v.reads_wf;
    read_results = v.read_results;
    updates_wf = f;
    nodes_wf = λ n c h.
        let w = v.nodes_wf n c h in
        record {
          local = w.local;
          has_local = w.has_local;
          local_in_version = w.local_in_version;
          in_log = w.in_log;
          has_state = w.has_state;
          wf =
              WfCombiner-Keeps s.log s.version_upper_bound s.tail s.local_updates updates' n w.local
                c (k n c h) s.version_upper_bound (omega arith) w.wf;
        };
    rids_distinct = v.rids_distinct;
  }

  pub inserted_update :
      (rid : ReqId) (x : UpdateState DT)
      → WfUpdate s.log s.version_upper_bound s.tail x
      → (k : ReqId) (u : UpdateState DT) → insert s.local_updates rid x k ≡ some u
      → WfUpdate s.log s.version_upper_bound s.tail u
  inserted_update rid x w k u h = elim (insert-cases s.local_updates rid x k u h) [
    | inl (e, same) ↦ subst (λ y. WfUpdate s.log s.version_upper_bound s.tail y) same w
    | inr (ne, old) ↦ v.updates_wf k u old
  ]

  pub add_ticket_write-Inv :
      (rid : ReqId) (op : DT.WriteOperation)
      → IsFreshRequest s.combiner rid
      → Inv (record s { local_updates = insert s.local_updates rid (UpdateState.init op) })
  add_ticket_write-Inv rid op fresh =
      updates_change (insert s.local_updates rid (UpdateState.init op))
        (inserted_update rid (UpdateState.init op) tt)
        (λ n c h.
          insert-Keeps (queued_ops c) s.local_updates rid (UpdateState.init op)
            (λ j. fresh n c j h))

  pub consume_stub_write-Inv :
      (rid : ReqId) (ret : DT.Response) (idx : LogIdx)
      → s.local_updates rid ≡ some (UpdateState.done ret idx)
      → Inv (record s { local_updates = remove s.local_updates rid })
  consume_stub_write-Inv rid ret idx h =
      updates_change (remove s.local_updates rid)
        (λ k u g. v.updates_wf k u (remove-some s.local_updates rid k u g).1)
        (λ n c g. remove-Keeps (queued_ops c) s.local_updates rid ret idx h)

  pub update_done-Inv :
      (rid : ReqId) (ret : DT.Response) (idx : LogIdx)
      → s.local_updates rid ≡ some (applied ret idx)
      → idx < s.version_upper_bound
      → Inv (record s { local_updates = insert s.local_updates rid (UpdateState.done ret idx) })
  update_done-Inv rid ret idx h lt =
      let (e, entry, in_log, answer) = v.updates_wf rid (applied ret idx) h in
      updates_change (insert s.local_updates rid (UpdateState.done ret idx))
        (inserted_update rid (UpdateState.done ret idx) (e, entry, lt, answer))
        (λ n c g.
          answer-Keeps (queued_ops c) s.local_updates rid ret idx (UpdateState.done ret idx) h
            (ret, idx, inr refl))
