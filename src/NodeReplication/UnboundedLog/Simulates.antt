-- ===== src/NodeReplication/UnboundedLog/Simulates.antt =====
-- spec/unbounded_log_refines_simplelog.rs: the steps of the unbounded log that need more than a change
-- of one map, as steps of the abstract log.
use verified_nrkernel.Prelude.{
  suc, ◌+◌, ◌≤◌, ◌<◌, ◌≡◌, refl, sym, ◌∙◌, ap, ap₂, Option, none, some, List, [], ◌∷◌, ◌++◌, arith,
  length, get_elem?, insert, remove, lt→ltb, leb, if◌then◌else◌,
}
use mathlib.Core.Option.{some-injective}
use verified_nrkernel.NodeReplication.Dispatch.{
  NodeId, ReqId, LogIdx, Dispatch, AsyncLabel, OutputOperation, internal, end,
}
use verified_nrkernel.NodeReplication.SimpleLog
use verified_nrkernel.NodeReplication.UnboundedLog.{
  LogEntry, ReadonlyState, UpdateState, applied, CombinerState, ready, loop, updated_version,
  UnboundedLog,
}
use verified_nrkernel.NodeReplication.UnboundedLog.Ranges.{matches_local}
use verified_nrkernel.NodeReplication.UnboundedLog.Invariant.{Inv}
use verified_nrkernel.NodeReplication.UnboundedLog.Combiner.{insert-here}
use verified_nrkernel.NodeReplication.UnboundedLog.Place.{push-Extends}
use verified_nrkernel.NodeReplication.UnboundedLog.Interp.{
  entry_op, interp_log, interp_read, update_req, update_resp, interp_versions, interp,
  get_elem?-interp_log, interp_log-Extends,
}
use verified_nrkernel.NodeReplication.UnboundedLog.Mapped.{
  mapped-insert, mapped-insert_removes, mapped-insert_same, mapped-remove, mapped-remove_same,
  versions-same, versions-publish, versions-insert,
}
use verified_nrkernel.NodeReplication.UnboundedLog.Abstract.{
  node_lt, version_here, node_there, length_log, nrstate_here, arrive,
}

module _ {DT : Dispatch} (s : UnboundedLog DT) (v : Inv s) {label : AsyncLabel DT} where
  pub refine_consume_stub_read :
      (rid : ReqId) (op : DT.ReadOperation) (n : NodeId) (upper : LogIdx) (ret : DT.Response)
      → label ≡ end rid (OutputOperation.read ret)
      → s.local_reads rid ≡ some (ReadonlyState.done op n upper ret)
      → SimpleLog.Step DT
          (interp s)
          label
          (interp (record s { local_reads = remove s.local_reads rid }))
  refine_consume_stub_read rid op n upper ret e h =
      let (x, from, to, now, at, le, answer) =
        v.read_results rid (ReadonlyState.done op n upper ret) h in
      let (c, there) = node_there s v n now at in
      let version : (interp s).replica_versions n ≡ some now =
        ap₂ (λ b y. if b then y else none) (lt→ltb n s.num_replicas (node_lt s v n c there)) at in
      arrive s v (record s { local_reads = remove s.local_reads rid })
        (SimpleLog.readonly_finish rid x upper now n op ret e (ap interp_read h) version le from
          (omega (arith, length_log s v, v.version_in_range)) to
          (answer
            ∙ ap (λ state. DT.dispatch_spec state op)
                (sym (nrstate_here s v x (omega (arith, v.version_in_range))))))
        (ap (λ m. record (interp s) { readonly_reqs = m })
          (sym (mapped-remove interp_read s.local_reads rid refl)))

  pub refine_consume_stub_write :
      (rid : ReqId) (ret : DT.Response) (idx : LogIdx)
      → label ≡ end rid (OutputOperation.write ret)
      → s.local_updates rid ≡ some (UpdateState.done ret idx)
      → SimpleLog.Step DT
          (interp s)
          label
          (interp (record s { local_updates = remove s.local_updates rid }))
  refine_consume_stub_write rid ret idx e h =
      let (entry, at, lt, answer) = v.updates_wf rid (UpdateState.done ret idx) h in
      arrive s v (record s { local_updates = remove s.local_updates rid })
        (SimpleLog.update_finish rid idx entry.op ret e (ap update_resp h) lt
          (omega (arith, length_log s v, v.version_in_range))
          (get_elem?-interp_log s.log s.tail idx entry v.log_complete
            (omega (arith, v.version_in_range)) at)
          (answer
            ∙ ap (λ state. (DT.dispatch_mut_spec state entry.op).1)
                (sym (nrstate_here s v idx (omega (arith, v.version_in_range))))))
        (ap₂ (λ m k. record (interp s) { update_resps = m; update_reqs = k })
          (sym (mapped-remove update_resp s.local_updates rid refl))
          (sym (mapped-remove_same update_req s.local_updates rid (sym (ap update_req h)))))

  pub refine_place :
      (n : NodeId) (rid : ReqId) (queue : List ReqId) (op : DT.WriteOperation)
      → label ≡ internal
      → s.combiner n ≡ some (CombinerState.placed queue)
      → s.local_updates rid ≡ some (UpdateState.init op)
      → SimpleLog.Step DT (interp s) label (
          interp (record s {
            tail = s.tail + 1;
            log = insert s.log s.tail (record { op = op; node_id = n });
            local_updates = insert s.local_updates rid (UpdateState.placed op s.tail);
            combiner = insert s.combiner n (CombinerState.placed (queue ++ rid ∷ []));
          }))
  refine_place n rid queue op e h g =
      let entry : LogEntry DT = record { op = op; node_id = n } in
      let c' = CombinerState.placed (queue ++ rid ∷ []) in
      let w = v.nodes_wf n (CombinerState.placed queue) h in
      let x : UpdateState DT = UpdateState.placed op s.tail in
      let bump : suc s.tail ≡ s.tail + 1 = omega arith in
      let pushed : (interp s).log ++ op ∷ [] ≡ interp_log (s.tail + 1) (insert s.log s.tail entry) =
        sym (
          ap₂ (λ xs o. xs ++ entry_op o)
            (interp_log-Extends s.log (insert s.log s.tail entry) s.tail (push-Extends s v entry)
              v.log_complete)
            (insert-here s.log s.tail entry))
        ∙ ap (λ k. interp_log k (insert s.log s.tail entry)) bump in
      let versions =
        versions-same s.num_replicas s.combiner s.local_versions n (CombinerState.placed queue) c'
          w.local h w.has_local refl in
      let reqs = mapped-insert_removes update_req s.local_updates rid x refl in
      let resps =
        mapped-insert update_resp s.local_updates rid x (length (interp s).log)
          (ap some (sym (length_log s v))) in
      arrive s v
        (record s {
          tail = s.tail + 1;
          log = insert s.log s.tail entry;
          local_updates = insert s.local_updates rid x;
          combiner = insert s.combiner n c';
        })
        (SimpleLog.update_add_op_to_log rid op e (ap update_req g))
        (ap₂
            (λ l m. record (interp s) {
              log = l;
              replica_versions = m;
              update_reqs = remove (interp s).update_reqs rid;
              update_resps = insert (interp s).update_resps rid (length (interp s).log);
            })
            pushed (sym versions)
          ∙ ap₂
              (λ k m. record (interp s) {
                log = interp_log (s.tail + 1) (insert s.log s.tail entry);
                replica_versions =
                    interp_versions s.num_replicas (insert s.combiner n c') s.local_versions;
                update_reqs = k;
                update_resps = m;
              })
              (sym reqs) (sym resps))

  -- A combiner applies an entry: its replica goes on by one version.
  refine_apply :
      (n : NodeId) (queue : List ReqId) (lversion idx idx' tail : LogIdx)
      (h : s.combiner n ≡ some (loop queue lversion idx tail))
      → label ≡ internal
      → lversion < tail
      → SimpleLog.Step DT (interp s) label (
          interp
            (record s { combiner = insert s.combiner n (loop queue (lversion + 1) idx' tail) }))
  refine_apply n queue lversion idx idx' tail h e lt =
      let w = v.nodes_wf n (loop queue lversion idx tail) h in
      arrive s v (record s { combiner = insert s.combiner n (loop queue (lversion + 1) idx' tail) })
        (SimpleLog.update_replica_update n lversion (lversion + 1) e
          (node_lt s v n (loop queue lversion idx tail) h)
          (version_here s v n (loop queue lversion idx tail) h) (omega arith)
          (omega (arith, length_log s v, w.wf.last_in_log)))
        (ap (λ m. record (interp s) { replica_versions = m })
          (sym (
            versions-insert s.num_replicas s.combiner s.local_versions n
              (loop queue lversion idx tail) (loop queue (lversion + 1) idx' tail) w.local h
              w.has_local (lversion + 1) (node_lt s v n (loop queue lversion idx tail) h) refl)))

  pub refine_dispatch_remote :
      (n : NodeId) (queue : List ReqId) (lversion idx tail : LogIdx)
      (replicas' : NodeId → Option DT.View)
      → s.combiner n ≡ some (loop queue lversion idx tail)
      → label ≡ internal
      → lversion < tail
      → SimpleLog.Step DT (interp s) label (
          interp (record s {
            replicas = replicas';
            combiner = insert s.combiner n (loop queue (lversion + 1) idx tail);
          }))
  refine_dispatch_remote n queue lversion idx tail replicas' h e lt =
      refine_apply n queue lversion idx idx tail h e lt

  pub refine_dispatch_local :
      (n : NodeId) (queue : List ReqId) (lversion idx tail : LogIdx) (rid : ReqId)
      (entry : LogEntry DT) (ret : DT.Response) (replicas' : NodeId → Option DT.View)
      → s.combiner n ≡ some (loop queue lversion idx tail)
      → get_elem? queue idx ≡ some rid
      → s.log lversion ≡ some entry
      → entry.node_id ≡ n
      → label ≡ internal
      → lversion < tail
      → SimpleLog.Step DT (interp s) label (
          interp (record s {
            local_updates = insert s.local_updates rid (applied ret lversion);
            replicas = replicas';
            combiner = insert s.combiner n (loop queue (lversion + 1) (idx + 1) tail);
          }))
  refine_dispatch_local n queue lversion idx tail rid entry ret replicas' h q at own e lt =
      let w = v.nodes_wf n (loop queue lversion idx tail) h in
      let (r, op, q', placed, m) =
        matches_local n s.log s.local_updates queue tail entry lt at own w.wf.matches in
      let here : s.local_updates rid ≡ some (UpdateState.placed op lversion) =
        ap s.local_updates (some-injective _ _ (sym q ∙ q')) ∙ placed in
      let c' = loop queue (lversion + 1) (idx + 1) tail in
      arrive s v
        (record s {
          local_updates = insert s.local_updates rid (applied ret lversion);
          combiner = insert s.combiner n c';
        })
        (refine_apply n queue lversion idx (idx + 1) tail h e lt)
        (ap₂
          (λ k m. record (interp (record s { combiner = insert s.combiner n c' })) {
            update_reqs = k;
            update_resps = m;
          })
          (sym (
            mapped-insert_same update_req s.local_updates rid (applied ret lversion)
              (sym (ap update_req here))))
          (sym (
            mapped-insert_same update_resp s.local_updates rid (applied ret lversion)
              (sym (ap update_resp here)))))

  pub refine_update_version :
      (n : NodeId) (queue : List ReqId) (lversion idx tail : LogIdx)
      → label ≡ internal
      → s.combiner n ≡ some (loop queue lversion idx tail)
      → lversion ≡ tail
      → SimpleLog.Step DT (interp s) label (
          interp (record s {
            version_upper_bound =
                if leb tail s.version_upper_bound then s.version_upper_bound else tail;
            combiner = insert s.combiner n (updated_version queue tail);
          }))
  refine_update_version n queue lversion idx tail e h at_tail =
      let w = v.nodes_wf n (loop queue lversion idx tail) h in
      let upper' = if leb tail s.version_upper_bound then s.version_upper_bound else tail in
      let grows : s.version_upper_bound ≤ upper' = ground arith in
      let in_log : upper' ≤ s.tail = ground (arith, v.version_in_range, w.wf.last_in_log) in
      arrive s v
        (record s {
          version_upper_bound = upper';
          combiner = insert s.combiner n (updated_version queue tail);
        })
        (SimpleLog.update_incr_version upper' e grows (omega (arith, length_log s v)))
        (ap (λ m. record (interp s) { version = upper'; replica_versions = m })
          (sym (
            versions-same s.num_replicas s.combiner s.local_versions n
              (loop queue lversion idx tail) (updated_version queue tail) w.local h w.has_local
              (sym at_tail))))

  pub refine_finish :
      (n : NodeId) (queue : List ReqId) (tail : LogIdx)
      → label ≡ internal
      → s.combiner n ≡ some (updated_version queue tail)
      → SimpleLog.Step DT (interp s) label (
          interp (record s {
            local_versions = insert s.local_versions n tail;
            combiner = insert s.combiner n ready;
          }))
  refine_finish n queue tail e h =
      let w = v.nodes_wf n (updated_version queue tail) h in
      arrive s v
        (record s {
          local_versions = insert s.local_versions n tail;
          combiner = insert s.combiner n ready;
        })
        (SimpleLog.no_op e)
        (ap (λ m. record (interp s) { replica_versions = m })
          (sym (
            versions-publish s.num_replicas s.combiner s.local_versions n
              (updated_version queue tail) ready w.local h w.has_local tail refl)))
