-- ===== src/NodeReplication/UnboundedLog/Preserved.antt =====
-- spec/unbounded_log.rs: every step keeps the invariants, and what they say of the queue of a
-- combiner that applies the log (`pre_exec_dispatch_local`, `pre_exec_update_version_upper_bound`).
use verified_nrkernel.Prelude.{ℕ, ◌<◌, ◌≡◌, sym, some, List, get_elem?, get_elem?-lt, length}
use verified_nrkernel.NodeReplication.Dispatch.{NodeId, ReqId, LogIdx, Dispatch, AsyncLabel}
use verified_nrkernel.NodeReplication.UnboundedLog.{
  LogEntry, UpdateState, loaded_local_version, loop, UnboundedLog, initialize, ticket, readonly,
  update, Step, add_ticket_read, add_ticket_write, consume_stub_read, consume_stub_write,
  readonly_version_upper_bound, readonly_ready_to_read, readonly_apply, readonly_view_oob,
  update_place_ops_in_log_one, update_done, exec_trivial_start, exec_load_local_version,
  exec_load_global_head, exec_dispatch_local, exec_dispatch_remote, exec_update_version_upper_bound,
  exec_finish, exec_finish_no_change, Run, stop, more,
}
use verified_nrkernel.NodeReplication.UnboundedLog.Ranges.{matches_local, matches_at_end}
use verified_nrkernel.NodeReplication.UnboundedLog.Invariant.{Inv, initialize-Inv}
use verified_nrkernel.NodeReplication.UnboundedLog.Requests.{
  add_ticket_read-Inv, add_ticket_write-Inv, consume_stub_read-Inv, consume_stub_write-Inv,
  readonly_version_upper_bound-Inv, readonly_ready_to_read-Inv, readonly_apply-Inv, update_done-Inv,
}
use verified_nrkernel.NodeReplication.UnboundedLog.Exec.{
  exec_trivial_start-Inv, exec_load_local_version-Inv, exec_load_global_head-Inv,
  exec_finish_no_change-Inv,
}
use verified_nrkernel.NodeReplication.UnboundedLog.Apply.{
  exec_dispatch_local-Inv, exec_dispatch_remote-Inv,
}
use verified_nrkernel.NodeReplication.UnboundedLog.Publish.{
  exec_update_version_upper_bound-Inv, exec_finish-Inv,
}
use verified_nrkernel.NodeReplication.UnboundedLog.Place.{update_place_ops_in_log_one-Inv}

module _ {DT : Dispatch} where
  pub Step-Inv : {s t : UnboundedLog DT} {label : AsyncLabel DT} → Step DT s label t → Inv s → Inv t
  Step-Inv {s} (ticket (add_ticket_read rid op n e h1 h2 h3)) v = add_ticket_read-Inv s v rid op n
  Step-Inv {s} (ticket (add_ticket_write rid op e h1 h2 h3)) v = add_ticket_write-Inv s v rid op h3
  Step-Inv {s} (ticket (consume_stub_read rid op n u ret e h)) v = consume_stub_read-Inv s v rid
  Step-Inv {s} (ticket (consume_stub_write rid ret idx e h)) v =
      consume_stub_write-Inv s v rid ret idx h
  Step-Inv {s} (readonly (readonly_version_upper_bound rid op n e h)) v =
      readonly_version_upper_bound-Inv s v rid op n
  Step-Inv {s} (readonly (readonly_ready_to_read rid op n u l e h1 h2 h3)) v =
      readonly_ready_to_read-Inv s v rid op n u l h1 h2 h3
  Step-Inv {s} (readonly (readonly_apply rid op n u state e h1 h2 h3)) v =
      readonly_apply-Inv s v rid op n u state h1 h2 h3
  Step-Inv (readonly (readonly_view_oob replica res e h1 h2)) v = v
  Step-Inv {s} (update (update_place_ops_in_log_one n rid queue op e h1 h2)) v =
      update_place_ops_in_log_one-Inv s v n rid queue op h1 h2
  Step-Inv {s} (update (update_done rid ret idx e h1 h2)) v = update_done-Inv s v rid ret idx h1 h2
  Step-Inv {s} (update (exec_trivial_start n e h)) v = exec_trivial_start-Inv s v n h
  Step-Inv {s} (update (exec_load_local_version n queue l e h1 h2)) v =
      exec_load_local_version-Inv s v n queue l h1 h2
  Step-Inv {s} (update (exec_load_global_head n queue l e h)) v =
      exec_load_global_head-Inv s v n queue l h
  Step-Inv {s} (update (exec_dispatch_local n queue l idx t state rid u x e h1 h2 h3 h4 h5 h6 h7))
        v =
      exec_dispatch_local-Inv s v n queue l idx t state rid x h1 h2 h3 h5 h6 h7
  Step-Inv {s} (update (exec_dispatch_remote n queue l idx t state x e h1 h2 h3 h4 h5)) v =
      exec_dispatch_remote-Inv s v n queue l idx t state x h1 h2 h3 h4 h5
  Step-Inv {s} (update (exec_update_version_upper_bound n queue l idx t e h1 h2)) v =
      exec_update_version_upper_bound-Inv s v n queue l idx t h1 h2
  Step-Inv {s} (update (exec_finish n queue t l e h1 h2)) v = exec_finish-Inv s v n queue t h1
  Step-Inv {s} (update (exec_finish_no_change n queue l e h1 h2)) v =
      exec_finish_no_change-Inv s v n queue l h1 h2

  pub Run-Inv :
      {s t : UnboundedLog DT} {labels : List (AsyncLabel DT)} → Inv s → Run DT labels s t → Inv t
  Run-Inv v stop = v
  Run-Inv v (more st r) = Run-Inv (Step-Inv st v) r

  -- In every state that a run from an initial state leads to: the published versions are at most the
  -- upper bound, which is at most the tail; the log has an entry at every index below the tail and
  -- none from it on; every replica is the log's state at the version that its node is at; the
  -- requests of a combiner's queue match its entries in the rest of the log that it is to apply, in
  -- order, and no two combiners hold the same request; a read that is done has the answer of a
  -- version that is not below the one that it waited for, and an update that is applied the answer
  -- of its entry.
  pub unbounded_log-Inv :
      (n : ℕ) {s : UnboundedLog DT} {labels : List (AsyncLabel DT)}
      → Run DT labels (initialize DT n) s
      → Inv s
  unbounded_log-Inv n r = Run-Inv (initialize-Inv n) r

  module _ (n : ℕ) {s : UnboundedLog DT} {labels : List (AsyncLabel DT)}
      (run : Run DT labels (initialize DT n) s) (node_id : NodeId) (queue : List ReqId)
      (lversion idx tail : LogIdx)
      (here : s.combiner node_id ≡ some (loop queue lversion idx tail)) where
    -- When a combiner comes to an entry of its own node, its queue is not used up, and the request
    -- at its index is the one that waits for this entry: it can be dispatched and answered.
    pub dispatch_local_ready :
        (e : LogEntry DT)
        → s.log lversion ≡ some e
        → e.node_id ≡ node_id
        → lversion < tail
        → (rid : ReqId) × (op : DT.WriteOperation) × (idx < length queue)
          × (get_elem? queue idx ≡ some rid)
          × (s.local_updates rid ≡ some (UpdateState.placed op lversion))
    dispatch_local_ready e entry own lt =
        let w = (unbounded_log-Inv n run).nodes_wf node_id (loop queue lversion idx tail) here in
        let (rid, op, q, placed, m) =
          matches_local node_id s.log s.local_updates queue tail e lt entry own w.wf.matches in
        (rid, op, get_elem?-lt queue idx q, q, placed)

    -- When a combiner has applied the log up to the tail that it read, it has answered its whole
    -- queue.
    pub queue_used_up : lversion ≡ tail → idx ≡ length queue
    queue_used_up end =
        let w = (unbounded_log-Inv n run).nodes_wf node_id (loop queue lversion idx tail) here in
        matches_at_end node_id s.log s.local_updates queue tail end w.wf.matches

  -- A combiner that finds nothing new in the log holds no request (the assertion of
  -- `exec_finish_no_change`).
  pub no_change_no_requests :
      (n : ℕ) {s : UnboundedLog DT} {labels : List (AsyncLabel DT)} (node_id : NodeId)
      (queue : List ReqId) (lversion : LogIdx)
      → Run DT labels (initialize DT n) s
      → s.combiner node_id ≡ some (loaded_local_version queue lversion)
      → lversion ≡ s.tail
      → length queue ≡ 0
  no_change_no_requests n {s} node_id queue lversion run here end =
      let w =
        (unbounded_log-Inv n run).nodes_wf node_id (loaded_local_version queue lversion) here in
      sym (matches_at_end node_id s.log s.local_updates queue s.tail end w.wf.1.matches)
