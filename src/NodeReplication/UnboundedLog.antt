-- ===== src/NodeReplication/UnboundedLog.antt =====
-- verified-node-replication/verified-node-replication/src/spec/unbounded_log.rs: the log of node
-- replication before its entries are stored in the cyclic buffer. A reader waits until its replica
-- has reached the version it saw; a combiner places the updates of its node in the log, applies the
-- log to its replica and answers them.
--
-- A transition carries what it requires. `add_ticket` and `consume_stub` of lib.rs are steps too,
-- with their labels; the request that a ticket is for is one that no combiner holds, as
-- `get_fresh_rid` chooses it.
mod Ranges
mod Invariant
mod Combiner
mod Node
mod Requests
mod Exec
mod Apply
mod Publish
mod Place
mod Preserved
mod Interp
mod Mapped
mod Abstract
mod Simulates
mod Refinement
mod Answers
mod Tests
use verified_nrkernel.Prelude.{
  ℕ, zero, suc, ◌+◌, ◌≤◌, ◌<◌, ◌≡◌, ◌≢◌, Option, none, some, List, [], ◌∷◌, ◌++◌, length, get_elem?,
  insert, remove, empty_map, new_map, leb, if◌then◌else◌,
}
use verified_nrkernel.NodeReplication.Dispatch.{
  NodeId, ReqId, LogIdx, Dispatch, InputOperation, OutputOperation, AsyncLabel, internal, start,
  end,
}

module _ (DT : Dispatch) where
  pub record LogEntry : Type 0 where
    pub op : DT.WriteOperation
    pub node_id : NodeId

  pub data ReadonlyState : Type 0 where
    init : DT.ReadOperation → NodeId → ReadonlyState
    version_upper_bound : DT.ReadOperation → NodeId → LogIdx → ReadonlyState
    ready_to_read : DT.ReadOperation → NodeId → LogIdx → ReadonlyState
    done : DT.ReadOperation → NodeId → LogIdx → DT.Response → ReadonlyState

  pub data UpdateState : Type 0 where
    init : DT.WriteOperation → UpdateState
    placed : DT.WriteOperation → LogIdx → UpdateState
    applied : DT.Response → LogIdx → UpdateState
    done : DT.Response → LogIdx → UpdateState

pub data CombinerState : Type 0 where
  ready : CombinerState
  placed : List ReqId → CombinerState
  loaded_local_version : List ReqId → LogIdx → CombinerState
  loop : List ReqId → LogIdx → ℕ → LogIdx → CombinerState
  updated_version : List ReqId → LogIdx → CombinerState

abbrev pub queued_ops : CombinerState → List ReqId
queued_ops ready = []
queued_ops (placed queue) = queue
queued_ops (loaded_local_version queue lversion) = queue
queued_ops (loop queue lversion idx tail) = queue
queued_ops (updated_version queue tail) = queue

-- The version that a replica is at, given the one its node has published.
abbrev pub current_local_version : CombinerState → LogIdx → LogIdx
current_local_version ready local = local
current_local_version (placed queue) local = local
current_local_version (loaded_local_version queue lversion) local = lversion
current_local_version (loop queue lversion idx tail) local = lversion
current_local_version (updated_version queue tail) local = tail

-- No combiner holds the request.
abbrev pub IsFreshRequest : (NodeId → Option CombinerState) → ReqId → Type 0
IsFreshRequest combiner rid =
    (node_id : NodeId) (c : CombinerState) (i : ℕ)
    → combiner node_id ≡ some c
    → get_elem? (queued_ops c) i ≢ some rid

module _ (DT : Dispatch) where
  pub record UnboundedLog : Type 0 where
    pub num_replicas : ℕ
    pub log : LogIdx → Option (LogEntry DT)
    pub tail : LogIdx
    pub replicas : NodeId → Option DT.View
    pub local_versions : NodeId → Option LogIdx
    pub version_upper_bound : LogIdx
    pub local_reads : ReqId → Option (ReadonlyState DT)
    pub local_updates : ReqId → Option (UpdateState DT)
    pub combiner : NodeId → Option CombinerState

  abbrev pub initialize : ℕ → UnboundedLog
  initialize number_of_nodes = record {
    num_replicas = number_of_nodes;
    log = empty_map;
    tail = 0;
    replicas = new_map number_of_nodes DT.init_spec;
    local_versions = new_map number_of_nodes 0;
    version_upper_bound = 0;
    local_reads = empty_map;
    local_updates = empty_map;
    combiner = new_map number_of_nodes ready;
  }

  -- A version at which the log has no entry leaves the state as it is. (The source gives it no
  -- meaning.)
  abbrev pub apply_entry : Option (LogEntry DT) → DT.View → DT.View
  apply_entry none v = v
  apply_entry (some e) v = (DT.dispatch_mut_spec v e.op).0

  abbrev pub compute_nrstate_at_version : (LogIdx → Option (LogEntry DT)) → LogIdx → DT.View
  compute_nrstate_at_version log zero = DT.init_spec
  compute_nrstate_at_version log (suc n) = apply_entry (log n) (compute_nrstate_at_version log n)

  -- A request enters the log, or leaves it with its answer.
  pub data TicketStep (s : UnboundedLog) (label : AsyncLabel DT) : UnboundedLog → Type 0 where
    add_ticket_read :
        (rid : ReqId) (op : DT.ReadOperation) (node_id : NodeId)
        → label ≡ start rid (InputOperation.read op node_id)
        → s.local_reads rid ≡ none
        → s.local_updates rid ≡ none
        → IsFreshRequest s.combiner rid
        → TicketStep s label
            (record s { local_reads = insert s.local_reads rid (ReadonlyState.init op node_id) })
    add_ticket_write :
        (rid : ReqId) (op : DT.WriteOperation)
        → label ≡ start rid (InputOperation.write op)
        → s.local_reads rid ≡ none
        → s.local_updates rid ≡ none
        → IsFreshRequest s.combiner rid
        → TicketStep s label
            (record s { local_updates = insert s.local_updates rid (UpdateState.init op) })
    consume_stub_read :
        (rid : ReqId) (op : DT.ReadOperation) (node_id : NodeId) (upper : LogIdx)
        (ret : DT.Response)
        → label ≡ end rid (OutputOperation.read ret)
        → s.local_reads rid ≡ some (ReadonlyState.done op node_id upper ret)
        → TicketStep s label (record s { local_reads = remove s.local_reads rid })
    consume_stub_write :
        (rid : ReqId) (ret : DT.Response) (idx : LogIdx)
        → label ≡ end rid (OutputOperation.write ret)
        → s.local_updates rid ≡ some (UpdateState.done ret idx)
        → TicketStep s label (record s { local_updates = remove s.local_updates rid })

  -- The steps of a read.
  pub data ReadonlyStep (s : UnboundedLog) (label : AsyncLabel DT) : UnboundedLog → Type 0 where
    readonly_version_upper_bound :
        (rid : ReqId) (op : DT.ReadOperation) (node_id : NodeId)
        → label ≡ internal
        → s.local_reads rid ≡ some (ReadonlyState.init op node_id)
        → ReadonlyStep s label (record s {
          local_reads =
              insert s.local_reads rid
                (ReadonlyState.version_upper_bound op node_id s.version_upper_bound);
        })
    readonly_ready_to_read :
        (rid : ReqId) (op : DT.ReadOperation) (node_id : NodeId) (upper local_head : LogIdx)
        → label ≡ internal
        → s.local_reads rid ≡ some (ReadonlyState.version_upper_bound op node_id upper)
        → s.local_versions node_id ≡ some local_head
        → upper ≤ local_head
        → ReadonlyStep s label (record s {
          local_reads = insert s.local_reads rid (ReadonlyState.ready_to_read op node_id upper);
        })
    readonly_apply :
        (rid : ReqId) (op : DT.ReadOperation) (node_id : NodeId) (upper : LogIdx) (state : DT.View)
        → label ≡ internal
        → s.local_reads rid ≡ some (ReadonlyState.ready_to_read op node_id upper)
        → s.combiner node_id ≡ some ready
        → s.replicas node_id ≡ some state
        → ReadonlyStep s label (record s {
          local_reads =
              insert s.local_reads rid
                (ReadonlyState.done op node_id upper (DT.dispatch_spec state op));
        })
    readonly_view_oob :
        (replica : NodeId) (res : DT.View)
        → label ≡ internal
        → replica < s.num_replicas
        → s.replicas replica ≡ some res
        → ReadonlyStep s label s

  -- The steps of an update and of the combiners.
  pub data UpdateStep (s : UnboundedLog) (label : AsyncLabel DT) : UnboundedLog → Type 0 where
    update_place_ops_in_log_one :
        (node_id : NodeId) (rid : ReqId) (queue : List ReqId) (op : DT.WriteOperation)
        → label ≡ internal
        → s.combiner node_id ≡ some (CombinerState.placed queue)
        → s.local_updates rid ≡ some (UpdateState.init op)
        → UpdateStep s label (record s {
          tail = s.tail + 1;
          log = insert s.log s.tail (record { op = op; node_id = node_id });
          local_updates = insert s.local_updates rid (UpdateState.placed op s.tail);
          combiner = insert s.combiner node_id (CombinerState.placed (queue ++ rid ∷ []));
        })
    update_done :
        (rid : ReqId) (ret : DT.Response) (idx : LogIdx)
        → label ≡ internal
        → s.local_updates rid ≡ some (UpdateState.applied ret idx)
        → idx < s.version_upper_bound
        → UpdateStep s label
            (record s { local_updates = insert s.local_updates rid (UpdateState.done ret idx) })
    exec_trivial_start :
        (node_id : NodeId)
        → label ≡ internal
        → s.combiner node_id ≡ some ready
        → UpdateStep s label
            (record s { combiner = insert s.combiner node_id (CombinerState.placed []) })
    exec_load_local_version :
        (node_id : NodeId) (queue : List ReqId) (lversion : LogIdx)
        → label ≡ internal
        → s.combiner node_id ≡ some (CombinerState.placed queue)
        → s.local_versions node_id ≡ some lversion
        → UpdateStep s label (record s {
          combiner = insert s.combiner node_id (loaded_local_version queue lversion);
        })
    exec_load_global_head :
        (node_id : NodeId) (queue : List ReqId) (lversion : LogIdx)
        → label ≡ internal
        → s.combiner node_id ≡ some (loaded_local_version queue lversion)
        → UpdateStep s label
            (record s { combiner = insert s.combiner node_id (loop queue lversion 0 s.tail) })
    exec_dispatch_local :
        (node_id : NodeId) (queue : List ReqId) (lversion idx tail : LogIdx)
        (old_nr_state : DT.View) (rid : ReqId) (local_update : UpdateState DT)
        (log_entry : LogEntry DT)
        → label ≡ internal
        → s.combiner node_id ≡ some (loop queue lversion idx tail)
        → s.replicas node_id ≡ some old_nr_state
        → get_elem? queue idx ≡ some rid
        → s.local_updates rid ≡ some local_update
        → s.log lversion ≡ some log_entry
        → lversion < tail
        → log_entry.node_id ≡ node_id
        → UpdateStep s label (record s {
          local_updates =
              insert s.local_updates rid
                (applied (DT.dispatch_mut_spec old_nr_state log_entry.op).1 lversion);
          replicas = insert s.replicas node_id (DT.dispatch_mut_spec old_nr_state log_entry.op).0;
          combiner = insert s.combiner node_id (loop queue (lversion + 1) (idx + 1) tail);
        })
    exec_dispatch_remote :
        (node_id : NodeId) (queue : List ReqId) (lversion idx tail : LogIdx)
        (old_nr_state : DT.View) (log_entry : LogEntry DT)
        → label ≡ internal
        → s.combiner node_id ≡ some (loop queue lversion idx tail)
        → s.replicas node_id ≡ some old_nr_state
        → s.log lversion ≡ some log_entry
        → lversion < tail
        → log_entry.node_id ≢ node_id
        → UpdateStep s label (record s {
          replicas = insert s.replicas node_id (DT.dispatch_mut_spec old_nr_state log_entry.op).0;
          combiner = insert s.combiner node_id (loop queue (lversion + 1) idx tail);
        })
    exec_update_version_upper_bound :
        (node_id : NodeId) (queue : List ReqId) (lversion idx tail : LogIdx)
        → label ≡ internal
        → s.combiner node_id ≡ some (loop queue lversion idx tail)
        → lversion ≡ tail
        → UpdateStep s label (record s {
          version_upper_bound =
              if leb tail s.version_upper_bound then s.version_upper_bound else tail;
          combiner = insert s.combiner node_id (updated_version queue tail);
        })
    exec_finish :
        (node_id : NodeId) (queue : List ReqId) (tail old_local_head : LogIdx)
        → label ≡ internal
        → s.combiner node_id ≡ some (updated_version queue tail)
        → s.local_versions node_id ≡ some old_local_head
        → UpdateStep s label (record s {
          local_versions = insert s.local_versions node_id tail;
          combiner = insert s.combiner node_id ready;
        })
    exec_finish_no_change :
        (node_id : NodeId) (queue : List ReqId) (lversion : LogIdx)
        → label ≡ internal
        → s.combiner node_id ≡ some (loaded_local_version queue lversion)
        → lversion ≡ s.tail
        → UpdateStep s label (record s { combiner = insert s.combiner node_id ready })

  pub data Step (s : UnboundedLog) (label : AsyncLabel DT) : UnboundedLog → Type 0 where
    ticket : {t : UnboundedLog} → TicketStep s label t → Step s label t
    readonly : {t : UnboundedLog} → ReadonlyStep s label t → Step s label t
    update : {t : UnboundedLog} → UpdateStep s label t → Step s label t

  -- Runs, with the labels of their steps in order.
  pub data Run : List (AsyncLabel DT) → UnboundedLog → UnboundedLog → Type 0 where
    stop : {s : UnboundedLog} → Run [] s s
    more :
        {s t u : UnboundedLog} {label : AsyncLabel DT} {labels : List (AsyncLabel DT)}
        → Step s label t
        → Run labels t u
        → Run (label ∷ labels) s u
