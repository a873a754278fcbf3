-- ===== src/NodeReplication/SimpleLog.antt =====
-- verified-node-replication/verified-node-replication/src/spec/simple_log.rs: the abstract log that
-- node replication implements. The log holds the updates, and the state of the data structure at a
-- version is what the updates below it make of the initial one.
--
-- A transition carries its label and what it requires of it. Where the source indexes a map at a key
-- whose presence it does not require (the version of a reader's replica), the key is required here.
pub mod Prefix
pub mod Invariant
pub mod Answers
pub mod Tests
use verified_nrkernel.Prelude.{
  ℕ, zero, suc, ◌≤◌, ◌<◌, ◌≡◌, Option, none, some, List, [], ◌∷◌, ◌++◌, length, get_elem?, insert,
  remove, empty_map, new_map,
}
use verified_nrkernel.NodeReplication.Dispatch.{
  NodeId, ReqId, LogIdx, Dispatch, InputOperation, OutputOperation, AsyncLabel, internal, start,
  end,
}

pub data ReadReq (R : Type 0) : Type 0 where
  init : R → NodeId → ReadReq R
  req : LogIdx → R → NodeId → ReadReq R

module _ (DT : Dispatch) where
  pub record SimpleLog : Type 0 where
    pub log : List DT.WriteOperation
    pub num_replicas : ℕ
    pub replica_versions : NodeId → Option LogIdx
    pub version : LogIdx
    pub readonly_reqs : ReqId → Option (ReadReq DT.ReadOperation)
    pub update_reqs : ReqId → Option DT.WriteOperation
    pub update_resps : ReqId → Option LogIdx

  abbrev pub initialize : ℕ → SimpleLog
  initialize num_replicas = record {
    log = [];
    num_replicas = num_replicas;
    replica_versions = new_map num_replicas 0;
    version = 0;
    readonly_reqs = empty_map;
    update_reqs = empty_map;
    update_resps = empty_map;
  }

  -- An update that is not in the log has no effect. (The source gives it no meaning.)
  abbrev pub apply_update : Option DT.WriteOperation → DT.View → DT.View
  apply_update none v = v
  apply_update (some op) v = (DT.dispatch_mut_spec v op).0

  abbrev pub compute_nrstate_at_version : List DT.WriteOperation → LogIdx → DT.View
  compute_nrstate_at_version log zero = DT.init_spec
  compute_nrstate_at_version log (suc n) =
      apply_update (get_elem? log n) (compute_nrstate_at_version log n)

  abbrev pub nrstate_at_version : SimpleLog → LogIdx → DT.View
  nrstate_at_version s version = compute_nrstate_at_version s.log version

  pub data Step (s : SimpleLog) (label : AsyncLabel DT) : SimpleLog → Type 0 where
    readonly_start :
        (rid : ReqId) (node_id : NodeId) (op : DT.ReadOperation)
        → label ≡ start rid (InputOperation.read op node_id)
        → s.readonly_reqs rid ≡ none
        → s.update_reqs rid ≡ none
        → s.update_resps rid ≡ none
        → Step s label (record s { readonly_reqs = insert s.readonly_reqs rid (init op node_id) })
    readonly_read_version :
        (rid : ReqId) (node_id : NodeId) (op : DT.ReadOperation)
        → label ≡ internal
        → s.readonly_reqs rid ≡ some (init op node_id)
        → Step s label
            (record s { readonly_reqs = insert s.readonly_reqs rid (req s.version op node_id) })
    readonly_finish :
        (rid : ReqId) (version current replica_version : LogIdx) (node_id : NodeId)
        (op : DT.ReadOperation) (ret : DT.Response)
        → label ≡ end rid (OutputOperation.read ret)
        → s.readonly_reqs rid ≡ some (req current op node_id)
        → s.replica_versions node_id ≡ some replica_version
        → version ≤ replica_version
        → current ≤ version
        → version ≤ length s.log
        → version ≤ s.version
        → ret ≡ DT.dispatch_spec (nrstate_at_version s version) op
        → Step s label (record s { readonly_reqs = remove s.readonly_reqs rid })
    readonly_view_oob :
        (replica : NodeId) (replica_version : LogIdx) (res : DT.View)
        → label ≡ internal
        → replica < s.num_replicas
        → s.replica_versions replica ≡ some replica_version
        → res ≡ nrstate_at_version s replica_version
        → Step s label s
    update_start :
        (rid : ReqId) (op : DT.WriteOperation)
        → label ≡ start rid (InputOperation.write op)
        → s.readonly_reqs rid ≡ none
        → s.update_reqs rid ≡ none
        → s.update_resps rid ≡ none
        → Step s label (record s { update_reqs = insert s.update_reqs rid op })
    update_add_op_to_log :
        (rid : ReqId) (op : DT.WriteOperation)
        → label ≡ internal
        → s.update_reqs rid ≡ some op
        → Step s label (record s {
          log = s.log ++ op ∷ [];
          update_reqs = remove s.update_reqs rid;
          update_resps = insert s.update_resps rid (length s.log);
        })
    update_incr_version :
        (new_version : LogIdx)
        → label ≡ internal
        → s.version ≤ new_version
        → new_version ≤ length s.log
        → Step s label (record s { version = new_version })
    update_finish :
        (rid : ReqId) (uidx : LogIdx) (op : DT.WriteOperation) (ret : DT.Response)
        → label ≡ end rid (OutputOperation.write ret)
        → s.update_resps rid ≡ some uidx
        → uidx < s.version
        → s.version ≤ length s.log
        → get_elem? s.log uidx ≡ some op
        → ret ≡ (DT.dispatch_mut_spec (nrstate_at_version s uidx) op).1
        → Step s label (record s { update_resps = remove s.update_resps rid })
    update_replica_update :
        (node_id : NodeId) (old_version new_version : LogIdx)
        → label ≡ internal
        → node_id < s.num_replicas
        → s.replica_versions node_id ≡ some old_version
        → old_version < new_version
        → new_version ≤ length s.log
        → Step s label
            (record s { replica_versions = insert s.replica_versions node_id new_version })
    no_op : label ≡ internal → Step s label s

  -- Runs, with the labels of their steps in order.
  pub data Run : List (AsyncLabel DT) → SimpleLog → SimpleLog → Type 0 where
    done : {s : SimpleLog} → Run [] s s
    more :
        {s t u : SimpleLog} {label : AsyncLabel DT} {labels : List (AsyncLabel DT)}
        → Step s label t
        → Run labels t u
        → Run (label ∷ labels) s u
