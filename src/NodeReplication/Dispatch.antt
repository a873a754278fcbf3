-- ===== src/NodeReplication/Dispatch.antt =====
-- verified-node-replication/verified-node-replication/src/lib.rs: the data structure that is
-- replicated, as its specification, and the labels of the calls on it.
use verified_nrkernel.Prelude.{ℕ}

abbrev pub NodeId : Type 0
NodeId = ℕ

abbrev pub ReqId : Type 0
ReqId = ℕ

abbrev pub LogIdx : Type 0
LogIdx = ℕ

pub record Dispatch : Type 1 where
  pub ReadOperation : Type 0
  pub WriteOperation : Type 0
  pub Response : Type 0
  pub View : Type 0
  pub init_spec : View
  pub dispatch_spec : View → ReadOperation → Response
  pub dispatch_mut_spec : View → WriteOperation → View × Response

module _ (DT : Dispatch) where
  pub data InputOperation : Type 0 where
    read : DT.ReadOperation → NodeId → InputOperation
    write : DT.WriteOperation → InputOperation

  pub data OutputOperation : Type 0 where
    read : DT.Response → OutputOperation
    write : DT.Response → OutputOperation

  pub data AsyncLabel : Type 0 where
    internal : AsyncLabel
    start : ReqId → InputOperation → AsyncLabel
    end : ReqId → OutputOperation → AsyncLabel
