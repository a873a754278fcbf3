-- ===== src/NodeReplication/UnboundedLog/Interp.antt =====
-- spec/unbounded_log_refines_simplelog.rs: the abstract log that an unbounded log stands for.
use verified_nrkernel.Prelude.{
  ℕ, zero, suc, ◌≤◌, ◌<◌, ◌≡◌, ◌≢◌, refl, sym, ◌∙◌, ap, ap₂, Option, none, some, List, [], ◌∷◌,
  ◌++◌, arith, get_elem?, get_elem?-push, length, length-push, ltb, ◌==◌, if◌then◌else◌, ℕ_discrete,
}
use verified_nrkernel.NodeReplication.Dispatch.{NodeId, ReqId, LogIdx, Dispatch}
use verified_nrkernel.NodeReplication.SimpleLog
use verified_nrkernel.NodeReplication.UnboundedLog.{
  LogEntry, ReadonlyState, UpdateState, applied, CombinerState, UnboundedLog,
  compute_nrstate_at_version,
}
use verified_nrkernel.NodeReplication.UnboundedLog.Ranges.{LogContainsEntriesUpToHere, Extends}
use verified_nrkernel.NodeReplication.UnboundedLog.Invariant.{version_at}

-- The version of each replica that there is.
abbrev pub interp_versions :
    ℕ → (NodeId → Option CombinerState) → (NodeId → Option LogIdx) → NodeId → Option LogIdx
interp_versions num_replicas combiner local_versions n =
    if ltb n num_replicas then version_at (combiner n) (local_versions n) else none

module _ {DT : Dispatch} where
  abbrev pub entry_op : Option (LogEntry DT) → List DT.WriteOperation
  entry_op none = []
  entry_op (some e) = e.op ∷ []

  -- The operations of the entries below the tail.
  abbrev pub interp_log : LogIdx → (LogIdx → Option (LogEntry DT)) → List DT.WriteOperation
  interp_log zero log = []
  interp_log (suc n) log = interp_log n log ++ entry_op (log n)

  abbrev pub interp_read : Option (ReadonlyState DT) → Option (SimpleLog.ReadReq DT.ReadOperation)
  interp_read none = none
  interp_read (some (ReadonlyState.init op n)) = some (SimpleLog.init op n)
  interp_read (some (ReadonlyState.version_upper_bound op n idx)) = some (SimpleLog.req idx op n)
  interp_read (some (ReadonlyState.ready_to_read op n idx)) = some (SimpleLog.req idx op n)
  interp_read (some (ReadonlyState.done op n idx ret)) = some (SimpleLog.req idx op n)

  abbrev pub interp_readonly_reqs :
      (ReqId → Option (ReadonlyState DT)) → ReqId → Option (SimpleLog.ReadReq DT.ReadOperation)
  interp_readonly_reqs local_reads rid = interp_read (local_reads rid)

  abbrev pub update_req : Option (UpdateState DT) → Option DT.WriteOperation
  update_req none = none
  update_req (some (UpdateState.init op)) = some op
  update_req (some (UpdateState.placed op idx)) = none
  update_req (some (applied ret idx)) = none
  update_req (some (UpdateState.done ret idx)) = none

  abbrev pub interp_update_reqs :
      (ReqId → Option (UpdateState DT)) → ReqId → Option DT.WriteOperation
  interp_update_reqs local_updates rid = update_req (local_updates rid)

  abbrev pub update_resp : Option (UpdateState DT) → Option LogIdx
  update_resp none = none
  update_resp (some (UpdateState.init op)) = none
  update_resp (some (UpdateState.placed op idx)) = some idx
  update_resp (some (applied ret idx)) = some idx
  update_resp (some (UpdateState.done ret idx)) = some idx

  abbrev pub interp_update_resps : (ReqId → Option (UpdateState DT)) → ReqId → Option LogIdx
  interp_update_resps local_updates rid = update_resp (local_updates rid)

  abbrev pub interp : UnboundedLog DT → SimpleLog.SimpleLog DT
  interp s = record {
    log = interp_log s.tail s.log;
    num_replicas = s.num_replicas;
    replica_versions = interp_versions s.num_replicas s.combiner s.local_versions;
    version = s.version_upper_bound;
    readonly_reqs = interp_readonly_reqs s.local_reads;
    update_reqs = interp_update_reqs s.local_updates;
    update_resps = interp_update_resps s.local_updates;
  }

  module _ (log : LogIdx → Option (LogEntry DT)) where
    pub length-interp_log :
        (n : LogIdx) → LogContainsEntriesUpToHere log n → length (interp_log n log) ≡ n
    length-interp_log zero full = refl
    length-interp_log (suc n) full =
        let (e, h) = full n (omega arith) in
        let ih = length-interp_log n (λ i lt. full i (omega arith)) in
        ap (λ o. length (interp_log n log ++ entry_op o)) h
        ∙ length-push (interp_log n log) e.op
        ∙ omega (arith, ih)

    pub get_elem?-interp_log :
        (n : LogIdx) (i : ℕ) (e : LogEntry DT)
        → LogContainsEntriesUpToHere log n
        → i < n
        → log i ≡ some e
        → get_elem? (interp_log n log) i ≡ some e.op
    get_elem?-interp_log zero i e full lt h = absurd (omega arith)
    get_elem?-interp_log (suc n) i e full lt h =
        let (x, hx) = full n (omega arith) in
        let below : LogContainsEntriesUpToHere log n = λ k l. full k (omega arith) in
        let len = length-interp_log n below in
        let pushed =
          ap (λ o. get_elem? (interp_log n log ++ entry_op o) i) hx
          ∙ get_elem?-push (interp_log n log) x.op i in
        elim (ℕ_discrete i n) [
          | yes same ↦
              let q : some x ≡ some e = sym hx ∙ ap log (sym same) ∙ h in
              pushed ∙ at_last x (omega (arith, len)) ∙ ap (λ o. op_of o) q
          | no differ ↦
              pushed
              ∙ before x (λ k. differ (omega (arith, len)))
              ∙ get_elem?-interp_log n i e below (omega arith) h
        ]
      where
        op_of : Option (LogEntry DT) → Option DT.WriteOperation
        op_of none = none
        op_of (some y) = some y.op

        at_last :
            (x : LogEntry DT)
            → i ≡ length (interp_log n log)
            → (if i == length (interp_log n log) then some x.op else get_elem? (interp_log n log) i)
              ≡ some x.op
        at_last x k = ground arith

        before :
            (x : LogEntry DT)
            → i ≢ length (interp_log n log)
            → (if i == length (interp_log n log) then some x.op else get_elem? (interp_log n log) i)
              ≡ get_elem? (interp_log n log) i
        before x k = ground arith

    pub interp_log-Extends :
        (log' : LogIdx → Option (LogEntry DT)) (n : LogIdx)
        → Extends log log'
        → LogContainsEntriesUpToHere log n
        → interp_log n log' ≡ interp_log n log
    interp_log-Extends log' zero ext full = refl
    interp_log-Extends log' (suc n) ext full =
        let (e, h) = full n (omega arith) in
        let ih = interp_log-Extends log' n ext (λ i lt. full i (omega arith)) in
        ap₂ (λ xs o. xs ++ entry_op o) ih (ext n e h ∙ sym h)

    -- The state at a version is the same in the abstract log.
    pub nrstate-interp_log :
        (n v : LogIdx)
        → LogContainsEntriesUpToHere log n
        → v ≤ n
        → SimpleLog.compute_nrstate_at_version DT (interp_log n log) v
          ≡ compute_nrstate_at_version DT log v
    nrstate-interp_log n zero full le = refl
    nrstate-interp_log n (suc v) full le =
        let (e, h) = full v (omega arith) in
        let ih = nrstate-interp_log n v full (omega arith) in
        rw (get_elem?-interp_log n v e full (omega arith) h, h, ih)
