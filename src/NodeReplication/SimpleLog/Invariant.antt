-- ===== src/NodeReplication/SimpleLog/Invariant.antt =====
-- The invariants of spec/simple_log.rs, and that versions only grow.

use verified_nrkernel.Prelude.{ℕ, ◌≤◌, ◌<◌, ◌≡◌, some, List, arith, length, length-push, new_map-eq}
use verified_nrkernel.NodeReplication.Dispatch.{Dispatch, ReqId, LogIdx, NodeId, AsyncLabel}
use verified_nrkernel.NodeReplication.SimpleLog.{
  SimpleLog, req, initialize, Step, readonly_start, readonly_read_version, readonly_finish,
  readonly_view_oob, update_start, update_add_op_to_log, update_incr_version, update_finish,
  update_replica_update, no_op, Run, done, more,
}

module _ (DT : Dispatch) where
  pub record Inv (s : SimpleLog DT) : Type 0 where
    pub version_in_log : s.version ≤ length s.log
    pub update_resp_version : (rid k : ℕ) → s.update_resps rid ≡ some k → k < length s.log
    pub readonly_req_version :
        (rid : ReqId) (v : LogIdx) (op : DT.ReadOperation) (n : NodeId)
        → s.readonly_reqs rid ≡ some (req v op n)
        → v ≤ s.version
    -- Not an invariant of the source.
    pub replica_in_log : (n v : ℕ) → s.replica_versions n ≡ some v → v ≤ length s.log

  pub initialize-Inv : (n : ℕ) → Inv (initialize DT n)
  initialize-Inv n = record {
    version_in_log = omega arith;
    update_resp_version = λ rid k h. absurd (cc h);
    readonly_req_version = λ rid v op m h. absurd (cc h);
    replica_in_log = λ m v h. let e = new_map-eq n 0 m h in omega arith;
  }

  pub Step-Inv : {s t : SimpleLog DT} {label : AsyncLabel DT} → Step DT s label t → Inv s → Inv t
  Step-Inv (readonly_start rid n op e h1 h2 h3) v = record {
    version_in_log = v.version_in_log;
    update_resp_version = v.update_resp_version;
    readonly_req_version = λ r x o m k. ground (arith, v.readonly_req_version r x o m);
    replica_in_log = v.replica_in_log;
  }
  Step-Inv (readonly_read_version rid n op e h1) v = record {
    version_in_log = v.version_in_log;
    update_resp_version = v.update_resp_version;
    readonly_req_version = λ r x o m k. ground (arith, v.readonly_req_version r x o m);
    replica_in_log = v.replica_in_log;
  }
  Step-Inv (readonly_finish rid x c rv n op ret e h1 h2 h3 h4 h5 h6 h7) v = record {
    version_in_log = v.version_in_log;
    update_resp_version = v.update_resp_version;
    readonly_req_version = λ r x o m k. ground (arith, v.readonly_req_version r x o m);
    replica_in_log = v.replica_in_log;
  }
  Step-Inv (readonly_view_oob r rv res e h1 h2 h3) v = v
  Step-Inv (update_start rid op e h1 h2 h3) v = record {
    version_in_log = v.version_in_log;
    update_resp_version = v.update_resp_version;
    readonly_req_version = v.readonly_req_version;
    replica_in_log = v.replica_in_log;
  }
  Step-Inv {s} (update_add_op_to_log rid op e h1) v = record {
    version_in_log = omega (arith, length-push s.log op, v.version_in_log);
    update_resp_version = λ r k h. ground (arith, length-push s.log op, v.update_resp_version r k);
    readonly_req_version = v.readonly_req_version;
    replica_in_log = λ n x h. omega (arith, length-push s.log op, v.replica_in_log n x h);
  }
  Step-Inv (update_incr_version n e h1 h2) v = record {
    version_in_log = h2;
    update_resp_version = v.update_resp_version;
    readonly_req_version = λ r x o m k. omega (arith, v.readonly_req_version r x o m k);
    replica_in_log = v.replica_in_log;
  }
  Step-Inv (update_finish rid u op ret e h1 h2 h3 h4 h5) v = record {
    version_in_log = v.version_in_log;
    update_resp_version = λ r k h. ground (arith, v.update_resp_version r k);
    readonly_req_version = v.readonly_req_version;
    replica_in_log = v.replica_in_log;
  }
  Step-Inv (update_replica_update n o w e h1 h2 h3 h4) v = record {
    version_in_log = v.version_in_log;
    update_resp_version = v.update_resp_version;
    readonly_req_version = v.readonly_req_version;
    replica_in_log = λ m x h. ground (arith, v.replica_in_log m x);
  }
  Step-Inv (no_op e) v = v

  -- In every state that a run from an initial state leads to, the version is within the log, every
  -- update that awaits its answer is in the log, a read's recorded version is at most the current
  -- one, and no replica is ahead of the log.
  pub simple_log-Inv :
      (n : ℕ) {s : SimpleLog DT} {labels : List (AsyncLabel DT)}
      → Run DT labels (initialize DT n) s
      → Inv s
  simple_log-Inv n r = from (initialize-Inv n) r
    where
      from :
          {s t : SimpleLog DT} {labels : List (AsyncLabel DT)} → Inv s → Run DT labels s t → Inv t
      from v done = v
      from v (more st r) = from (Step-Inv st v) r

  -- A run never lowers the version.
  pub Step-version :
      {s t : SimpleLog DT} {label : AsyncLabel DT} → Step DT s label t → s.version ≤ t.version
  Step-version (readonly_start rid n op e h1 h2 h3) = omega arith
  Step-version (readonly_read_version rid n op e h1) = omega arith
  Step-version (readonly_finish rid x c rv n op ret e h1 h2 h3 h4 h5 h6 h7) = omega arith
  Step-version (readonly_view_oob r rv res e h1 h2 h3) = omega arith
  Step-version (update_start rid op e h1 h2 h3) = omega arith
  Step-version (update_add_op_to_log rid op e h1) = omega arith
  Step-version (update_incr_version n e h1 h2) = h1
  Step-version (update_finish rid u op ret e h1 h2 h3 h4 h5) = omega arith
  Step-version (update_replica_update n o w e h1 h2 h3 h4) = omega arith
  Step-version (no_op e) = omega arith

  pub Run-version :
      {s t : SimpleLog DT} {labels : List (AsyncLabel DT)}
      → Run DT labels s t
      → s.version ≤ t.version
  Run-version done = omega arith
  Run-version (more st r) = omega (arith, Step-version st, Run-version r)

  -- The reads of `rid` are at versions from `v0` on.
  abbrev pub IsFresh : LogIdx → ReqId → SimpleLog DT → Type 0
  IsFresh v0 rid s =
      (v0 ≤ s.version)
      × ((v : LogIdx) (op : DT.ReadOperation) (n : NodeId)
          → s.readonly_reqs rid ≡ some (req v op n)
          → v0 ≤ v)

  Step-IsFresh :
      (v0 : LogIdx) (rid : ReqId) {s t : SimpleLog DT} {label : AsyncLabel DT}
      → Step DT s label t
      → IsFresh v0 rid s
      → IsFresh v0 rid t
  Step-IsFresh v0 r (readonly_start rid n op e h1 h2 h3) f =
      (f.0, λ x o m k. ground (arith, f.1 x o m))
  Step-IsFresh v0 r (readonly_read_version rid n op e h1) f =
      (f.0, λ x o m k. ground (arith, f.1 x o m))
  Step-IsFresh v0 r (readonly_finish rid x c rv n op ret e h1 h2 h3 h4 h5 h6 h7) f =
      (f.0, λ x o m k. ground (arith, f.1 x o m))
  Step-IsFresh v0 r (readonly_view_oob rp rv res e h1 h2 h3) f = f
  Step-IsFresh v0 r (update_start rid op e h1 h2 h3) f = f
  Step-IsFresh v0 r (update_add_op_to_log rid op e h1) f = f
  Step-IsFresh v0 r (update_incr_version n e h1 h2) f = (omega arith, f.1)
  Step-IsFresh v0 r (update_finish rid u op ret e h1 h2 h3 h4 h5) f = f
  Step-IsFresh v0 r (update_replica_update n o w e h1 h2 h3 h4) f = f
  Step-IsFresh v0 r (no_op e) f = f

  pub Run-IsFresh :
      (v0 : LogIdx) (rid : ReqId) {s t : SimpleLog DT} {labels : List (AsyncLabel DT)}
      → Run DT labels s t
      → IsFresh v0 rid s
      → IsFresh v0 rid t
  Run-IsFresh v0 rid done f = f
  Run-IsFresh v0 rid (more st r) f = Run-IsFresh v0 rid r (Step-IsFresh v0 rid st f)
