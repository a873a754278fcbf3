-- ===== src/NodeReplication/SimpleLog/Answers.antt =====
-- spec/simple_log.rs: what the answers to updates and reads say of the order of the operations.
use mathlib.Core.Option.{some-injective}
use verified_nrkernel.Prelude.{
  ℕ, ◌≤◌, ◌<◌, ◌≡◌, refl, sym, ◌∙◌, ap, Option, none, some, List, arith, length, get_elem?,
  get_elem?_total,
}
use verified_nrkernel.NodeReplication.Dispatch.{
  Dispatch, ReqId, LogIdx, NodeId, AsyncLabel, OutputOperation, internal, start, end,
}
use verified_nrkernel.NodeReplication.SimpleLog.{
  SimpleLog, initialize, req, nrstate_at_version, Step, readonly_start, readonly_read_version,
  readonly_finish, readonly_view_oob, update_start, update_add_op_to_log, update_incr_version,
  update_finish, update_replica_update, no_op, Run,
}
use verified_nrkernel.NodeReplication.SimpleLog.Prefix.{Run-IsPrefix, nrstate-IsPrefix}
use verified_nrkernel.NodeReplication.SimpleLog.Invariant.{
  simple_log-Inv, Step-version, Run-version, IsFresh, Run-IsFresh,
}

module _ (DT : Dispatch) where
  -- The answer that a label gives, to an update and to a read.
  write_answer : AsyncLabel DT → Option (ReqId × DT.Response)
  write_answer internal = none
  write_answer (start rid op) = none
  write_answer (end rid (OutputOperation.read ret)) = none
  write_answer (end rid (OutputOperation.write ret)) = some (rid, ret)

  read_answer : AsyncLabel DT → Option (ReqId × DT.Response)
  read_answer internal = none
  read_answer (start rid op) = none
  read_answer (end rid (OutputOperation.read ret)) = some (rid, ret)
  read_answer (end rid (OutputOperation.write ret)) = none

  -- What `update_finish` required.
  pub record Updated (s : SimpleLog DT) (rid : ReqId) (ret : DT.Response) : Type 0 where
    pub uidx : LogIdx
    pub op : DT.WriteOperation
    pub here : s.update_resps rid ≡ some uidx
    pub below : uidx < s.version
    pub entry : get_elem? s.log uidx ≡ some op
    pub answer : ret ≡ (DT.dispatch_mut_spec (nrstate_at_version DT s uidx) op).1

  -- What `readonly_finish` required: the read was recorded at `current` and made at `version`.
  pub record Read (s : SimpleLog DT) (rid : ReqId) (ret : DT.Response) : Type 0 where
    pub current : LogIdx
    pub version : LogIdx
    pub op : DT.ReadOperation
    pub node_id : NodeId
    pub here : s.readonly_reqs rid ≡ some (req current op node_id)
    pub not_before : current ≤ version
    pub in_version : version ≤ s.version
    pub answer : ret ≡ DT.dispatch_spec (nrstate_at_version DT s version) op

  module _ (rid : ReqId) (ret : DT.Response) where
    write_finishes :
        {s t : SimpleLog DT} {label : AsyncLabel DT}
        → Step DT s label t
        → write_answer label ≡ some (rid, ret)
        → Updated s rid ret
    unfolding write_answer
    write_finishes (readonly_start r n op e h1 h2 h3) w = absurd (cc (sym w ∙ ap write_answer e))
    write_finishes (readonly_read_version r n op e h1) w = absurd (cc (sym w ∙ ap write_answer e))
    write_finishes (readonly_finish r x c rv n op q e h1 h2 h3 h4 h5 h6 h7) w =
        absurd (cc (sym w ∙ ap write_answer e))
    write_finishes (readonly_view_oob r rv res e h1 h2 h3) w =
        absurd (cc (sym w ∙ ap write_answer e))
    write_finishes (update_start r op e h1 h2 h3) w = absurd (cc (sym w ∙ ap write_answer e))
    write_finishes (update_add_op_to_log r op e h1) w = absurd (cc (sym w ∙ ap write_answer e))
    write_finishes (update_incr_version n e h1 h2) w = absurd (cc (sym w ∙ ap write_answer e))
    write_finishes {s} (update_finish r u op q e h1 h2 h3 h4 h5) w =
        let k : (r, q) ≡ (rid, ret) = some-injective _ _ (sym (ap write_answer e) ∙ w) in
        record {
          uidx = u;
          op = op;
          here = ap s.update_resps (sym (ap (λ p. p.0) k)) ∙ h1;
          below = h2;
          entry = h4;
          answer = sym (ap (λ p. p.1) k) ∙ h5;
        }
    write_finishes (update_replica_update n o v e h1 h2 h3 h4) w =
        absurd (cc (sym w ∙ ap write_answer e))
    write_finishes (no_op e) w = absurd (cc (sym w ∙ ap write_answer e))

    Read-finishes :
        {s t : SimpleLog DT} {label : AsyncLabel DT}
        → Step DT s label t
        → read_answer label ≡ some (rid, ret)
        → Read s rid ret
    unfolding read_answer
    Read-finishes (readonly_start r n op e h1 h2 h3) w = absurd (cc (sym w ∙ ap read_answer e))
    Read-finishes (readonly_read_version r n op e h1) w = absurd (cc (sym w ∙ ap read_answer e))
    Read-finishes {s} (readonly_finish r x c rv n op q e h1 h2 h3 h4 h5 h6 h7) w =
        let k : (r, q) ≡ (rid, ret) = some-injective _ _ (sym (ap read_answer e) ∙ w) in
        record {
          current = c;
          version = x;
          op = op;
          node_id = n;
          here = ap s.readonly_reqs (sym (ap (λ p. p.0) k)) ∙ h1;
          not_before = h4;
          in_version = h6;
          answer = sym (ap (λ p. p.1) k) ∙ h7;
        }
    Read-finishes (readonly_view_oob r rv res e h1 h2 h3) w = absurd (cc (sym w ∙ ap read_answer e))
    Read-finishes (update_start r op e h1 h2 h3) w = absurd (cc (sym w ∙ ap read_answer e))
    Read-finishes (update_add_op_to_log r op e h1) w = absurd (cc (sym w ∙ ap read_answer e))
    Read-finishes (update_incr_version n e h1 h2) w = absurd (cc (sym w ∙ ap read_answer e))
    Read-finishes (update_finish r u op q e h1 h2 h3 h4 h5) w =
        absurd (cc (sym w ∙ ap read_answer e))
    Read-finishes (update_replica_update n o v e h1 h2 h3 h4) w =
        absurd (cc (sym w ∙ ap read_answer e))
    Read-finishes (no_op e) w = absurd (cc (sym w ∙ ap read_answer e))

  -- In a run from an initial state to `s`, and on to `t`, let the update `rid` be in the log of `s` at
  -- index `k`, and let it be answered from `t` for that index. Then the answer is what the entry `k`
  -- makes of the state at version `k` in the log of `s`, whatever came after.
  pub update_answer_settled :
      (n : ℕ) {s t u : SimpleLog DT} {before after : List (AsyncLabel DT)} (rid : ReqId)
      (k : LogIdx) (ret : DT.Response)
      → Run DT before (initialize DT n) s
      → s.update_resps rid ≡ some k
      → Run DT after s t
      → t.update_resps rid ≡ some k
      → Step DT t (end rid (OutputOperation.write ret)) u
      → (op : DT.WriteOperation) × (get_elem? s.log k ≡ some op)
        × (ret ≡ (DT.dispatch_mut_spec (nrstate_at_version DT s k) op).1)
  unfolding write_answer
  update_answer_settled n {s} {t} rid k ret r h run g st =
      let f = write_finishes rid ret st refl in
      let lt : k < length s.log = (simple_log-Inv DT n r).update_resp_version rid k h in
      let (op, e) = get_elem?_total s.log k lt in
      let same : f.uidx ≡ k = some-injective _ _ (sym f.here ∙ g) in
      let q : op ≡ f.op =
        some-injective _ _
          (sym (Run-IsPrefix DT run k op e) ∙ ap (get_elem? t.log) (sym same) ∙ f.entry) in
      let state : nrstate_at_version DT t k ≡ nrstate_at_version DT s k =
        nrstate-IsPrefix DT s.log t.log k (Run-IsPrefix DT run) (omega arith) in
      (
        op,
        e,
        f.answer
            ∙ ap (λ j. (DT.dispatch_mut_spec (nrstate_at_version DT t j) f.op).1) same
            ∙ ap (λ v. (DT.dispatch_mut_spec v f.op).1) state
            ∙ ap (λ o. (DT.dispatch_mut_spec (nrstate_at_version DT s k) o).1) (sym q),
      )

  -- A read that is not in flight in `t` and answers later was made at a version from that of `t` on.
  later_read :
      {s t u : SimpleLog DT} {labels : List (AsyncLabel DT)} (rid : ReqId) (ret : DT.Response)
      → s.readonly_reqs rid ≡ none
      → Run DT labels s t
      → Step DT t (end rid (OutputOperation.read ret)) u
      → (f : Read t rid ret) × (s.version ≤ f.version)
  unfolding read_answer
  later_read {s} {t} rid ret h run st =
      let f = Read-finishes rid ret st refl in
      let at_start : IsFresh DT s.version rid s =
        (omega arith, λ v op n e. absurd (cc (sym h ∙ e))) in
      let le = (Run-IsFresh DT s.version rid run at_start).1 f.current f.op f.node_id f.here in
      (f, omega (arith, f.not_before))

  -- If an update with the log index `k` is answered before a read begins, the read is made at a
  -- version above `k`, which includes the update.
  pub read_sees_update :
      {s s1 t t1 u : SimpleLog DT} {between during : List (AsyncLabel DT)} (wid rid : ReqId)
      (k : LogIdx) (wret ret : DT.Response)
      → s.update_resps wid ≡ some k
      → Step DT s (end wid (OutputOperation.write wret)) s1
      → Run DT between s1 t
      → t.readonly_reqs rid ≡ none
      → Run DT during t t1
      → Step DT t1 (end rid (OutputOperation.read ret)) u
      → (f : Read t1 rid ret) × (k < f.version)
  unfolding write_answer
  read_sees_update wid rid k wret ret h st run1 none_yet run2 fin =
      let w = write_finishes wid wret st refl in
      let (f, le) = later_read rid ret none_yet run2 fin in
      let same : w.uidx ≡ k = some-injective _ _ (sym w.here ∙ h) in
      (f, omega (arith, w.below, Step-version DT st, Run-version DT run1))

  -- If a read is answered before another begins, the other is made at no earlier version.
  pub reads_in_order :
      {s s1 t t1 u : SimpleLog DT} {between during : List (AsyncLabel DT)} (rid1 rid2 : ReqId)
      (ret1 ret2 : DT.Response)
      → Step DT s (end rid1 (OutputOperation.read ret1)) s1
      → Run DT between s1 t
      → t.readonly_reqs rid2 ≡ none
      → Run DT during t t1
      → Step DT t1 (end rid2 (OutputOperation.read ret2)) u
      → (f1 : Read s rid1 ret1) × (f2 : Read t1 rid2 ret2) × (f1.version ≤ f2.version)
  unfolding read_answer
  reads_in_order rid1 rid2 ret1 ret2 st run1 none_yet run2 fin =
      let f1 = Read-finishes rid1 ret1 st refl in
      let (f2, le) = later_read rid2 ret2 none_yet run2 fin in
      (f1, f2, omega (arith, f1.in_version, Step-version DT st, Run-version DT run1))
