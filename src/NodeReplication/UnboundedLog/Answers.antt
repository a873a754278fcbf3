-- ===== src/NodeReplication/UnboundedLog/Answers.antt =====
-- spec/unbounded_log.rs: what the answers that clients get from the unbounded log say of the order of
-- the operations, from the theorems on the abstract log of spec/simple_log.rs.
mod Tests
use mathlib.Core.Option.{some-injective}
use verified_nrkernel.Prelude.{
  ℕ, ◌≤◌, ◌<◌, ◌≡◌, refl, sym, ◌∙◌, ap, none, some, Option, List, ◌++◌, arith, get_elem?,
  get_elem?-lt, remove,
}
use verified_nrkernel.NodeReplication.Dispatch.{
  Dispatch, NodeId, ReqId, LogIdx, AsyncLabel, OutputOperation, end,
}
use verified_nrkernel.NodeReplication.SimpleLog
use verified_nrkernel.NodeReplication.SimpleLog.Prefix.{Run-IsPrefix, nrstate-IsPrefix}
use verified_nrkernel.NodeReplication.SimpleLog.Answers.{
  Read, Updated, update_answer_settled, read_sees_update,
}
use verified_nrkernel.NodeReplication.UnboundedLog.{
  ReadonlyState, UpdateState, UnboundedLog, initialize, ticket, consume_stub_read,
  consume_stub_write, compute_nrstate_at_version, Step, Run, more,
}
use verified_nrkernel.NodeReplication.UnboundedLog.Invariant.{Inv}
use verified_nrkernel.NodeReplication.UnboundedLog.Preserved.{unbounded_log-Inv, Step-Inv, Run-Inv}
use verified_nrkernel.NodeReplication.UnboundedLog.Interp.{interp, interp_read, update_resp}
use verified_nrkernel.NodeReplication.UnboundedLog.Abstract.{nrstate_here}
use verified_nrkernel.NodeReplication.UnboundedLog.Refinement.{
  step_refines, Run-from_Inv, unbounded_log_refines,
}

module _ {R : Type 0} where
  -- The operation of a read that is under way.
  op_of : Option (SimpleLog.ReadReq R) → Option R
  op_of none = none
  op_of (some (SimpleLog.init op n)) = some op
  op_of (some (SimpleLog.req v op n)) = some op

module _ {DT : Dispatch} where
  Run-append :
      {s t u : SimpleLog.SimpleLog DT} {first rest : List (AsyncLabel DT)}
      → SimpleLog.Run DT first s t
      → SimpleLog.Run DT rest t u
      → SimpleLog.Run DT (first ++ rest) s u
  Run-append SimpleLog.done q = q
  Run-append (SimpleLog.more st r) q = SimpleLog.more st (Run-append r q)

  -- From a state with an update's answer at the index `k`, in a run that leads to `u`: the answer is
  -- that of the entry `k` in the log of `u`.
  update_answer_later :
      (s u : UnboundedLog DT) {labels : List (AsyncLabel DT)} (k : LogIdx) (e : DT.WriteOperation)
      (wret : DT.Response)
      → Inv u
      → SimpleLog.Run DT labels (interp s) (interp u)
      → k ≤ u.tail
      → get_elem? (interp s).log k ≡ some e
      → wret ≡ (DT.dispatch_mut_spec (SimpleLog.nrstate_at_version DT (interp s) k) e).1
      → (get_elem? (interp u).log k ≡ some e)
        × (wret ≡ (DT.dispatch_mut_spec (compute_nrstate_at_version DT u.log k) e).1)
  update_answer_later s u k e wret vu run le here settled =
      let p = Run-IsPrefix DT run in
      let lt = get_elem?-lt (interp s).log k here in
      let state =
        sym (nrstate-IsPrefix DT (interp s).log (interp u).log k p (omega arith))
        ∙ nrstate_here u vu k le in
      (p k e here, settled ∙ ap (λ x. (DT.dispatch_mut_spec x e).1) state)

  -- In a run of the unbounded log from an initial state, let an update be answered, a read begin after
  -- that, and the read be ready with its answer in `u`. Then both answers are those of the log of `u`:
  -- the update's is what its entry makes of the state before it, and the read's is what the read sees
  -- in a version within the log that includes that entry.
  pub read_after_update :
      (n : ℕ) {s t u : UnboundedLog DT} {before between during : List (AsyncLabel DT)}
      (wid rid : ReqId) (k upper : LogIdx) (wret ret : DT.Response) (op : DT.ReadOperation)
      (node_id : NodeId)
      → Run DT before (initialize DT n) s
      → s.local_updates wid ≡ some (UpdateState.done wret k)
      → Run DT between (record s { local_updates = remove s.local_updates wid }) t
      → t.local_reads rid ≡ none
      → Run DT during t u
      → u.local_reads rid ≡ some (ReadonlyState.done op node_id upper ret)
      → (version : LogIdx) × (k < version)
        × (version ≤ u.tail)
        × (ret ≡ DT.dispatch_spec (compute_nrstate_at_version DT u.log version) op)
        × ((e : DT.WriteOperation) × (get_elem? (interp u).log k ≡ some e)
            × (wret ≡ (DT.dispatch_mut_spec (compute_nrstate_at_version DT u.log k) e).1))
  unfolding op_of
  read_after_update n {s} {t} {u} wid rid k upper wret ret op node_id r0 h r1 none_yet r2 g =
      let v = unbounded_log-Inv n r0 in
      let w : Step DT s (end wid (OutputOperation.write wret)) _ =
        ticket (consume_stub_write wid wret k refl h) in
      let v1 = Step-Inv w v in
      let vt = Run-Inv v1 r1 in
      let vu = Run-Inv vt r2 in
      let fin : Step DT u (end rid (OutputOperation.read ret)) _ =
        ticket (consume_stub_read rid op node_id upper ret refl g) in
      let (f, lt) =
        read_sees_update DT wid rid k wret ret (ap update_resp h) (step_refines w v)
          (Run-from_Inv v1 r1) (ap interp_read none_yet) (Run-from_Inv vt r2)
          (step_refines fin vu) in
      let same : f.op ≡ op = some-injective _ _ (ap op_of (sym f.here ∙ ap interp_read g)) in
      let le : f.version ≤ u.tail = omega (arith, f.in_version, vu.version_in_range) in
      let (e, here, settled) =
        update_answer_settled DT n wid k wret (unbounded_log_refines n r0) (ap update_resp h)
          SimpleLog.done (ap update_resp h) (step_refines w v) in
      let abstract_run =
        Run-append (SimpleLog.more (step_refines w v) (Run-from_Inv v1 r1)) (Run-from_Inv vt r2) in
      let (there, kept) =
        update_answer_later s u k e wret vu abstract_run (omega arith) here settled in
      (
        f.version,
        lt,
        le,
        f.answer
            ∙ ap (λ x. DT.dispatch_spec x f.op) (nrstate_here u vu f.version le)
            ∙ ap (λ o. DT.dispatch_spec (compute_nrstate_at_version DT u.log f.version) o) same,
        (e, there, kept),
      )
