-- ===== src/NodeReplication/UnboundedLog/Combiner.antt =====
-- spec/unbounded_log.rs: what a combiner's well-formedness withstands: changes of the updates that
-- keep those it holds, a greater upper bound of the versions, and another node's entry in the log.
use verified_nrkernel.Prelude.{
  ℕ, ◌+◌, ◌≤◌, ◌≡◌, ◌≢◌, inl, inr, sym, ◌∙◌, ap, subst, length, Option, some, List, arith,
  get_elem?, insert, insert-cases, remove, remove-some,
}
use verified_nrkernel.NodeReplication.Dispatch.{NodeId, ReqId, LogIdx, Dispatch}
use verified_nrkernel.NodeReplication.UnboundedLog.{
  LogEntry, UpdateState, applied, CombinerState, ready, loaded_local_version, loop, updated_version,
  queued_ops,
}
use verified_nrkernel.NodeReplication.UnboundedLog.Ranges.{
  LogRangeNoNodeId, LogRangeMatchesQueue, IsAppliedOrDone, Extends, KeepsPlaced,
  QueueRidsUpdateDone, QueueRidsUpdatePlaced, LogRangeNoNodeId-push, LogRangeMatchesQueue-mono,
  LogRangeMatchesQueue-push_remote,
}
use verified_nrkernel.NodeReplication.UnboundedLog.Invariant.{WfCombiner}

-- An inserted key, and another one.
module _ {ℓ} {V : Type ℓ} (m : ℕ → Option V) (k : ℕ) (v : V) where
  pub insert-here : insert m k v k ≡ some v
  insert-here = ground arith

  pub insert-there : (j : ℕ) → k ≢ j → insert m k v j ≡ m j
  insert-there j ne = ground arith

module _ {DT : Dispatch} where
  pub record Keeps (queue : List ReqId) (updates updates' : ReqId → Option (UpdateState DT))
      : Type 0 where
    pub placed : KeepsPlaced queue 0 updates updates'
    pub answered :
        (j : ℕ) (rid : ReqId) (u' : UpdateState DT)
        → get_elem? queue j ≡ some rid
        → updates' rid ≡ some u'
        → (u : UpdateState DT) × (updates rid ≡ some u) × (IsAppliedOrDone u → IsAppliedOrDone u')

  pub Keeps-refl :
      (queue : List ReqId) (updates : ReqId → Option (UpdateState DT)) → Keeps queue updates updates
  Keeps-refl queue updates = record {
    placed = λ j rid op idx le h g. g;
    answered = λ j rid u h g. (u, g, λ a. a);
  }

  -- A change of a request that the queue does not hold.
  pub insert-Keeps :
      (queue : List ReqId) (updates : ReqId → Option (UpdateState DT)) (r : ReqId)
      (v : UpdateState DT)
      → ((j : ℕ) → get_elem? queue j ≢ some r)
      → Keeps queue updates (insert updates r v)
  insert-Keeps queue updates r v absent = record {
    placed = λ j rid op idx le h g.
        insert-there updates r v rid (λ e. absent j (h ∙ ap some (sym e))) ∙ g;
    answered = λ j rid u h g.
        let ne : r ≢ rid = λ e. absent j (h ∙ ap some (sym e)) in
        (u, sym (insert-there updates r v rid ne) ∙ g, λ a. a);
  }

  -- A change of an applied request to one that has its answer too.
  pub answer-Keeps :
      (queue : List ReqId) (updates : ReqId → Option (UpdateState DT)) (r : ReqId)
      (ret : DT.Response) (idx : LogIdx) (v : UpdateState DT)
      → updates r ≡ some (applied ret idx)
      → IsAppliedOrDone v
      → Keeps queue updates (insert updates r v)
  answer-Keeps queue updates r ret idx v h a = record {
    placed = λ j rid op i le q g.
        insert-there updates r v rid (λ e. absurd (cc (sym h ∙ ap updates e ∙ g))) ∙ g;
    answered = λ j rid u q g. elim (insert-cases updates r v rid u g) [
      | inl (e, same) ↦ (applied ret idx, ap updates (sym e) ∙ h, λ b. subst IsAppliedOrDone same a)
      | inr (ne, old) ↦ (u, old, λ b. b)
    ];
  }

  -- A request that is not placed leaves.
  pub remove-Keeps :
      (queue : List ReqId) (updates : ReqId → Option (UpdateState DT)) (r : ReqId)
      (ret : DT.Response) (idx : LogIdx)
      → updates r ≡ some (UpdateState.done ret idx)
      → Keeps queue updates (remove updates r)
  remove-Keeps queue updates r ret idx h = record {
    placed = λ j rid op i le q g. kept rid (λ e. absurd (cc (sym h ∙ ap updates e ∙ g))) ∙ g;
    answered = λ j rid u q g. (u, (remove-some updates r rid u g).1, λ b. b);
  }
    where
      kept : (rid : ReqId) → r ≢ rid → remove updates r rid ≡ updates rid
      kept rid ne = ground arith

  module _ {queue : List ReqId} {updates updates' : ReqId → Option (UpdateState DT)}
      (k : Keeps queue updates updates') where
    Placed-Keeps :
        (bound : ℕ)
        → QueueRidsUpdatePlaced queue updates bound
        → QueueRidsUpdatePlaced queue updates' bound
    Placed-Keeps bound p j rid le h =
        let (op, idx, g) = p j rid le h in (op, idx, k.placed j rid op idx (omega arith) h g)

    Done-Keeps :
        (bound : ℕ)
        → QueueRidsUpdateDone queue updates bound
        → QueueRidsUpdateDone queue updates' bound
    Done-Keeps bound d j rid u' lt h g =
        let (u, old, f) = k.answered j rid u' h g in f (d j rid u lt h old)

  module _ (log log' : LogIdx → Option (LogEntry DT)) (upper upper' tail tail' : LogIdx)
      (updates updates' : ReqId → Option (UpdateState DT)) (node_id : NodeId) (local : LogIdx)
      (ext : Extends log log') (le : upper ≤ upper') (grows : tail ≤ tail') where
    -- A combiner stays well-formed when the rest of its range and its queue's match do.
    WfCombiner-change :
        (c : CombinerState)
        → Keeps (queued_ops c) updates updates'
        → ((first : LogIdx)
            → LogRangeNoNodeId log first tail node_id
            → LogRangeNoNodeId log' first tail' node_id)
        → ((lower : LogIdx)
            → LogRangeMatchesQueue (queued_ops c) log tail node_id updates 0 lower
            → LogRangeMatchesQueue (queued_ops c) log' tail' node_id updates' 0 lower)
        → WfCombiner log upper tail updates node_id local c
        → WfCombiner log' upper' tail' updates' node_id local c
    WfCombiner-change ready k rest grow w = rest local w
    WfCombiner-change (CombinerState.placed queue) k rest grow w = record {
      matches = grow local w.matches;
      unapplied = Placed-Keeps k 0 w.unapplied;
      unique = w.unique;
    }
    WfCombiner-change (loaded_local_version queue lversion) k rest grow (e, w) = (
      e,
      record {
        matches = grow lversion w.matches;
        unapplied = Placed-Keeps k 0 w.unapplied;
        unique = w.unique;
      },
    )
    WfCombiner-change (loop queue lversion idx last) k rest grow w = record {
      last_in_log = omega (arith, w.last_in_log);
      from_local = w.from_local;
      not_beyond = w.not_beyond;
      idx_in_queue = w.idx_in_queue;
      matches =
          LogRangeMatchesQueue-mono node_id log log' updates updates' ext queue last
            (λ j rid op i b. k.placed j rid op i (omega arith)) w.matches;
      rest = rest last w.rest;
      unapplied = Placed-Keeps k idx w.unapplied;
      answered = Done-Keeps k idx w.answered;
      unique = w.unique;
    }
    WfCombiner-change (updated_version queue last) k rest grow w = record {
      last_in_version = omega (arith, w.last_in_version);
      from_local = w.from_local;
      rest = rest last w.rest;
      answered = Done-Keeps k (length queue) w.answered;
      unique = w.unique;
    }

  module _ (log : LogIdx → Option (LogEntry DT)) (upper tail : LogIdx)
      (updates updates' : ReqId → Option (UpdateState DT)) (node_id : NodeId) (local : LogIdx)
      (c : CombinerState) (k : Keeps (queued_ops c) updates updates') where
    -- The same log.
    pub WfCombiner-Keeps :
        (upper' : LogIdx)
        → upper ≤ upper'
        → WfCombiner log upper tail updates node_id local c
        → WfCombiner log upper' tail updates' node_id local c
    WfCombiner-Keeps upper' le =
        WfCombiner-change log log upper upper' tail tail updates updates' node_id local same le
          (omega arith) c k (λ first r. r)
          (λ lower m.
            LogRangeMatchesQueue-mono node_id log log updates updates' same (queued_ops c) tail
              k.placed m)
      where
        same : Extends log log
        same i e h = h

    -- Another node's entry at the tail.
    pub WfCombiner-push :
        (e : LogEntry DT)
        → Extends log (insert log tail e)
        → e.node_id ≢ node_id
        → WfCombiner log upper tail updates node_id local c
        → WfCombiner (insert log tail e) upper (tail + 1) updates' node_id local c
    WfCombiner-push e ext ne =
        WfCombiner-change log (insert log tail e) upper upper tail (tail + 1) updates updates'
          node_id local ext (omega arith) (omega arith) c k
          (λ first.
            LogRangeNoNodeId-push node_id log (insert log tail e) updates updates' ext first tail e
              (insert-here log tail e) ne)
          (λ lower.
            LogRangeMatchesQueue-push_remote node_id log (insert log tail e) updates updates' ext
              (queued_ops c) tail e k.placed (insert-here log tail e) ne)
