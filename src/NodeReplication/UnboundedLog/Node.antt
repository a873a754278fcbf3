-- ===== src/NodeReplication/UnboundedLog/Node.antt =====
-- spec/unbounded_log.rs: what is enough for a step of one node to keep the invariants: the node
-- itself is well-formed afterwards, the other combiners stay so, and versions only grow.
use verified_nrkernel.Prelude.{
  zero, suc, ◌≤◌, ◌≡◌, ◌≢◌, refl, sym, ◌∙◌, ap, ap₂, subst, Option, some, arith, get_elem?, is_some,
  ltb, ℕ_discrete,
}
use mathlib.Core.Option.{some-injective}
use verified_nrkernel.NodeReplication.Dispatch.{NodeId, ReqId, LogIdx, Dispatch}
use verified_nrkernel.NodeReplication.UnboundedLog.{
  LogEntry, ReadonlyState, UpdateState, applied, CombinerState, queued_ops, current_local_version,
  UnboundedLog, compute_nrstate_at_version,
}
use verified_nrkernel.NodeReplication.UnboundedLog.Ranges.{
  LogContainsEntriesUpToHere, LogNoEntriesFromHere, Extends, SeqDisjoint,
}
use verified_nrkernel.NodeReplication.UnboundedLog.Invariant.{
  version_at, WfReadstate, ReadResultsMatch, WfUpdate, WfCombiner, WfNode, Inv,
}

-- Every node keeps its version or goes on to a later one.
abbrev pub Grows : (versions versions' : NodeId → Option LogIdx) → Type 0
Grows versions versions' =
    (n : NodeId) (v : LogIdx)
    → versions n ≡ some v
    → (v' : LogIdx) × (versions' n ≡ some v') × (v ≤ v')

module _ {DT : Dispatch} where
  -- A longer log has the same state at a version that the log reaches.
  pub nrstate-Extends :
      (log log' : LogIdx → Option (LogEntry DT))
      → Extends log log'
      → (v : LogIdx) → LogContainsEntriesUpToHere log v
      → compute_nrstate_at_version DT log' v ≡ compute_nrstate_at_version DT log v
  nrstate-Extends log log' ext zero full = refl
  nrstate-Extends log log' ext (suc n) full =
      let (e, h) = full n (omega arith) in
      let ih = nrstate-Extends log log' ext n (λ i lt. full i (omega arith)) in
      rw (h, ext n e h, ih)

  module _ (log log' : LogIdx → Option (LogEntry DT)) (upper upper' tail tail' : LogIdx)
      (ext : Extends log log') (le : upper ≤ upper') (longer : tail ≤ tail')
      (full : LogContainsEntriesUpToHere log tail) (below : upper ≤ tail) where
    same_state :
        (v : LogIdx)
        → v ≤ tail
        → compute_nrstate_at_version DT log' v ≡ compute_nrstate_at_version DT log v
    same_state v h = nrstate-Extends log log' ext v (λ i lt. full i (omega arith))

    module _ (versions versions' : NodeId → Option LogIdx) (grow : Grows versions versions') where
      pub WfReadstate-Grows :
          (r : ReadonlyState DT)
          → WfReadstate log upper versions r
          → WfReadstate log' upper' versions' r
      WfReadstate-Grows (ReadonlyState.init op n) w = w
      WfReadstate-Grows (ReadonlyState.version_upper_bound op n v) w = omega arith
      WfReadstate-Grows (ReadonlyState.ready_to_read op n v) (h, now, at, h2) =
          let (now', at', more) = grow n now at in (omega arith, now', at', omega arith)
      WfReadstate-Grows (ReadonlyState.done op n v ret) (h, now, at, h2) =
          let (now', at', more) = grow n now at in (omega arith, now', at', omega arith)

      pub ReadResultsMatch-Grows :
          (r : ReadonlyState DT)
          → ReadResultsMatch log upper versions r
          → ReadResultsMatch log' upper' versions' r
      ReadResultsMatch-Grows (ReadonlyState.init op n) w = w
      ReadResultsMatch-Grows (ReadonlyState.version_upper_bound op n v) w = w
      ReadResultsMatch-Grows (ReadonlyState.ready_to_read op n v) w = w
      ReadResultsMatch-Grows (ReadonlyState.done op n v ret) (x, h1, h2, now, at, h3, answer) =
          let (now', at', more) = grow n now at in
          (
            x,
            h1,
            omega arith,
            now',
            at',
            omega arith,
            answer ∙ ap (λ state. DT.dispatch_spec state op) (sym (same_state x (omega arith))),
          )

    answer_kept :
        (ret : DT.Response) (idx : LogIdx) (e : LogEntry DT)
        → idx ≤ tail
        → ret ≡ (DT.dispatch_mut_spec (compute_nrstate_at_version DT log idx) e.op).1
        → ret ≡ (DT.dispatch_mut_spec (compute_nrstate_at_version DT log' idx) e.op).1
    answer_kept ret idx e h answer =
        answer ∙ ap (λ state. (DT.dispatch_mut_spec state e.op).1) (sym (same_state idx h))

    pub WfUpdate-Extends :
        (u : UpdateState DT) → WfUpdate log upper tail u → WfUpdate log' upper' tail' u
    WfUpdate-Extends (UpdateState.init op) w = w
    WfUpdate-Extends (UpdateState.placed op idx) (e, h, lt) = (e, ext idx e h, omega arith)
    WfUpdate-Extends (applied ret idx) (e, h, lt, answer) =
        (e, ext idx e h, omega arith, answer_kept ret idx e (omega arith) answer)
    WfUpdate-Extends (UpdateState.done ret idx) (e, h, lt, answer) =
        (e, ext idx e h, omega arith, answer_kept ret idx e (omega arith) answer)

  module _ (s : UnboundedLog DT) (v : Inv s) where
    module _ (log' : LogIdx → Option (LogEntry DT)) (upper' tail' : LogIdx)
        (updates' : ReqId → Option (UpdateState DT)) (local_versions' : NodeId → Option LogIdx)
        (replicas' : NodeId → Option DT.View) (combiner' : NodeId → Option CombinerState)
        (n : NodeId) (c c' : CombinerState) where
      pub record IsNodeStep : Type 0 where
        pub ext : Extends s.log log'
        pub upper_grows : s.version_upper_bound ≤ upper'
        pub tail_grows : s.tail ≤ tail'
        pub upper_in_log : upper' ≤ tail'
        pub full : LogContainsEntriesUpToHere log' tail'
        pub ends : LogNoEntriesFromHere log' tail'
        pub updates_wf :
            (rid : ReqId) (u : UpdateState DT)
            → updates' rid ≡ some u
            → WfUpdate log' upper' tail' u
        pub before : s.combiner n ≡ some c
        pub after : combiner' n ≡ some c'
        pub combiner_else : (m : NodeId) → n ≢ m → combiner' m ≡ s.combiner m
        pub local_versions_else : (m : NodeId) → n ≢ m → local_versions' m ≡ s.local_versions m
        pub replicas_else : (m : NodeId) → n ≢ m → replicas' m ≡ s.replicas m
        pub wf_else :
            (m : NodeId) (d : CombinerState) (local : LogIdx)
            → n ≢ m
            → s.combiner m ≡ some d
            → WfCombiner s.log s.version_upper_bound s.tail s.local_updates m local d
            → WfCombiner log' upper' tail' updates' m local d
        pub wf_here : WfNode log' upper' tail' updates' local_versions' replicas' n c'
        pub forward :
            current_local_version c (v.nodes_wf n c before).local
            ≤ current_local_version c' wf_here.local
        pub distinct :
            (m : NodeId) (d : CombinerState)
            → n ≢ m
            → s.combiner m ≡ some d
            → SeqDisjoint (queued_ops c') (queued_ops d)

      module _ (st : IsNodeStep) where
        versions_grow :
            Grows
              (λ m. version_at (s.combiner m) (s.local_versions m))
              (λ m. version_at (combiner' m) (local_versions' m))
        versions_grow m x h = elim (ℕ_discrete n m) [
          | yes e ↦
              let w = v.nodes_wf n c st.before in
              let old : x ≡ current_local_version c w.local = some-injective _ _ (
                sym h
                ∙ ap (λ k. version_at (s.combiner k) (s.local_versions k)) (sym e)
                ∙ ap₂ version_at st.before w.has_local) in
              (
                current_local_version c' st.wf_here.local,
                ap (λ k. version_at (combiner' k) (local_versions' k)) (sym e)
                    ∙ ap₂ version_at st.after st.wf_here.has_local,
                omega (arith, st.forward),
              )
          | no ne ↦ (
            x,
            ap₂ version_at (st.combiner_else m ne) (st.local_versions_else m ne) ∙ h,
            omega arith,
          )
        ]

        -- A node that is there before and after, in a map that is the same elsewhere.
        complete :
            {A : Type 0} (old new : NodeId → Option A) (a b : A)
            → ((m : NodeId) → is_some (old m) ≡ ltb m s.num_replicas)
            → old n ≡ some a
            → new n ≡ some b
            → ((m : NodeId) → n ≢ m → new m ≡ old m)
            → (m : NodeId) → is_some (new m) ≡ ltb m s.num_replicas
        complete old new a b all h h' elsewhere m = elim (ℕ_discrete n m) [
          | yes e ↦
              ap (λ k. is_some (new k)) (sym e)
              ∙ ap is_some h'
              ∙ sym (ap is_some h)
              ∙ all n
              ∙ ap (λ k. ltb k s.num_replicas) e
          | no ne ↦ ap is_some (elsewhere m ne) ∙ all m
        ]

        node_wf :
            (m : NodeId) (d : CombinerState)
            → combiner' m ≡ some d
            → WfNode log' upper' tail' updates' local_versions' replicas' m d
        node_wf m d h = elim (ℕ_discrete n m) [
          | yes e ↦
              let same : c' ≡ d = some-injective _ _ (sym st.after ∙ ap combiner' e ∙ h) in
              subst (λ k. WfNode log' upper' tail' updates' local_versions' replicas' k d) e
                (subst (λ x. WfNode log' upper' tail' updates' local_versions' replicas' n x) same
                  st.wf_here)
          | no ne ↦
              let h0 = sym (st.combiner_else m ne) ∙ h in
              let w = v.nodes_wf m d h0 in
              let state =
                nrstate-Extends s.log log' st.ext (current_local_version d w.local)
                  (λ i lt. v.log_complete i (omega (arith, w.in_log))) in
              record {
                local = w.local;
                has_local = st.local_versions_else m ne ∙ w.has_local;
                local_in_version = omega (arith, w.local_in_version, st.upper_grows);
                in_log = omega (arith, w.in_log, st.tail_grows);
                has_state = st.replicas_else m ne ∙ w.has_state ∙ ap some (sym state);
                wf = st.wf_else m d w.local ne h0 w.wf;
              }
        ]

        distinct_here :
            (k : NodeId) (e : CombinerState)
            → n ≢ k
            → combiner' k ≡ some e
            → SeqDisjoint (queued_ops c') (queued_ops e)
        distinct_here k e ne g = st.distinct k e ne (sym (st.combiner_else k ne) ∙ g)

        distinct_after :
            (m k : NodeId) (d e : CombinerState)
            → m ≢ k
            → combiner' m ≡ some d
            → combiner' k ≡ some e
            → SeqDisjoint (queued_ops d) (queued_ops e)
        distinct_after m k d e ne h g = elim (ℕ_discrete n m) [
          | yes at ↦
              let same : c' ≡ d = some-injective _ _ (sym st.after ∙ ap combiner' at ∙ h) in
              subst (λ x. SeqDisjoint (queued_ops x) (queued_ops e)) same
                (distinct_here k e (λ x. ne (sym at ∙ x)) g)
          | no off ↦ elim (ℕ_discrete n k) [
            | yes at ↦
                let same : c' ≡ e = some-injective _ _ (sym st.after ∙ ap combiner' at ∙ g) in
                λ i j rid q r.
                  distinct_here m d off h j i rid (ap (λ x. get_elem? (queued_ops x) j) same ∙ r) q
            | no away ↦
                v.rids_distinct m k d e ne (sym (st.combiner_else m off) ∙ h)
                  (sym (st.combiner_else k away) ∙ g)
          ]
        ]

        pub IsNodeStep-Inv : Inv (record s {
          log = log';
          version_upper_bound = upper';
          tail = tail';
          local_updates = updates';
          local_versions = local_versions';
          replicas = replicas';
          combiner = combiner';
        })
        IsNodeStep-Inv =
            let w = v.nodes_wf n c st.before in
            record {
              combiner_complete =
                  complete s.combiner combiner' c c' v.combiner_complete st.before st.after
                    st.combiner_else;
              local_versions_complete =
                  complete s.local_versions local_versions' w.local st.wf_here.local
                    v.local_versions_complete w.has_local st.wf_here.has_local
                    st.local_versions_else;
              replicas_complete =
                  complete s.replicas replicas' _ _ v.replicas_complete w.has_state
                    st.wf_here.has_state st.replicas_else;
              version_in_range = st.upper_in_log;
              log_complete = st.full;
              log_ends = st.ends;
              reads_wf = λ rid r h.
                  WfReadstate-Grows s.log log' s.version_upper_bound upper' s.tail tail' st.ext
                    st.upper_grows st.tail_grows v.log_complete v.version_in_range _ _ versions_grow
                    r (v.reads_wf rid r h);
              read_results = λ rid r h.
                  ReadResultsMatch-Grows s.log log' s.version_upper_bound upper' s.tail tail' st.ext
                    st.upper_grows st.tail_grows v.log_complete v.version_in_range _ _ versions_grow
                    r (v.read_results rid r h);
              updates_wf = st.updates_wf;
              nodes_wf = node_wf;
              rids_distinct = distinct_after;
            }
