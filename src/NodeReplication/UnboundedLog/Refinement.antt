-- ===== src/NodeReplication/UnboundedLog/Refinement.antt =====
-- spec/unbounded_log_refines_simplelog.rs: every step of the unbounded log is a step of the abstract
-- log, with the same label.
use verified_nrkernel.Prelude.{
  ℕ, ◌≡◌, refl, sym, ◌∙◌, ap, ap₂, subst, fun_ext, Bool, true, false, none, some, List, [], insert,
  ltb, new_map, if◌then◌else◌,
}
use mathlib.Core.Option.{some-injective}
use verified_nrkernel.NodeReplication.Dispatch.{Dispatch, AsyncLabel}
use verified_nrkernel.NodeReplication.SimpleLog
use verified_nrkernel.NodeReplication.UnboundedLog.{
  ReadonlyState, UpdateState, CombinerState, ready, loaded_local_version, loop,
  current_local_version, UnboundedLog, initialize, ticket, readonly, update, Step, add_ticket_read,
  add_ticket_write, consume_stub_read, consume_stub_write, readonly_version_upper_bound,
  readonly_ready_to_read, readonly_apply, readonly_view_oob, update_place_ops_in_log_one,
  update_done, exec_trivial_start, exec_load_local_version, exec_load_global_head,
  exec_dispatch_local, exec_dispatch_remote, exec_update_version_upper_bound, exec_finish,
  exec_finish_no_change, Run, stop, more,
}
use verified_nrkernel.NodeReplication.UnboundedLog.Invariant.{version_at, Inv, initialize-Inv}
use verified_nrkernel.NodeReplication.UnboundedLog.Preserved.{Step-Inv}
use verified_nrkernel.NodeReplication.UnboundedLog.Interp.{
  interp_read, update_req, update_resp, interp,
}
use verified_nrkernel.NodeReplication.UnboundedLog.Mapped.{mapped-insert, mapped-insert_same}
use verified_nrkernel.NodeReplication.UnboundedLog.Abstract.{
  version_here, node_below, same_versions, nrstate_here, arrive,
}
use verified_nrkernel.NodeReplication.UnboundedLog.Simulates.{
  refine_consume_stub_read, refine_consume_stub_write, refine_place, refine_dispatch_remote,
  refine_dispatch_local, refine_update_version, refine_finish,
}

module _ {DT : Dispatch} where
  -- A step of the unbounded log from a state with its invariants is a step of the abstract log, with
  -- the same label, between what the two states stand for.
  pub step_refines :
      {s t : UnboundedLog DT} {label : AsyncLabel DT}
      → Step DT s label t
      → Inv s
      → SimpleLog.Step DT (interp s) label (interp t)
  step_refines {s} {t} (ticket (add_ticket_read rid op n e h1 h2 h3)) v =
      arrive s v t
        (SimpleLog.readonly_start rid n op e (ap interp_read h1) (ap update_req h2)
          (ap update_resp h2))
        (ap (λ m. record (interp s) { readonly_reqs = m })
          (sym (
            mapped-insert interp_read s.local_reads rid (ReadonlyState.init op n)
              (SimpleLog.init op n) refl)))
  step_refines {s} {t} (ticket (add_ticket_write rid op e h1 h2 h3)) v =
      arrive s v t
        (SimpleLog.update_start rid op e (ap interp_read h1) (ap update_req h2) (ap update_resp h2))
        (ap₂ (λ k m. record (interp s) { update_reqs = k; update_resps = m })
          (sym (mapped-insert update_req s.local_updates rid (UpdateState.init op) op refl))
          (sym (
            mapped-insert_same update_resp s.local_updates rid (UpdateState.init op)
              (sym (ap update_resp h2)))))
  step_refines {s} (ticket (consume_stub_read rid op n u ret e h)) v =
      refine_consume_stub_read s v rid op n u ret e h
  step_refines {s} (ticket (consume_stub_write rid ret idx e h)) v =
      refine_consume_stub_write s v rid ret idx e h
  step_refines {s} {t} (readonly (readonly_version_upper_bound rid op n e h)) v =
      arrive s v t (SimpleLog.readonly_read_version rid n op e (ap interp_read h)) (
        ap (λ m. record (interp s) { readonly_reqs = m })
          (sym (
            mapped-insert interp_read s.local_reads rid
              (ReadonlyState.version_upper_bound op n s.version_upper_bound)
              (SimpleLog.req s.version_upper_bound op n) refl)))
  step_refines {s} {t} (readonly (readonly_ready_to_read rid op n u l e h1 h2 h3)) v =
      arrive s v t (SimpleLog.no_op e) (
        ap (λ m. record (interp s) { readonly_reqs = m })
          (sym (
            mapped-insert_same interp_read s.local_reads rid (ReadonlyState.ready_to_read op n u)
              (sym (ap interp_read h1)))))
  step_refines {s} {t} (readonly (readonly_apply rid op n u state e h1 h2 h3)) v =
      arrive s v t (SimpleLog.no_op e) (
        ap (λ m. record (interp s) { readonly_reqs = m })
          (sym (
            mapped-insert_same interp_read s.local_reads rid
              (ReadonlyState.done op n u (DT.dispatch_spec state op)) (sym (ap interp_read h1)))))
  step_refines {s} (readonly (readonly_view_oob n res e lt h)) v =
      let (c, there) = node_below s v n lt in
      let w = v.nodes_wf n c there in
      SimpleLog.readonly_view_oob n (current_local_version c w.local) res e lt
        (version_here s v n c there)
        (some-injective _ _ (sym h ∙ w.has_state)
          ∙ sym (nrstate_here s v (current_local_version c w.local) w.in_log))
  step_refines {s} (update (update_place_ops_in_log_one n rid queue op e h1 h2)) v =
      refine_place s v n rid queue op e h1 h2
  step_refines {s} {t} (update (update_done rid ret idx e h1 h2)) v =
      arrive s v t (SimpleLog.no_op e) (
        ap₂ (λ k m. record (interp s) { update_reqs = k; update_resps = m })
          (sym (
            mapped-insert_same update_req s.local_updates rid (UpdateState.done ret idx)
              (sym (ap update_req h1))))
          (sym (
            mapped-insert_same update_resp s.local_updates rid (UpdateState.done ret idx)
              (sym (ap update_resp h1)))))
  step_refines {s} {t} (update (exec_trivial_start n e h)) v =
      arrive s v t (SimpleLog.no_op e) (same_versions s v n ready (CombinerState.placed []) h refl)
  step_refines {s} {t} (update (exec_load_local_version n queue l e h1 h2)) v =
      arrive s v t (SimpleLog.no_op e) (
        same_versions s v n (CombinerState.placed queue) (loaded_local_version queue l) h1
          (some-injective _ _ (sym h2 ∙ (v.nodes_wf n (CombinerState.placed queue) h1).has_local)))
  step_refines {s} {t} (update (exec_load_global_head n queue l e h)) v =
      arrive s v t (SimpleLog.no_op e)
        (same_versions s v n (loaded_local_version queue l) (loop queue l 0 s.tail) h refl)
  step_refines {s}
        (update (exec_dispatch_local n queue l idx t state rid u x e h1 h2 h3 h4 h5 h6 h7)) v =
      refine_dispatch_local s v n queue l idx t rid x (DT.dispatch_mut_spec state x.op).1
        (insert s.replicas n (DT.dispatch_mut_spec state x.op).0) h1 h3 h5 h7 e h6
  step_refines {s} (update (exec_dispatch_remote n queue l idx t state x e h1 h2 h3 h4 h5)) v =
      refine_dispatch_remote s v n queue l idx t
        (insert s.replicas n (DT.dispatch_mut_spec state x.op).0) h1 e h4
  step_refines {s} (update (exec_update_version_upper_bound n queue l idx t e h1 h2)) v =
      refine_update_version s v n queue l idx t e h1 h2
  step_refines {s} (update (exec_finish n queue t l e h1 h2)) v = refine_finish s v n queue t e h1
  step_refines {s} {t} (update (exec_finish_no_change n queue l e h1 h2)) v =
      let w = v.nodes_wf n (loaded_local_version queue l) h1 in
      arrive s v t (SimpleLog.no_op e)
        (same_versions s v n (loaded_local_version queue l) ready h1 (sym w.wf.0))

  -- The initial state stands for the initial state of the abstract log.
  initialize_refines : (n : ℕ) → interp (initialize DT n) ≡ SimpleLog.initialize DT n
  unfolding new_map
  initialize_refines n =
      ap (λ m. record (SimpleLog.initialize DT n) { replica_versions = m })
        (fun_ext λ j. go j (ltb j n))
    where
      go :
          (j : ℕ) (b : Bool)
          → (if b
              then version_at (if b then some ready else none) (if b then some 0 else none)
              else none)
            ≡ (if b then some 0 else none)
      go j true = refl
      go j false = refl

  pub Run-from_Inv :
      {s t : UnboundedLog DT} {labels : List (AsyncLabel DT)}
      → Inv s
      → Run DT labels s t
      → SimpleLog.Run DT labels (interp s) (interp t)
  Run-from_Inv v stop = SimpleLog.done
  Run-from_Inv v (more st r) = SimpleLog.more (step_refines st v) (Run-from_Inv (Step-Inv st v) r)

  -- Every run of the unbounded log from an initial state is a run of the abstract log from its initial
  -- state with the same labels, so with the same requests and the same answers in the same order, and
  -- it leads to the state that the reached one stands for.
  pub unbounded_log_refines :
      (n : ℕ) {s : UnboundedLog DT} {labels : List (AsyncLabel DT)}
      → Run DT labels (initialize DT n) s
      → SimpleLog.Run DT labels (SimpleLog.initialize DT n) (interp s)
  unbounded_log_refines n {s} {labels} r =
      subst (λ x. SimpleLog.Run DT labels x (interp s)) (initialize_refines n)
        (Run-from_Inv (initialize-Inv n) r)
