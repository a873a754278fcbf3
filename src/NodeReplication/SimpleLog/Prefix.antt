-- ===== src/NodeReplication/SimpleLog/Prefix.antt =====
-- spec/simple_log.rs: the log only grows, and so the state at a version in it is settled.
use verified_nrkernel.Prelude.{
  ℕ, zero, suc, ◌≤◌, ◌<◌, ◌≡◌, refl, ◌∙◌, some, List, [], ◌∷◌, ◌++◌, arith, length, get_elem?,
  get_elem?-push, get_elem?-lt, get_elem?_total, ◌==◌, if◌then◌else◌,
}
use verified_nrkernel.NodeReplication.Dispatch.{Dispatch, AsyncLabel}
use verified_nrkernel.NodeReplication.SimpleLog.{
  SimpleLog, compute_nrstate_at_version, Step, readonly_start, readonly_read_version,
  readonly_finish, readonly_view_oob, update_start, update_add_op_to_log, update_incr_version,
  update_finish, update_replica_update, no_op, Run, done, more,
}

module _ {A : Type 0} where
  -- Every entry of the first list is that of the second.
  abbrev pub IsPrefix : List A → List A → Type 0
  IsPrefix xs ys = (i : ℕ) (v : A) → get_elem? xs i ≡ some v → get_elem? ys i ≡ some v

  pub push-IsPrefix : (xs : List A) (v : A) → IsPrefix xs (xs ++ v ∷ [])
  push-IsPrefix xs v i w h = get_elem?-push xs v i ∙ below (get_elem?-lt xs i h)
    where
      below : i < length xs → (if i == length xs then some v else get_elem? xs i) ≡ some w
      below lt = ground arith

module _ (DT : Dispatch) where
  pub Step-IsPrefix :
      {s t : SimpleLog DT} {label : AsyncLabel DT} → Step DT s label t → IsPrefix s.log t.log
  Step-IsPrefix (readonly_start rid n op e h1 h2 h3) i v h = h
  Step-IsPrefix (readonly_read_version rid n op e h1) i v h = h
  Step-IsPrefix (readonly_finish rid x c rv n op ret e h1 h2 h3 h4 h5 h6 h7) i v h = h
  Step-IsPrefix (readonly_view_oob r rv res e h1 h2 h3) i v h = h
  Step-IsPrefix (update_start rid op e h1 h2 h3) i v h = h
  Step-IsPrefix {s} (update_add_op_to_log rid op e h1) i v h = push-IsPrefix s.log op i v h
  Step-IsPrefix (update_incr_version n e h1 h2) i v h = h
  Step-IsPrefix (update_finish rid u op ret e h1 h2 h3 h4 h5) i v h = h
  Step-IsPrefix (update_replica_update n o w e h1 h2 h3 h4) i v h = h
  Step-IsPrefix (no_op e) i v h = h

  pub Run-IsPrefix :
      {s t : SimpleLog DT} {labels : List (AsyncLabel DT)}
      → Run DT labels s t
      → IsPrefix s.log t.log
  Run-IsPrefix done i v h = h
  Run-IsPrefix (more st r) i v h = Run-IsPrefix r i v (Step-IsPrefix st i v h)

  -- The state at a version within the log is the same in every longer log.
  pub nrstate-IsPrefix :
      (xs ys : List DT.WriteOperation) (version : ℕ)
      → IsPrefix xs ys
      → version ≤ length xs
      → compute_nrstate_at_version DT ys version ≡ compute_nrstate_at_version DT xs version
  nrstate-IsPrefix xs ys zero p le = refl
  nrstate-IsPrefix xs ys (suc n) p le =
      let (op, h) = get_elem?_total xs n (omega arith) in
      let ih = nrstate-IsPrefix xs ys n p (omega arith) in rw (h, p n op h, ih)
