-- ===== src/NodeReplication/RwLock/Safety.antt =====
-- What the lock of spec/rwlock.rs promises: the obligations of its transitions, exclusion, that a
-- reader gets in while the flag is clear, and a writer once the counters are zero too.
use verified_nrkernel.Prelude.{
  ℕ, zero, suc, ◌+◌, ◌<◌, ◌≤◌, ◌≡◌, refl, ap, ◌∙◌, subst, true, false, inl, inr, none, some, List,
  [], ◌∷◌, ◌++◌, arith, is_some, Option-cases, insert,
}
use verified_nrkernel.NodeReplication.RwLock.{
  RwLock, WriterStep, ReaderStep, writer, exc_start, exc_check_count, exc_finish, shared_start,
  shared_finish, Reach, next,
}
use verified_nrkernel.NodeReplication.RwLock.Guards.{AllGuards, AllGuards-remove}
use verified_nrkernel.NodeReplication.RwLock.Invariant.{
  exc_pending_at, no_guards, guard_not_pending, guard_excludes, count_at, count_guards_at,
  rw_lock-Inv,
}

module _ {T : Type 0} (user_inv : T → Type 0) {s : RwLock T} (reach : Reach user_inv s) where
  open (rw_lock-Inv user_inv reach) use {
    sto_user_inv, width_pos, ref_counts_domain, exc_locked_iff, storage_iff,
    shared_pending_in_range, shared_guard_in_range, shared_inv_agree, shared_counts_agree,
  }

  stored : is_some s.exc_guard ≡ false → (x : T) × (s.storage ≡ some x)
  stored e = elim (Option-cases s.storage) [
    | inl h ↦ absurd (ground (arith, storage_iff))
    | inr h ↦ h
  ]

  counter_there : (r : ℕ) → r < s.rc_width → (rc : ℕ) × (s.ref_counts r ≡ some rc)
  counter_there r lt = elim (Option-cases (s.ref_counts r)) [
    | inl e ↦ absurd (ground (arith, ref_counts_domain r))
    | inr p ↦ p
  ]

  -- In a reachable state a writer that has checked all counters can finish: no other writer holds the
  -- lock, no reader's guard is held, and there is a value to withdraw, which meets `user_inv`.
  pub exc_finish_safe :
      s.exc_pending ≡ some s.rc_width
      → (s.exc_guard ≡ none) × (s.shared_guard ≡ []) × ((x : T) × (s.storage ≡ some x) × user_inv x)
  exc_finish_safe e =
      let free = (exc_pending_at user_inv (rw_lock-Inv user_inv reach) e).1 in
      let (x, h) = stored (ap is_some free) in
      (free, no_guards user_inv (rw_lock-Inv user_inv reach) e, (x, h, sto_user_inv x h))

  -- In a reachable state in which a writer holds the lock, the flag is set, no other writer is
  -- checking, nothing is stored (so the release may deposit), and no reader's guard is held.
  pub writer_excludes :
      s.exc_guard ≡ some tt
      → (s.exc_locked ≡ true) × (s.exc_pending ≡ none) × (s.storage ≡ none) × (s.shared_guard ≡ [])
  writer_excludes e = (
    ground (arith, exc_locked_iff, guard_not_pending user_inv (rw_lock-Inv user_inv reach) e),
    guard_not_pending user_inv (rw_lock-Inv user_inv reach) e,
    ground (arith, storage_iff),
    guard_excludes user_inv (rw_lock-Inv user_inv reach) e,
  )

  -- In a reachable state a reader that holds a guard reads the stored value, which meets `user_inv`;
  -- its counter is at least 1, and no writer holds the lock.
  pub reader_guard :
      (r : ℕ) (t : T) (before after : List (ℕ × T))
      → s.shared_guard ≡ before ++ ((r, t) ∷ after)
      → (s.storage ≡ some t)
        × user_inv t
        × (s.exc_guard ≡ none)
        × ((rc : ℕ) × (s.ref_counts r ≡ some rc) × (0 < rc))
  reader_guard r t before after h =
      let agree =
        (AllGuards-remove (λ q u. s.storage ≡ some u) before r t after
          (subst (AllGuards (λ q u. s.storage ≡ some u)) h shared_inv_agree)).0 in
      let lt : r < s.rc_width =
        (AllGuards-remove (λ q u. q < s.rc_width) before r t after
          (subst (AllGuards (λ q u. q < s.rc_width)) h shared_guard_in_range)).0 in
      (agree, sto_user_inv t agree, ground (arith, storage_iff), counter lt)
    where
      counter : r < s.rc_width → (rc : ℕ) × (s.ref_counts r ≡ some rc) × (0 < rc)
      counter lt =
          let (rc, e) = counter_there r lt in
          (
            rc,
            e,
            ground (
              arith,
              shared_counts_agree r rc,
              count_guards_at user_inv (rw_lock-Inv user_inv reach) r r t before after h,
            ),
          )

  -- In a reachable state the counter of a reader that is about to look at the flag is not zero.
  pub rc_not_zero_guard :
      (r rc : ℕ) (before after : List ℕ)
      → s.shared_pending ≡ before ++ (r ∷ after)
      → s.ref_counts r ≡ some rc
      → 0 < rc
  rc_not_zero_guard r rc before after h e = ground (
    arith,
    shared_counts_agree r rc,
    count_at user_inv (rw_lock-Inv user_inv reach) r r before after h,
  )

  -- In a reachable state a reader that finds the flag clear gets the stored value, and it meets
  -- `user_inv`.
  pub shared_finish_safe : s.exc_locked ≡ false → (t : T) × (s.storage ≡ some t) × user_inv t
  shared_finish_safe e =
      let (t, h) = stored (ground (arith, exc_locked_iff)) in (t, h, sto_user_inv t h)

-- Steps of readers in a row.
pub data ReaderSteps {T : Type 0} : RwLock T → RwLock T → Type 0 where
  stop : {s : RwLock T} → ReaderSteps s s
  step : {s t u : RwLock T} → ReaderStep s t → ReaderSteps t u → ReaderSteps s u

-- From a reachable state with the flag clear, a reader that counts itself in at a counter gets its
-- guard by transitions of readers alone, and with no other effect: that counter has grown by one, the
-- guard is of the value that is stored, which meets `user_inv`, and all else is as before, the pending
-- readers and the other guards included.
pub reader_enters :
    {T : Type 0} (user_inv : T → Type 0) {s : RwLock T} (r : ℕ)
    → Reach user_inv s
    → s.exc_locked ≡ false
    → r < s.rc_width
    → (rc : ℕ) × (t : T) × (s.ref_counts r ≡ some rc)
      × (s.storage ≡ some t)
      × user_inv t
      × ReaderSteps s (record s {
        ref_counts = insert s.ref_counts r (rc + 1);
        shared_guard = (r, t) ∷ s.shared_guard;
      })
reader_enters user_inv {s} r reach e lt =
    let (rc, c) = counter_there user_inv reach r lt in
    let (t, h, k) = shared_finish_safe user_inv reach e in
    let enter : ReaderStep s _ = shared_start r rc c in
    (rc, t, c, h, k, step enter (step (shared_finish r t [] s.shared_pending e refl h) stop))

-- Steps of the writer in a row.
pub data WriterSteps {T : Type 0} (user_inv : T → Type 0) : RwLock T → RwLock T → Type 0 where
  done : {s : RwLock T} → WriterSteps user_inv s s
  more :
      {s t u : RwLock T}
      → WriterStep user_inv s t
      → WriterSteps user_inv t u
      → WriterSteps user_inv s u

module _ {T : Type 0} (user_inv : T → Type 0) where
  -- A writer at counter `cur`, with `k` counters to go.
  check_all :
      (k : ℕ) {s : RwLock T} (cur : ℕ)
      → Reach user_inv s
      → s.exc_pending ≡ some cur
      → cur + k ≡ s.rc_width
      → ((r : ℕ) → cur ≤ r → r < s.rc_width → s.ref_counts r ≡ some 0)
      → WriterSteps user_inv s
          (record s { exc_pending = none; exc_guard = some tt; storage = none })
  check_all zero {s} cur reach e l h =
      let p : s.exc_pending ≡ some s.rc_width = e ∙ ap some (omega arith) in
      let (x, k, _) = (exc_finish_safe user_inv reach p).2 in more (exc_finish x p k) done
  check_all (suc k) {s} cur reach e l h =
      let st : WriterStep user_inv s _ =
        exc_check_count cur e (h cur (omega arith) (omega arith)) in
      more st (
        check_all k (cur + 1) (next reach (writer st)) refl (omega arith)
          (λ r le lt. h r (omega arith) lt))

  -- From a reachable state with the flag clear and all counters zero, a writer takes the lock by
  -- transitions of the writer alone, and with no other effect: they lead to the state in which the
  -- flag is set, the writer holds the lock and nothing is stored, and in which all else, the
  -- counters and the readers included, is as before.
  pub writer_enters :
      {s : RwLock T}
      → Reach user_inv s
      → s.exc_locked ≡ false
      → ((r : ℕ) → r < s.rc_width → s.ref_counts r ≡ some 0)
      → WriterSteps user_inv s
          (record s { exc_locked = true; exc_pending = none; exc_guard = some tt; storage = none })
  writer_enters {s} reach e h =
      let st : WriterStep user_inv s _ = exc_start e in
      more st
        (check_all s.rc_width 0 (next reach (writer st)) refl (omega arith) (λ r le lt. h r lt))
