-- ===== src/NodeReplication/RwLock/Invariant.antt =====
-- The invariants of spec/rwlock.rs.
use mathlib.Core.Option.{some-injective}
use verified_nrkernel.Prelude.{
  ℕ, ◌+◌, ◌<◌, ◌≤◌, ◌≡◌, refl, sym, ap, ◌∙◌, subst, false, ◌||◌, not, inl, inr, Option-cases,
  Option, none, some, List, [], ◌∷◌, ◌++◌, arith, ltb, ◌==◌, if◌then◌else◌, is_some,
  is_some-new_map, new_map-eq,
}
use verified_nrkernel.NodeReplication.RwLock.{
  RwLock, initialize, Step, writer, reader, exc_start, exc_check_count, exc_finish, exc_release,
  shared_start, shared_abandon, shared_finish, shared_release, Reach, start, next,
}
use verified_nrkernel.NodeReplication.RwLock.Guards.{
  count, count-split, count_guards, count_guards-split, AllGuards, AllGuards-map, AllGuards-remove,
  ExcPending, AllGuards-zip, ExcPending-remove,
}

module _ {T : Type 0} (user_inv : T → Type 0) where
  pub record Inv (s : RwLock T) : Type 0 where
    pub sto_user_inv : (t : T) → s.storage ≡ some t → user_inv t
    pub width_pos : 0 < s.rc_width
    pub ref_counts_domain : (i : ℕ) → is_some (s.ref_counts i) ≡ ltb i s.rc_width
    pub exc_locked_iff : s.exc_locked ≡ (is_some s.exc_pending || is_some s.exc_guard)
    pub storage_iff : is_some s.storage ≡ not (is_some s.exc_guard)
    pub exc_pending_inv : ExcPending s.rc_width s.exc_guard s.shared_guard s.exc_pending
    pub shared_pending_in_range : (r : ℕ) → 0 < count r s.shared_pending → r < s.rc_width
    pub shared_guard_in_range : AllGuards (λ r t. r < s.rc_width) s.shared_guard
    pub shared_inv_agree : AllGuards (λ r t. s.storage ≡ some t) s.shared_guard
    pub shared_counts_agree :
        (r rc : ℕ)
        → s.ref_counts r ≡ some rc
        → rc ≡ count r s.shared_pending + count_guards r s.shared_guard

  initialize-Inv : (width : ℕ) (t : T) → 0 < width → user_inv t → Inv (initialize width t)
  unfolding count count_guards
  initialize-Inv width t h k = record {
    sto_user_inv = λ u e. subst user_inv (some-injective _ _ e) k;
    width_pos = h;
    ref_counts_domain = is_some-new_map width 0;
    exc_locked_iff = refl;
    storage_iff = refl;
    exc_pending_inv = tt;
    shared_pending_in_range = λ r lt. absurd (omega arith);
    shared_guard_in_range = tt;
    shared_inv_agree = tt;
    shared_counts_agree = λ r rc e. new_map-eq width 0 r e;
  }

  module _ {s : RwLock T} (v : Inv s) where
    -- What a writer that checks knows, at a known counter.
    pub exc_pending_at :
        {p : Option ℕ} → s.exc_pending ≡ p → ExcPending s.rc_width s.exc_guard s.shared_guard p
    exc_pending_at e = subst (ExcPending s.rc_width s.exc_guard s.shared_guard) e v.exc_pending_inv

    -- The counts of a list from which a transition removes one element.
    pub count_at :
        (q r : ℕ) (before after : List ℕ)
        → s.shared_pending ≡ before ++ (r ∷ after)
        → count q s.shared_pending ≡ (if r == q then 1 else 0) + count q (before ++ after)
    count_at q r before after h = ap (count q) h ∙ count-split q r before after

    pub count_guards_at :
        (q r : ℕ) (t : T) (before after : List (ℕ × T))
        → s.shared_guard ≡ before ++ ((r, t) ∷ after)
        → count_guards q s.shared_guard
          ≡ (if r == q then 1 else 0) + count_guards q (before ++ after)
    count_guards_at q r t before after h =
        ap (count_guards q) h ∙ count_guards-split q r t before after

    pub not_pending : s.exc_locked ≡ false → s.exc_pending ≡ none
    not_pending e = ground (arith, v.exc_locked_iff)

    -- Once a writer has checked all counters, no guard is held.
    pub no_guards : s.exc_pending ≡ some s.rc_width → s.shared_guard ≡ []
    no_guards e = none_left s.shared_guard (
        AllGuards-zip (λ r t. s.rc_width ≤ r) (λ r t. r < s.rc_width) s.shared_guard
          (exc_pending_at e).2 v.shared_guard_in_range)
      where
        none_left :
            (xs : List (ℕ × T))
            → AllGuards (λ r t. (s.rc_width ≤ r) × (r < s.rc_width)) xs
            → xs ≡ []
        none_left [] h = refl
        none_left ((r, t) ∷ xs) h = absurd (omega arith)

    -- A writer that holds the lock is past its checks, and no guard is held beside it.
    pub guard_not_pending : s.exc_guard ≡ some tt → s.exc_pending ≡ none
    guard_not_pending e = elim (Option-cases s.exc_pending) [
      | inl h ↦ h
      | inr h ↦ let (cur, k) = h in cc (sym e ∙ (exc_pending_at k).1)
    ]

    pub guard_excludes : s.exc_guard ≡ some tt → s.shared_guard ≡ []
    guard_excludes e = none_left s.shared_guard v.shared_inv_agree
      where
        none_left : (xs : List (ℕ × T)) → AllGuards (λ r t. s.storage ≡ some t) xs → xs ≡ []
        none_left [] h = refl
        none_left ((r, t) ∷ xs) h = absurd (ground (arith, v.storage_iff, h.0))

  -- Every transition keeps the invariant.
  pub Step-Inv : {s t : RwLock T} → Step user_inv s t → Inv s → Inv t
  Step-Inv {s} (writer (exc_start e)) v = record {
    sto_user_inv = v.sto_user_inv;
    width_pos = v.width_pos;
    ref_counts_domain = v.ref_counts_domain;
    exc_locked_iff = refl;
    storage_iff = v.storage_iff;
    exc_pending_inv = (
      omega arith,
      ground (arith, v.exc_locked_iff),
      AllGuards-map s.shared_guard (λ r t _ _. omega arith) v.shared_guard_in_range,
    );
    shared_pending_in_range = v.shared_pending_in_range;
    shared_guard_in_range = v.shared_guard_in_range;
    shared_inv_agree = v.shared_inv_agree;
    shared_counts_agree = v.shared_counts_agree;
  }
  Step-Inv {s} (writer (exc_check_count r e h)) v = record {
    sto_user_inv = v.sto_user_inv;
    width_pos = v.width_pos;
    ref_counts_domain = v.ref_counts_domain;
    exc_locked_iff = ground (arith, v.exc_locked_iff);
    storage_iff = v.storage_iff;
    exc_pending_inv = (
      ground (arith, v.ref_counts_domain r),
      (exc_pending_at v e).1,
      AllGuards-map s.shared_guard (λ q t lt le. ground (arith, v.shared_counts_agree r 0))
          (exc_pending_at v e).2,
    );
    shared_pending_in_range = v.shared_pending_in_range;
    shared_guard_in_range = v.shared_guard_in_range;
    shared_inv_agree = v.shared_inv_agree;
    shared_counts_agree = v.shared_counts_agree;
  }
  Step-Inv {s} (writer (exc_finish x e h)) v = record {
    sto_user_inv = λ t k. ground arith;
    width_pos = v.width_pos;
    ref_counts_domain = v.ref_counts_domain;
    exc_locked_iff = ground (arith, v.exc_locked_iff);
    storage_iff = refl;
    exc_pending_inv = tt;
    shared_pending_in_range = v.shared_pending_in_range;
    shared_guard_in_range = v.shared_guard_in_range;
    shared_inv_agree = subst (AllGuards (λ r t. none ≡ some t)) (sym (no_guards v e)) tt;
    shared_counts_agree = v.shared_counts_agree;
  }
  Step-Inv {s} (writer (exc_release t k e)) v = record {
    sto_user_inv = λ u g. subst user_inv (some-injective _ _ g) k;
    width_pos = v.width_pos;
    ref_counts_domain = v.ref_counts_domain;
    exc_locked_iff = rw (guard_not_pending v e);
    storage_iff = refl;
    exc_pending_inv =
        subst (ExcPending s.rc_width none s.shared_guard) (sym (guard_not_pending v e)) tt;
    shared_pending_in_range = v.shared_pending_in_range;
    shared_guard_in_range = v.shared_guard_in_range;
    shared_inv_agree = subst (AllGuards (λ r u. some t ≡ some u)) (sym (guard_excludes v e)) tt;
    shared_counts_agree = v.shared_counts_agree;
  }
  Step-Inv {s} (reader (shared_start r rc e)) v = record {
    sto_user_inv = v.sto_user_inv;
    width_pos = v.width_pos;
    ref_counts_domain = λ i. ground (arith, v.ref_counts_domain i);
    exc_locked_iff = v.exc_locked_iff;
    storage_iff = v.storage_iff;
    exc_pending_inv = v.exc_pending_inv;
    shared_pending_in_range =
        λ q lt. unfold count in ground (arith, v.shared_pending_in_range q, v.ref_counts_domain r);
    shared_guard_in_range = v.shared_guard_in_range;
    shared_inv_agree = v.shared_inv_agree;
    shared_counts_agree = λ q n h.
        unfold count in ground (arith, v.shared_counts_agree q n, v.shared_counts_agree r rc);
  }
  Step-Inv {s} (reader (shared_abandon r rc before after e lt h)) v = record {
    sto_user_inv = v.sto_user_inv;
    width_pos = v.width_pos;
    ref_counts_domain = λ i. ground (arith, v.ref_counts_domain i);
    exc_locked_iff = v.exc_locked_iff;
    storage_iff = v.storage_iff;
    exc_pending_inv = v.exc_pending_inv;
    shared_pending_in_range =
        λ q lt. ground (arith, v.shared_pending_in_range q, count_at v q r before after h);
    shared_guard_in_range = v.shared_guard_in_range;
    shared_inv_agree = v.shared_inv_agree;
    shared_counts_agree = λ q n g. ground (
      arith,
      v.shared_counts_agree q n,
      v.shared_counts_agree r rc,
      count_at v q r before after h,
    );
  }
  Step-Inv {s} (reader (shared_finish r t before after e h k)) v = record {
    sto_user_inv = v.sto_user_inv;
    width_pos = v.width_pos;
    ref_counts_domain = v.ref_counts_domain;
    exc_locked_iff = v.exc_locked_iff;
    storage_iff = v.storage_iff;
    exc_pending_inv =
        subst (ExcPending s.rc_width s.exc_guard ((r, t) ∷ s.shared_guard)) (sym (not_pending v e))
          tt;
    shared_pending_in_range =
        λ q lt. ground (arith, v.shared_pending_in_range q, count_at v q r before after h);
    shared_guard_in_range = (
      ground (arith, v.shared_pending_in_range r, count_at v r r before after h),
      v.shared_guard_in_range,
    );
    shared_inv_agree = (k, v.shared_inv_agree);
    shared_counts_agree = λ q n g.
        unfold count_guards in
        ground (arith, v.shared_counts_agree q n, count_at v q r before after h);
  }
  Step-Inv {s} (reader (shared_release r t rc before after h e)) v = record {
    sto_user_inv = v.sto_user_inv;
    width_pos = v.width_pos;
    ref_counts_domain = λ i. ground (arith, v.ref_counts_domain i);
    exc_locked_iff = v.exc_locked_iff;
    storage_iff = v.storage_iff;
    exc_pending_inv =
        ExcPending-remove s.rc_width s.exc_guard before r t after s.exc_pending
          (subst (λ g. ExcPending s.rc_width s.exc_guard g s.exc_pending) h v.exc_pending_inv);
    shared_pending_in_range = v.shared_pending_in_range;
    shared_guard_in_range =
        (AllGuards-remove (λ q u. q < s.rc_width) before r t after
          (subst (AllGuards (λ q u. q < s.rc_width)) h v.shared_guard_in_range)).1;
    shared_inv_agree =
        (AllGuards-remove (λ q u. s.storage ≡ some u) before r t after
          (subst (AllGuards (λ q u. s.storage ≡ some u)) h v.shared_inv_agree)).1;
    shared_counts_agree = λ q n g. ground (
      arith,
      v.shared_counts_agree q n,
      v.shared_counts_agree r rc,
      count_guards_at v q r t before after h,
    );
  }

  -- In every state that a lock reaches from its beginning, with at least one counter and a value of
  -- `user_inv`, by the transitions of its readers and writers, the invariants of the lock hold.
  pub rw_lock-Inv : {s : RwLock T} → Reach user_inv s → Inv s
  rw_lock-Inv (start width t h k) = initialize-Inv width t h k
  rw_lock-Inv (next r st) = Step-Inv st (rw_lock-Inv r)
