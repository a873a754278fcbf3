-- ===== src/NodeReplication/RwLock.antt =====
-- verified-node-replication/verified-node-replication/src/spec/rwlock.rs: the state machine of the
-- distributed reader-writer lock. A reader counts itself in at one of `rc_width` counters; a writer
-- takes the flag, and then waits for each counter in turn to be zero.
--
-- A multiset of the source is a list, from which a transition may remove an element at any place.
-- What a transition removes is a premise of its constructor. That what it adds was absent, that what
-- it withdraws is there, and what it asserts, are theorems about the reachable states.
pub mod Guards
pub mod Invariant
pub mod Safety
pub mod Tests
use verified_nrkernel.Prelude.{
  ℕ, ◌+◌, ◌-◌, ◌<◌, ◌≡◌, Bool, true, false, Option, none, some, List, [], ◌∷◌, ◌++◌, insert,
  new_map,
}

pub record RwLock {ℓ} (T : Type ℓ) : Type ℓ where
  pub rc_width : ℕ
  pub storage : Option T
  pub exc_locked : Bool
  pub ref_counts : ℕ → Option ℕ
  pub exc_pending : Option ℕ
  pub exc_guard : Option (Unit {0})
  pub shared_pending : List ℕ
  pub shared_guard : List (ℕ × T)

abbrev pub initialize {ℓ} : {T : Type ℓ} → ℕ → T → RwLock T
initialize rc_width init_t = record {
  rc_width = rc_width;
  storage = some init_t;
  exc_locked = false;
  ref_counts = new_map rc_width 0;
  exc_pending = none;
  exc_guard = none;
  shared_pending = [];
  shared_guard = [];
}

-- What a reader does.
pub data ReaderStep {T : Type 0} (s : RwLock T) : RwLock T → Type 0 where
  shared_start :
      (r rc : ℕ)
      → s.ref_counts r ≡ some rc
      → ReaderStep s (record s {
        ref_counts = insert s.ref_counts r (rc + 1);
        shared_pending = r ∷ s.shared_pending;
      })
  shared_abandon :
      (r rc : ℕ) (before after : List ℕ)
      → s.ref_counts r ≡ some rc
      → 0 < rc
      → s.shared_pending ≡ before ++ (r ∷ after)
      → ReaderStep s (record s {
        ref_counts = insert s.ref_counts r (rc - 1);
        shared_pending = before ++ after;
      })
  shared_finish :
      (r : ℕ) (t : T) (before after : List ℕ)
      → s.exc_locked ≡ false
      → s.shared_pending ≡ before ++ (r ∷ after)
      → s.storage ≡ some t
      → ReaderStep s
          (record s { shared_pending = before ++ after; shared_guard = (r, t) ∷ s.shared_guard })
  -- `rc - 1` stops at 0 here and does not in the source: `Safety` shows that `rc` is not 0.
  shared_release :
      (r : ℕ) (t : T) (rc : ℕ) (before after : List (ℕ × T))
      → s.shared_guard ≡ before ++ ((r, t) ∷ after)
      → s.ref_counts r ≡ some rc
      → ReaderStep s
          (record s { ref_counts = insert s.ref_counts r (rc - 1); shared_guard = before ++ after })

-- `user_inv` is the set of the values that the lock may protect.
module _ {T : Type 0} (user_inv : T → Type 0) where
  -- What the writer does.
  pub data WriterStep (s : RwLock T) : RwLock T → Type 0 where
    exc_start :
        s.exc_locked ≡ false → WriterStep s (record s { exc_locked = true; exc_pending = some 0 })
    exc_check_count :
        (r : ℕ)
        → s.exc_pending ≡ some r
        → s.ref_counts r ≡ some 0
        → WriterStep s (record s { exc_pending = some (r + 1) })
    exc_finish :
        (x : T)
        → s.exc_pending ≡ some s.rc_width
        → s.storage ≡ some x
        → WriterStep s (record s { exc_pending = none; exc_guard = some tt; storage = none })
    exc_release :
        (t : T)
        → user_inv t
        → s.exc_guard ≡ some tt
        → WriterStep s (record s { exc_locked = false; exc_guard = none; storage = some t })

  pub data Step (s : RwLock T) : RwLock T → Type 0 where
    writer : {t : RwLock T} → WriterStep s t → Step s t
    reader : {t : RwLock T} → ReaderStep s t → Step s t

  -- The states that come from a lock with `rc_width` counters over a value of `user_inv`.
  pub data Reach : RwLock T → Type 0 where
    start :
        (rc_width : ℕ) (init_t : T)
        → 0 < rc_width
        → user_inv init_t
        → Reach (initialize rc_width init_t)
    next : {s t : RwLock T} → Reach s → Step s t → Reach t
