-- ===== src/NodeReplication/RwLock/Tests.antt =====
-- Concrete runs of the lock of spec/rwlock.rs, with two counters over a number below 10.
use verified_nrkernel.Prelude.{
  ℕ, zero, suc, ◌+◌, ◌<◌, ◌≡◌, refl, true, none, some, [], ◌∷◌, arith, insert, new_map,
}
use verified_nrkernel.NodeReplication.RwLock.{
  RwLock, initialize, writer, reader, exc_start, exc_check_count, exc_finish, shared_start,
  shared_finish, Reach, start, next,
}
use verified_nrkernel.NodeReplication.RwLock.Invariant.{Inv, rw_lock-Inv}
use verified_nrkernel.NodeReplication.RwLock.Safety.{
  ReaderSteps, WriterSteps, exc_finish_safe, writer_excludes, reader_guard, reader_enters,
  writer_enters,
}

abbrev Small : ℕ → Type 0
Small n = n < 10

abbrev fresh : RwLock ℕ
fresh = initialize 2 7

abbrev checked : RwLock ℕ
checked = record fresh { exc_locked = true; exc_pending = some 2 }

abbrev written : RwLock ℕ
written = record checked { exc_pending = none; exc_guard = some tt; storage = none }

-- A reader has counted itself in at counter 1.
abbrev counted : RwLock ℕ
counted = record fresh { ref_counts = insert fresh.ref_counts 1 1; shared_pending = 1 ∷ [] }

abbrev reading : RwLock ℕ
reading = record counted { shared_pending = []; shared_guard = (1, 7) ∷ [] }

fresh_reached : Reach Small fresh
fresh_reached = start 2 7 (omega arith) (omega arith)

checked_reached : Reach Small checked
unfolding new_map
checked_reached =
    next
      (next (next fresh_reached (writer (exc_start refl))) (writer (exc_check_count 0 refl refl)))
      (writer (exc_check_count 1 refl refl))

written_reached : Reach Small written
written_reached = next checked_reached (writer (exc_finish 7 refl refl))

counted_reached : Reach Small counted
unfolding new_map
counted_reached = next fresh_reached (reader (shared_start 1 0 refl))

reading_reached : Reach Small reading
reading_reached = next counted_reached (reader (shared_finish 1 7 [] [] refl refl refl))

rw_lock-Inv_example : Inv Small reading
rw_lock-Inv_example = rw_lock-Inv Small reading_reached

exc_finish_safe_example :
    (checked.exc_guard ≡ none)
    × (checked.shared_guard ≡ [])
    × ((x : ℕ) × (checked.storage ≡ some x) × Small x)
exc_finish_safe_example = exc_finish_safe Small checked_reached refl

writer_excludes_example :
    (written.exc_locked ≡ true)
    × (written.exc_pending ≡ none)
    × (written.storage ≡ none)
    × (written.shared_guard ≡ [])
writer_excludes_example = writer_excludes Small written_reached refl

reader_guard_example :
    (reading.storage ≡ some 7)
    × Small 7
    × (reading.exc_guard ≡ none)
    × ((rc : ℕ) × (reading.ref_counts 1 ≡ some rc) × (0 < rc))
reader_guard_example = reader_guard Small reading_reached 1 7 [] [] refl

fresh_zero : (r : ℕ) → r < 2 → fresh.ref_counts r ≡ some 0
unfolding new_map
fresh_zero zero h = refl
fresh_zero (suc zero) h = refl
fresh_zero (suc (suc r)) h = absurd (omega arith)

writer_enters_example : WriterSteps Small fresh written
writer_enters_example = writer_enters Small fresh_reached refl fresh_zero

reader_enters_example :
    (rc : ℕ) × (t : ℕ) × (reading.ref_counts 1 ≡ some rc)
    × (reading.storage ≡ some t)
    × Small t
    × ReaderSteps reading (record reading {
      ref_counts = insert reading.ref_counts 1 (rc + 1);
      shared_guard = (1, t) ∷ reading.shared_guard;
    })
reader_enters_example = reader_enters Small 1 reading_reached refl (omega arith)
