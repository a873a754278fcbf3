-- ===== src/NodeReplication/CyclicBuffer/Tests.antt =====
-- A run of the buffer of spec/cyclicbuffer.rs with four entries and two replicas: replica 0 appends an
-- entry and reads it, and then looks for the least version.
use verified_nrkernel.Prelude.{
  ℕ, zero, suc, not, ◌+◌, ◌≤◌, ◌<◌, ◌≡◌, refl, true, false, some, arith, insert, new_map,
  is_some-new_map,
}
use verified_nrkernel.NodeReplication.CyclicBuffer.{
  CyclicBuffer, starting, range, guard, idle, reading, advancing_head, advancing_tail, appending,
  withdraw, log_entry_alive_value, IsInit, reader_start, reader_enter, reader_guard, reader_unguard,
  reader_finish, advance_tail_start, advance_tail_finish, advance_head_start, advance_head_next,
  append_flip_bit, append_finish, Reach, start, next,
}
use verified_nrkernel.NodeReplication.CyclicBuffer.Pointers.{
  pointer_ordering, guard_in_buffer, advance_head_safe,
}

-- Any stored entry is good.
abbrev Any : ℕ → ℕ → Type 0
Any v k = Unit

abbrev fresh : CyclicBuffer ℕ
fresh = record {
  buffer_size = 4;
  num_replicas = 2;
  head = 0;
  tail = 0;
  local_versions = new_map 2 0;
  contents = new_map 4 9;
  alive_bits = new_map 4 false;
  combiner = new_map 2 idle;
}

abbrev looking : CyclicBuffer ℕ
looking = record fresh { combiner = insert fresh.combiner 0 (advancing_tail 0) }

abbrev room : CyclicBuffer ℕ
room = record looking {
  combiner = insert looking.combiner 0 (appending 0 1);
  tail = 1;
  contents = withdraw looking.contents 0 1;
}

abbrev filled : CyclicBuffer ℕ
filled = record room {
  combiner = insert room.combiner 0 (appending 1 1);
  alive_bits = insert room.alive_bits 0 true;
  contents = insert room.contents 4 7;
}

abbrev appended : CyclicBuffer ℕ
appended = record filled { combiner = insert filled.combiner 0 idle }

abbrev started : CyclicBuffer ℕ
started = record appended { combiner = insert appended.combiner 0 (reading (starting 0)) }

abbrev entered : CyclicBuffer ℕ
entered = record started { combiner = insert started.combiner 0 (reading (range 0 1 0)) }

abbrev guarded : CyclicBuffer ℕ
guarded = record entered { combiner = insert entered.combiner 0 (reading (guard 0 1 0 7)) }

abbrev unguarded : CyclicBuffer ℕ
unguarded = record guarded { combiner = insert guarded.combiner 0 (reading (range 0 1 1)) }

abbrev finished : CyclicBuffer ℕ
finished = record unguarded {
  combiner = insert unguarded.combiner 0 idle;
  local_versions = insert unguarded.local_versions 0 1;
}

abbrev first : CyclicBuffer ℕ
first = record finished { combiner = insert finished.combiner 0 (advancing_head 1 1) }

abbrev least : CyclicBuffer ℕ
least = record first { combiner = insert first.combiner 0 (advancing_head 2 0) }

fresh-IsInit : IsInit Any fresh
unfolding new_map
fresh-IsInit = record {
  replicas_pos = omega arith;
  head_zero = refl;
  tail_zero = refl;
  versions_zero = refl;
  contents_domain = is_some-new_map 4 9;
  contents_meet = λ k v h. tt;
  bits_domain = is_some-new_map 4 false;
  bits_dead = dead;
  all_idle = refl;
}
  where
    dead : (i : ℕ) → i < 4 → fresh.alive_bits i ≡ some (not (log_entry_alive_value i 4))
    dead zero h = refl
    dead (suc zero) h = refl
    dead (suc (suc zero)) h = refl
    dead (suc (suc (suc zero))) h = refl
    dead (suc (suc (suc (suc i)))) h = absurd (omega arith)

appended_reached : Reach Any appended
unfolding new_map
appended_reached =
    next {s = filled} 0
      (next {s = room} 0
        (next {s = looking} 0 (next {s = fresh} 0 (start fresh-IsInit) (advance_tail_start refl))
          (advance_tail_finish 0 1 refl (omega arith) (omega arith)))
        (append_flip_bit 0 1 false 7 refl refl (omega arith) tt))
      (append_finish 1 1 refl refl)

guarded_reached : Reach Any guarded
unfolding new_map
guarded_reached =
    next {s = entered} 0
      (next {s = started} 0 (next {s = appended} 0 appended_reached (reader_start 0 refl refl))
        (reader_enter 0 refl))
      (reader_guard 0 1 0 7 refl (omega arith) refl refl)

least_reached : Reach Any least
unfolding new_map
least_reached =
    next {s = first} 0
      (next {s = finished} 0
        (next {s = unguarded} 0 (next {s = guarded} 0 guarded_reached (reader_unguard 0 1 0 7 refl))
          (reader_finish 0 1 1 0 refl refl refl))
        (advance_head_start 1 refl refl))
      (advance_head_next 1 1 0 refl refl (omega arith))

pointer_ordering_example : (0 ≤ 1) × (1 ≤ 1) × (1 ≤ 1 + 4)
pointer_ordering_example = pointer_ordering Any {s = least} 0 1 least_reached refl

guard_in_buffer_example : (guarded.local_versions 0 ≡ some 0) × (0 ≤ 0) × (0 < 1) × (1 ≤ 0 + 4)
guard_in_buffer_example = guard_in_buffer Any 0 0 1 0 7 guarded_reached refl

advance_head_safe_example : 0 ≤ 1
advance_head_safe_example = advance_head_safe Any 0 0 0 1 least_reached refl refl
