-- ===== src/NodeReplication/CyclicBuffer.antt =====
-- verified-node-replication/verified-node-replication/src/spec/cyclicbuffer.rs: the buffer that holds
-- the end of the log. A combiner reads the entries from its replica's version on, advances the head
-- to the least version, or takes room at the tail and fills it.
--
-- The logical index of an entry begins at `-buffer_size` in the source; `contents` has it raised by
-- `buffer_size`. The type of a stored entry and what holds of it (`stored_type_inv`) are parameters.
-- That the entries that `advance_tail_finish` withdraws are there is an obligation of the source, and
-- no premise here; that the entry which `reader_guard` reads is there is a premise.
pub mod Invariant
pub mod Pointers
pub mod Tests
use verified_nrkernel.Prelude.{
  ℕ, ◌+◌, ◌-◌, ◌*◌, ◌/◌, ◌%◌, ◌≤◌, ◌<◌, ◌≡◌, Bool, true, false, not, ◌&&◌, Option, none, some, ltb,
  leb, ◌==◌, if◌then◌else◌, insert, new_map, is_some,
}
use verified_nrkernel.NodeReplication.Dispatch.{NodeId, LogIdx}

-- The index of an entry in the buffer, and the value of its bit when it is alive.
abbrev pub log_entry_idx : LogIdx → ℕ → LogIdx
log_entry_idx logical buffer_size = logical % buffer_size

abbrev pub log_entry_alive_value : LogIdx → ℕ → Bool
log_entry_alive_value logical buffer_size = (logical / buffer_size) % 2 == 0

abbrev pub min_version : LogIdx → LogIdx → LogIdx
min_version x y = if ltb x y then x else y

pub data ReaderState (V : Type 0) : Type 0 where
  starting : LogIdx → ReaderState V
  range : (start end cur : LogIdx) → ReaderState V
  guard : (start end cur : LogIdx) → V → ReaderState V

pub data CombinerState (V : Type 0) : Type 0 where
  idle : CombinerState V
  reading : ReaderState V → CombinerState V
  advancing_head : (idx min_local_version : LogIdx) → CombinerState V
  advancing_tail : (observed_head : LogIdx) → CombinerState V
  appending : (cur_idx tail : LogIdx) → CombinerState V

pub record CyclicBuffer (V : Type 0) : Type 0 where
  pub buffer_size : ℕ
  pub num_replicas : ℕ
  pub head : LogIdx
  pub tail : LogIdx
  pub local_versions : NodeId → Option LogIdx
  pub contents : ℕ → Option V
  pub alive_bits : LogIdx → Option Bool
  pub combiner : NodeId → Option (CombinerState V)

-- The contents without the entries from `lo` to `hi`.
abbrev pub withdraw : {V : Type 0} → (ℕ → Option V) → ℕ → ℕ → (ℕ → Option V)
withdraw m lo hi k = if leb lo k && ltb k hi then none else m k

module _ {V : Type 0} (stored_type_inv : V → ℕ → Type 0) where
  pub record IsInit (s : CyclicBuffer V) : Type 0 where
    pub replicas_pos : 0 < s.num_replicas
    pub head_zero : s.head ≡ 0
    pub tail_zero : s.tail ≡ 0
    pub versions_zero : s.local_versions ≡ new_map s.num_replicas 0
    pub contents_domain : (k : ℕ) → is_some (s.contents k) ≡ ltb k s.buffer_size
    pub contents_meet : (k : ℕ) (v : V) → s.contents k ≡ some v → stored_type_inv v k
    pub bits_domain : (i : LogIdx) → is_some (s.alive_bits i) ≡ ltb i s.buffer_size
    pub bits_dead :
        (i : LogIdx)
        → i < s.buffer_size
        → s.alive_bits i ≡ some (not (log_entry_alive_value i s.buffer_size))
    pub all_idle : s.combiner ≡ new_map s.num_replicas idle

  pub data Step (s : CyclicBuffer V) (node_id : NodeId) : CyclicBuffer V → Type 0 where
    reader_start :
        (local_head : LogIdx)
        → s.local_versions node_id ≡ some local_head
        → s.combiner node_id ≡ some idle
        → Step s node_id
            (record s { combiner = insert s.combiner node_id (reading (starting local_head)) })
    reader_enter :
        (start : LogIdx)
        → s.combiner node_id ≡ some (reading (starting start))
        → Step s node_id
            (record s { combiner = insert s.combiner node_id (reading (range start s.tail start)) })
    reader_guard :
        (start end cur : LogIdx) (val : V)
        → s.combiner node_id ≡ some (reading (range start end cur))
        → cur < end
        → s.alive_bits (log_entry_idx cur s.buffer_size)
          ≡ some (log_entry_alive_value cur s.buffer_size)
        → s.contents (cur + s.buffer_size) ≡ some val
        → Step s node_id
            (record s { combiner = insert s.combiner node_id (reading (guard start end cur val)) })
    reader_unguard :
        (start end cur : LogIdx) (val : V)
        → s.combiner node_id ≡ some (reading (guard start end cur val))
        → Step s node_id (record s {
          combiner = insert s.combiner node_id (reading (range start end (cur + 1)));
        })
    reader_finish :
        (start end cur old : LogIdx)
        → s.combiner node_id ≡ some (reading (range start end cur))
        → s.local_versions node_id ≡ some old
        → cur ≡ end
        → Step s node_id (record s {
          combiner = insert s.combiner node_id idle;
          local_versions = insert s.local_versions node_id end;
        })
    reader_abort_starting :
        (start : LogIdx)
        → s.combiner node_id ≡ some (reading (starting start))
        → Step s node_id (record s { combiner = insert s.combiner node_id idle })
    reader_abort_range :
        (start end cur : LogIdx)
        → s.combiner node_id ≡ some (reading (range start end cur))
        → Step s node_id (record s { combiner = insert s.combiner node_id idle })
    advance_head_start :
        (local_head_0 : LogIdx)
        → s.local_versions 0 ≡ some local_head_0
        → s.combiner node_id ≡ some idle
        → Step s node_id
            (record s { combiner = insert s.combiner node_id (advancing_head 1 local_head_0) })
    advance_head_next :
        (idx min_local_version local_head_at_idx : LogIdx)
        → s.combiner node_id ≡ some (advancing_head idx min_local_version)
        → s.local_versions idx ≡ some local_head_at_idx
        → idx < s.num_replicas
        → Step s node_id (record s {
          combiner =
              insert s.combiner node_id
                (advancing_head (idx + 1) (min_version min_local_version local_head_at_idx));
        })
    advance_head_finish :
        (idx min_local_version : LogIdx)
        → s.combiner node_id ≡ some (advancing_head idx min_local_version)
        → idx ≡ s.num_replicas
        → Step s node_id
            (record s { combiner = insert s.combiner node_id idle; head = min_local_version })
    advance_head_abort :
        (idx min_local_version : LogIdx)
        → s.combiner node_id ≡ some (advancing_head idx min_local_version)
        → Step s node_id (record s { combiner = insert s.combiner node_id idle })
    advance_tail_start :
        s.combiner node_id ≡ some idle
        → Step s node_id (record s { combiner = insert s.combiner node_id (advancing_tail s.head) })
    advance_tail_finish :
        (observed_head new_tail : LogIdx)
        → s.combiner node_id ≡ some (advancing_tail observed_head)
        → s.tail ≤ new_tail
        → new_tail ≤ observed_head + s.buffer_size
        → Step s node_id (record s {
          combiner = insert s.combiner node_id (appending s.tail new_tail);
          tail = new_tail;
          contents = withdraw s.contents s.tail new_tail;
        })
    advance_tail_abort :
        (observed_head : LogIdx)
        → s.combiner node_id ≡ some (advancing_tail observed_head)
        → Step s node_id (record s { combiner = insert s.combiner node_id idle })
    append_flip_bit :
        (cur_idx tail : LogIdx) (bit : Bool) (deposited : V)
        → s.combiner node_id ≡ some (appending cur_idx tail)
        → s.alive_bits (log_entry_idx cur_idx s.buffer_size) ≡ some bit
        → cur_idx < tail
        → stored_type_inv deposited (cur_idx + s.buffer_size)
        → Step s node_id (record s {
          combiner = insert s.combiner node_id (appending (cur_idx + 1) tail);
          alive_bits =
              insert s.alive_bits
                (log_entry_idx cur_idx s.buffer_size)
                (log_entry_alive_value cur_idx s.buffer_size);
          contents = insert s.contents (cur_idx + s.buffer_size) deposited;
        })
    append_finish :
        (cur_idx tail : LogIdx)
        → s.combiner node_id ≡ some (appending cur_idx tail)
        → cur_idx ≡ tail
        → Step s node_id (record s { combiner = insert s.combiner node_id idle })

  pub data Reach : CyclicBuffer V → Type 0 where
    start : {s : CyclicBuffer V} → IsInit s → Reach s
    next : {s t : CyclicBuffer V} (node_id : NodeId) → Reach s → Step s node_id t → Reach t
