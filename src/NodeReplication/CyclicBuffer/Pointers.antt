-- ===== src/NodeReplication/CyclicBuffer/Pointers.antt =====
-- spec/cyclicbuffer.rs: no transition puts the pointers out of order.
use mathlib.Core.Option.{some-injective}
use verified_nrkernel.Prelude.{
  ℕ, ◌+◌, ◌≤◌, ◌<◌, ◌≡◌, sym, ◌∙◌, ap, subst, inl, inr, Option, some, arith, insert, is_some,
  is_some-new_map, new_map-eq, insert-cases, ltb→lt, dec_lt,
}
use verified_nrkernel.NodeReplication.Dispatch.{NodeId, LogIdx}
use verified_nrkernel.NodeReplication.CyclicBuffer.{
  CyclicBuffer, starting, range, guard, idle, reading, advancing_head, advancing_tail, appending,
  min_version, IsInit, Step, reader_start, reader_enter, reader_guard, reader_unguard,
  reader_finish, reader_abort_starting, reader_abort_range, advance_head_start, advance_head_next,
  advance_head_finish, advance_head_abort, advance_tail_start, advance_tail_finish,
  advance_tail_abort, append_flip_bit, append_finish, Reach, start, next,
}
use verified_nrkernel.NodeReplication.CyclicBuffer.Invariant.{
  IsValid, Inv, raise_tail, raise_version, set_combiner, still_complete, only_combiner, version_of,
}

module _ {V : Type 0} (stored_type_inv : V → ℕ → Type 0) where
  init-Inv : {s : CyclicBuffer V} → IsInit stored_type_inv s → Inv s
  init-Inv {s} i = record {
    replicas_pos = i.replicas_pos;
    complete = λ k. ap (λ m. is_some (m k)) i.versions_zero ∙ is_some-new_map s.num_replicas 0 k;
    complete_combiner =
        λ k. ap (λ m. is_some (m k)) i.all_idle ∙ is_some-new_map s.num_replicas idle k;
    head_le = λ k v h. omega (arith, i.head_zero);
    le_tail = λ k v h. omega (arith, i.tail_zero, zero_at k v h);
    tail_le = λ k v h. omega (arith, i.tail_zero);
    valid = λ n cs h.
        subst (IsValid s.num_replicas s.buffer_size s.tail s.local_versions n)
          (sym (new_map-eq s.num_replicas idle n (sym (ap (λ m. m n) i.all_idle) ∙ h))) tt;
  }
    where
      zero_at : (k v : ℕ) → s.local_versions k ≡ some v → v ≡ 0
      zero_at k v h = new_map-eq s.num_replicas 0 k (sym (ap (λ m. m k) i.versions_zero) ∙ h)

  -- A reader at the end of its range makes the range's end its replica's version.
  reader_finish-Inv :
      {s : CyclicBuffer V} (n st en cur old : ℕ)
      → Inv s
      → s.combiner n ≡ some (reading (range st en cur))
      → s.local_versions n ≡ some old
      → Inv (record s {
        combiner = insert s.combiner n idle;
        local_versions = insert s.local_versions n en;
      })
  reader_finish-Inv {s} n st en cur old v e h =
      let (at, se, et, sc, ce) = v.valid n (reading (range st en cur)) e in
      let same : old ≡ st = some-injective _ _ (sym h ∙ at) in
      let le : old ≤ en = omega arith in
      record {
        replicas_pos = v.replicas_pos;
        complete = λ i. ground (arith, v.complete i);
        complete_combiner = still_complete s n (reading (range st en cur)) idle v e;
        head_le = λ i w g. elim (insert-cases s.local_versions n en i w g) [
          | inl p ↦ omega (arith, v.head_le n old h, p.1)
          | inr p ↦ v.head_le i w p.1
        ];
        le_tail = λ i w g. elim (insert-cases s.local_versions n en i w g) [
          | inl p ↦ omega (arith, p.1)
          | inr p ↦ v.le_tail i w p.1
        ];
        tail_le = λ i w g. elim (insert-cases s.local_versions n en i w g) [
          | inl p ↦ omega (arith, v.tail_le n old h, p.1)
          | inr p ↦ v.tail_le i w p.1
        ];
        valid = λ m c g. elim (insert-cases s.combiner n idle m c g) [
          | inl p ↦
              subst (IsValid s.num_replicas s.buffer_size s.tail (insert s.local_versions n en) m)
                p.1 tt
          | inr p ↦
              raise_version s.num_replicas s.buffer_size s.tail s.local_versions n old en m c h le
                p.0 (v.valid m c p.1)
        ];
      }

  advance_tail_finish-Inv :
      {s : CyclicBuffer V} (n observed_head new_tail : ℕ) (contents : ℕ → Option V)
      → Inv s
      → s.combiner n ≡ some (advancing_tail observed_head)
      → s.tail ≤ new_tail
      → new_tail ≤ observed_head + s.buffer_size
      → Inv (record s {
        combiner = insert s.combiner n (appending s.tail new_tail);
        tail = new_tail;
        contents = contents;
      })
  advance_tail_finish-Inv {s} n hd new_tail contents v e le room =
      let lt : n < s.num_replicas =
        ltb→lt n s.num_replicas (sym (v.complete_combiner n) ∙ ap is_some e) in
      let (w, at) = version_of v n lt in
      let seen = v.valid n (advancing_tail hd) e in
      record {
        replicas_pos = v.replicas_pos;
        complete = v.complete;
        complete_combiner = still_complete s n (advancing_tail hd) (appending s.tail new_tail) v e;
        head_le = v.head_le;
        le_tail = λ i x g. omega (arith, v.le_tail i x g);
        tail_le = λ i x g. omega (arith, seen i x g);
        valid = λ m c g. elim (insert-cases s.combiner n (appending s.tail new_tail) m c g) [
          | inl p ↦
              subst (λ k. IsValid s.num_replicas s.buffer_size new_tail s.local_versions k c) p.0
                (subst (IsValid s.num_replicas s.buffer_size new_tail s.local_versions n) p.1
                  ((w, at, v.le_tail n w at), le, omega arith))
          | inr p ↦
              raise_tail s.num_replicas s.buffer_size s.tail new_tail s.local_versions m c le
                (v.valid m c p.1)
        ];
      }

  advance_head_finish-Inv :
      {s : CyclicBuffer V} (n idx least : ℕ)
      → Inv s
      → s.combiner n ≡ some (advancing_head idx least)
      → idx ≡ s.num_replicas
      → Inv (record s { combiner = insert s.combiner n idle; head = least })
  advance_head_finish-Inv {s} n idx least v e full =
      let w = v.valid n (advancing_head idx least) e in
      record {
        replicas_pos = v.replicas_pos;
        complete = v.complete;
        complete_combiner = still_complete s n (advancing_head idx least) idle v e;
        head_le = λ i x g.
            let lt : i < s.num_replicas =
              ltb→lt i s.num_replicas (sym (v.complete i) ∙ ap is_some g) in
            w.2 i x (omega arith) g;
        le_tail = v.le_tail;
        tail_le = v.tail_le;
        valid = set_combiner s n idle v tt;
      }

  -- The least of the versions so far and the next.
  next_least :
      (versions : NodeId → Option LogIdx) (idx least at : ℕ)
      → versions idx ≡ some at
      → ((k v : ℕ) → k < idx → versions k ≡ some v → least ≤ v)
      → (k v : ℕ) → k < idx + 1
      → versions k ≡ some v
      → min_version least at ≤ v
  next_least versions idx least at e h k v lt g = elim (dec_lt k idx) [
    | yes below ↦ let x = h k v below g in ground arith
    | no ge ↦
        let q : k ≡ idx = omega arith in
        let x : v ≡ at = some-injective _ _ (sym g ∙ ap versions q ∙ e) in ground arith
  ]

  Step-Inv :
      {s : CyclicBuffer V} {n : NodeId} {t : CyclicBuffer V}
      → Step stored_type_inv s n t
      → Inv s
      → Inv t
  Step-Inv {n = n} (reader_start st h e) v = only_combiner n idle (reading (starting st)) v e h
  Step-Inv {s} {n = n} (reader_enter st e) v =
      let h = v.valid n (reading (starting st)) e in
      let le = v.le_tail n st h in
      only_combiner n (reading (starting st)) (reading (range st s.tail st)) v e
        (h, le, omega arith, omega arith, le)
  Step-Inv {n = n} (reader_guard st en cur val e lt b k) v =
      let h = v.valid n (reading (range st en cur)) e in
      only_combiner n (reading (range st en cur)) (reading (guard st en cur val)) v e
        (h.0, h.1, h.2, h.3, lt)
  Step-Inv {n = n} (reader_unguard st en cur val e) v =
      let h = v.valid n (reading (guard st en cur val)) e in
      only_combiner n (reading (guard st en cur val)) (reading (range st en (cur + 1))) v e
        (h.0, h.1, h.2, omega arith, omega arith)
  Step-Inv {n = n} (reader_finish st en cur old e h full) v =
      reader_finish-Inv n st en cur old v e h
  Step-Inv {n = n} (reader_abort_starting st e) v =
      only_combiner n (reading (starting st)) idle v e tt
  Step-Inv {n = n} (reader_abort_range st en cur e) v =
      only_combiner n (reading (range st en cur)) idle v e tt
  Step-Inv {s} {n = n} (advance_head_start at h e) v =
      only_combiner n idle (advancing_head 1 at) v e (
        v.replicas_pos,
        omega arith,
        λ k w lt g.
            let q : k ≡ 0 = omega arith in
            let x : w ≡ at = some-injective _ _ (sym g ∙ ap s.local_versions q ∙ h) in omega arith,
      )
  Step-Inv {s} {n = n} (advance_head_next idx least at e h lt) v =
      let w = v.valid n (advancing_head idx least) e in
      only_combiner n (advancing_head idx least) (advancing_head (idx + 1) (min_version least at)) v
        e (omega arith, omega arith, next_least s.local_versions idx least at h w.2)
  Step-Inv {n = n} (advance_head_finish idx least e full) v =
      advance_head_finish-Inv n idx least v e full
  Step-Inv {n = n} (advance_head_abort idx least e) v =
      only_combiner n (advancing_head idx least) idle v e tt
  Step-Inv {s} {n = n} (advance_tail_start e) v =
      only_combiner n idle (advancing_tail s.head) v e v.head_le
  Step-Inv {n = n} (advance_tail_finish hd new_tail e le room) v =
      advance_tail_finish-Inv n hd new_tail _ v e le room
  Step-Inv {n = n} (advance_tail_abort hd e) v = only_combiner n (advancing_tail hd) idle v e tt
  Step-Inv {s} {n = n} (append_flip_bit cur t bit d e b lt k) v =
      let h = v.valid n (appending cur t) e in
      let w =
        only_combiner n (appending cur t) (appending (cur + 1) t) v e
          ((h.0.0, h.0.1, omega (arith, h.0.2)), omega arith, h.2) in
      record {
        replicas_pos = w.replicas_pos;
        complete = w.complete;
        complete_combiner = w.complete_combiner;
        head_le = w.head_le;
        le_tail = w.le_tail;
        tail_le = w.tail_le;
        valid = w.valid;
      }
  Step-Inv {n = n} (append_finish cur t e full) v = only_combiner n (appending cur t) idle v e tt

  pub pointers-Inv : {s : CyclicBuffer V} → Reach stored_type_inv s → Inv s
  pointers-Inv (start i) = init-Inv i
  pointers-Inv (next n r st) = Step-Inv st (pointers-Inv r)

  -- In every reachable state, for each replica, the head is at most its version, which is at most the
  -- tail, which is at most the version and the size of the buffer: no entry that a replica has yet to
  -- read is given up for a new one.
  pub pointer_ordering :
      {s : CyclicBuffer V} (n v : ℕ)
      → Reach stored_type_inv s
      → s.local_versions n ≡ some v
      → (s.head ≤ v) × (v ≤ s.tail) × (s.tail ≤ v + s.buffer_size)
  pointer_ordering n v r h =
      let inv = pointers-Inv r in (inv.head_le n v h, inv.le_tail n v h, inv.tail_le n v h)

  -- In every reachable state, the entry that a combiner holds a guard of is one that its replica has
  -- yet to read, is below the tail, and is in the part of the log that the buffer holds.
  pub guard_in_buffer :
      {s : CyclicBuffer V} (n st en cur : ℕ) (val : V)
      → Reach stored_type_inv s
      → s.combiner n ≡ some (reading (guard st en cur val))
      → (s.local_versions n ≡ some st)
        × (st ≤ cur)
        × (cur < s.tail)
        × (s.tail ≤ cur + s.buffer_size)
  guard_in_buffer n st en cur val r e =
      let inv = pointers-Inv r in
      let (h, se, et, sc, ce) = inv.valid n (reading (guard st en cur val)) e in
      (h, sc, omega arith, omega (arith, inv.tail_le n st h))

  -- In every reachable state, a combiner that has seen the versions of all replicas, and so may set
  -- the head, has found a value that is at most each of them.
  pub advance_head_safe :
      {s : CyclicBuffer V} (n least i v : ℕ)
      → Reach stored_type_inv s
      → s.combiner n ≡ some (advancing_head s.num_replicas least)
      → s.local_versions i ≡ some v
      → least ≤ v
  advance_head_safe {s} n least i v r e h =
      let inv = pointers-Inv r in
      (inv.valid n (advancing_head s.num_replicas least) e).2 i v
        (ltb→lt i s.num_replicas (sym (inv.complete i) ∙ ap is_some h)) h
