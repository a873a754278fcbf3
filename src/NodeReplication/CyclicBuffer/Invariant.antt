-- ===== src/NodeReplication/CyclicBuffer/Invariant.antt =====
-- The order of the pointers of spec/cyclicbuffer.rs: the head, each replica's version and the tail.

use verified_nrkernel.Prelude.{
  ℕ, ◌+◌, ◌≤◌, ◌<◌, ◌≡◌, ◌≢◌, sym, ◌∙◌, ap, subst, inl, inr, Option, some, arith, ltb, insert,
  is_some, insert-cases, Option-cases,
}
use verified_nrkernel.NodeReplication.Dispatch.{NodeId, LogIdx}
use verified_nrkernel.NodeReplication.CyclicBuffer.{
  CyclicBuffer, starting, range, guard, CombinerState, idle, reading, advancing_head,
  advancing_tail, appending,
}

module _ {V : Type 0} where
  -- What a combiner's state says of the pointers: of `reader_state_valid` and `combiner_valid` what
  -- does not speak of the entries.
  abbrev pub IsValid :
      (num size : ℕ) → LogIdx → (NodeId → Option LogIdx) → NodeId → CombinerState V → Type 0
  IsValid num size tail versions n idle = Unit
  IsValid num size tail versions n (reading (starting st)) = versions n ≡ some st
  IsValid num size tail versions n (reading (range st en cur)) =
      (versions n ≡ some st) × (st ≤ en) × (en ≤ tail) × (st ≤ cur) × (cur ≤ en)
  IsValid num size tail versions n (reading (guard st en cur val)) =
      (versions n ≡ some st) × (st ≤ en) × (en ≤ tail) × (st ≤ cur) × (cur < en)
  IsValid num size tail versions n (advancing_head idx m) =
      (idx ≤ num) × (0 < idx) × ((k v : ℕ) → k < idx → versions k ≡ some v → m ≤ v)
  IsValid num size tail versions n (advancing_tail h) = (k v : ℕ) → versions k ≡ some v → h ≤ v
  IsValid num size tail versions n (appending cur t) =
      ((v : ℕ) × (versions n ≡ some v) × (v ≤ cur)) × (cur ≤ t) × (t ≤ tail)

  -- `complete` and `pointer_ordering`, with the validity of the combiners.
  pub record Inv (s : CyclicBuffer V) : Type 0 where
    pub replicas_pos : 0 < s.num_replicas
    pub complete : (i : ℕ) → is_some (s.local_versions i) ≡ ltb i s.num_replicas
    pub complete_combiner : (i : ℕ) → is_some (s.combiner i) ≡ ltb i s.num_replicas
    pub head_le : (i v : ℕ) → s.local_versions i ≡ some v → s.head ≤ v
    pub le_tail : (i v : ℕ) → s.local_versions i ≡ some v → v ≤ s.tail
    pub tail_le : (i v : ℕ) → s.local_versions i ≡ some v → s.tail ≤ v + s.buffer_size
    pub valid :
        (n : NodeId) (cs : CombinerState V)
        → s.combiner n ≡ some cs
        → IsValid s.num_replicas s.buffer_size s.tail s.local_versions n cs

  -- The tail may grow under a combiner's state.
  pub raise_tail :
      (num size tail tail' : ℕ) (versions : NodeId → Option LogIdx) (n : NodeId)
      (cs : CombinerState V)
      → tail ≤ tail'
      → IsValid num size tail versions n cs
      → IsValid num size tail' versions n cs
  raise_tail num size tail tail' versions n idle le h = tt
  raise_tail num size tail tail' versions n (reading (starting st)) le h = h
  raise_tail num size tail tail' versions n (reading (range st en cur)) le h =
      (h.0, h.1, omega arith, h.3, h.4)
  raise_tail num size tail tail' versions n (reading (guard st en cur val)) le h =
      (h.0, h.1, omega arith, h.3, h.4)
  raise_tail num size tail tail' versions n (advancing_head idx m) le h = h
  raise_tail num size tail tail' versions n (advancing_tail hd) le h = h
  raise_tail num size tail tail' versions n (appending cur t) le h = (h.0, h.1, omega arith)

  -- So may another replica's version.
  pub raise_version :
      (num size tail : ℕ) (versions : NodeId → Option LogIdx) (m old new : ℕ) (n : NodeId)
      (cs : CombinerState V)
      → versions m ≡ some old
      → old ≤ new
      → m ≢ n
      → IsValid num size tail versions n cs
      → IsValid num size tail (insert versions m new) n cs
  raise_version num size tail versions m old new n cs e le ne h = go cs h
    where
      kept : insert versions m new n ≡ versions n
      kept = ground arith

      above :
          (b k v : ℕ)
          → ((w : ℕ) → versions k ≡ some w → b ≤ w)
          → insert versions m new k ≡ some v
          → b ≤ v
      above b k v f g = elim (insert-cases versions m new k v g) [
        | inl p ↦ let x = f old (ap versions (sym p.0) ∙ e) in omega (arith, p.1)
        | inr p ↦ f v p.1
      ]

      go :
          (cs : CombinerState V)
          → IsValid num size tail versions n cs
          → IsValid num size tail (insert versions m new) n cs
      go idle h = tt
      go (reading (starting st)) h = kept ∙ h
      go (reading (range st en cur)) h = (kept ∙ h.0, h.1, h.2, h.3, h.4)
      go (reading (guard st en cur val)) h = (kept ∙ h.0, h.1, h.2, h.3, h.4)
      go (advancing_head idx b) h = (h.0, h.1, λ k v lt. above b k v (λ w. h.2 k w lt))
      go (advancing_tail b) h = λ k v. above b k v (λ w. h k w)
      go (appending cur t) h = ((h.0.0, kept ∙ h.0.1, h.0.2), h.1, h.2)

  -- A combiner changes its own state and no pointer.
  pub set_combiner :
      (s : CyclicBuffer V) (n : NodeId) (cs : CombinerState V)
      → Inv s
      → IsValid s.num_replicas s.buffer_size s.tail s.local_versions n cs
      → (m : NodeId) (c : CombinerState V) → insert s.combiner n cs m ≡ some c
      → IsValid s.num_replicas s.buffer_size s.tail s.local_versions m c
  set_combiner s n cs v h m c e = elim (insert-cases s.combiner n cs m c e) [
    | inl p ↦
        subst (λ k. IsValid s.num_replicas s.buffer_size s.tail s.local_versions k c) p.0
          (subst (IsValid s.num_replicas s.buffer_size s.tail s.local_versions n) p.1 h)
    | inr p ↦ v.valid m c p.1
  ]

  pub still_complete :
      (s : CyclicBuffer V) (n : NodeId) (old cs : CombinerState V)
      → Inv s
      → s.combiner n ≡ some old
      → (i : ℕ) → is_some (insert s.combiner n cs i) ≡ ltb i s.num_replicas
  still_complete s n old cs v e i = ground (arith, v.complete_combiner i)

  pub only_combiner :
      {s : CyclicBuffer V} (n : NodeId) (old cs : CombinerState V)
      → Inv s
      → s.combiner n ≡ some old
      → IsValid s.num_replicas s.buffer_size s.tail s.local_versions n cs
      → Inv (record s { combiner = insert s.combiner n cs })
  only_combiner {s} n old cs v e h = record {
    replicas_pos = v.replicas_pos;
    complete = v.complete;
    complete_combiner = still_complete s n old cs v e;
    head_le = v.head_le;
    le_tail = v.le_tail;
    tail_le = v.tail_le;
    valid = set_combiner s n cs v h;
  }

  pub version_of :
      {s : CyclicBuffer V}
      → Inv s
      → (i : ℕ) → i < s.num_replicas
      → (v : ℕ) × (s.local_versions i ≡ some v)
  version_of {s} v i lt = elim (Option-cases (s.local_versions i)) [
    | inl e ↦ absurd (ground (arith, v.complete i))
    | inr p ↦ p
  ]
