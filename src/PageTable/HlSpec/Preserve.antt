-- ===== src/PageTable/HlSpec/Preserve.antt =====
-- Every transition of page-table/spec_t/hlspec.rs keeps its invariant.
use verified_nrkernel.Prelude.{
  ℕ, ◌<◌, ◌≡◌, refl, sym, ◌∙◌, ap, subst, Bool, true, false, inl, inr, Bool-cases, if_true,
  if_false, Option, none, some, arith, ltb, is_some, insert,
}
use verified_nrkernel.PageTable.Arch.{PageTableEntry}
use verified_nrkernel.PageTable.HlSpec.{
  AbstractConstants, AbstractArguments, AbstractVariables, AbstractStep, RwOp, Result, store, load,
  map, unmap, empty, read_write, map_start, map_end, unmap_start, unmap_end, stutter, IsFinite,
  IsInit, word_index,
}
use verified_nrkernel.PageTable.HlSpec.Steps.{
  AccessAt, may_store, EndMap, StepMapEnabled, StartUnmap, SoundStep, NextStep, Reach, start, next,
}
use verified_nrkernel.PageTable.HlSpec.Invariant.{Inv, Core, Inv-Core, Core-Inv}
use verified_nrkernel.PageTable.HlSpec.Change.{set_thread, remove_mapping, insert_mapping}
use verified_nrkernel.PageTable.HlSpec.Finite.{insert-IsFinite, remove-IsFinite, HasDomain-IsFinite}

Core-along :
    {t t' : ℕ → Option AbstractArguments} {m m' : ℕ → Option PageTableEntry}
    → t' ≡ t
    → m' ≡ m
    → Core t m
    → Core t' m'
Core-along {t} {m' = m'} e k v = subst (λ x. Core x m') (sym e) (subst (Core t) (sym k) v)

false_of : (b : Bool) → ¬ (b ≡ true) → b ≡ false
false_of true n = absurd (n refl)
false_of false n = refl

-- An idle process has nothing in flight.
pub idle_threads :
    {c : AbstractConstants} {s : AbstractVariables}
    → IsInit c s
    → (id : ℕ) (a : AbstractArguments) → s.thread_state id ≡ some a
    → a ≡ empty
idle_threads {c} i id a h = ground (arith, i.all_empty id, i.well_formed.threads id)

-- The invariant holds at first.
pub init_implies-Inv : {c : AbstractConstants} {s : AbstractVariables} → IsInit c s → Inv c s
init_implies-Inv {c} {s} i = Core-Inv i.well_formed (record {
  no_overlap = λ b1 b2 p1 p2 h. absurd (none_of b1 p1 h);
  existing = λ id va p h. absurd (cc (idle_threads i id (map va p) h));
  inflight = λ id1 id2 va p b ne h. absurd (cc (idle_threads i id1 (map va p) h));
  frame_sizes = λ b p h. absurd (none_of b p h);
  inflight_sizes = λ id va p h. absurd (cc (idle_threads i id (map va p) h));
})
  where
    none_of : (b : ℕ) (p : PageTableEntry) → ¬ (s.mappings b ≡ some p)
    none_of b p h = cc (sym h ∙ ap (λ m. m b) i.no_mappings)

enabled_size :
    (c : AbstractConstants) (vaddr : ℕ) (pte : PageTableEntry)
    → StepMapEnabled c vaddr pte
    → 0 < pte.frame.size
enabled_size c vaddr pte h = elim h.4 [
  | inl e ↦ rw e (omega arith)
  | inr (inl e) ↦ rw e (omega arith)
  | inr (inr e) ↦ rw e (omega arith)
]

module _ (c : AbstractConstants) (s1 s2 : AbstractVariables) (v : Inv c s1) where
  threads_along :
      s2.thread_state ≡ s1.thread_state
      → (id : ℕ) → is_some (s2.thread_state id) ≡ ltb id c.thread_no
  threads_along e id = ap (λ t. is_some (t id)) e ∙ v.well_formed.threads id

  threads_insert :
      (tid : ℕ) (a : AbstractArguments)
      → tid < c.thread_no
      → s2.thread_state ≡ insert s1.thread_state tid a
      → (id : ℕ) → is_some (s2.thread_state id) ≡ ltb id c.thread_no
  threads_insert tid a lt e id = ap (λ t. is_some (t id)) e ∙ inserted (v.well_formed.threads id)
    where
      inserted :
          is_some (s1.thread_state id) ≡ ltb id c.thread_no
          → is_some (insert s1.thread_state tid a id) ≡ ltb id c.thread_no
      inserted h = ground arith

  mem_along : s2.mem ≡ s1.mem → IsFinite s2.mem
  mem_along e = subst IsFinite (sym e) v.well_formed.finite_mem

  mappings_along : s2.mappings ≡ s1.mappings → IsFinite s2.mappings
  mappings_along e = subst IsFinite (sym e) v.well_formed.finite_mappings

  Access-IsFinite :
      (vaddr : ℕ) (op : RwOp) (pte : Option (ℕ × PageTableEntry))
      → AccessAt c s1 s2 vaddr op pte
      → IsFinite s2.mem
  Access-IsFinite vaddr op none h = mem_along h.1
  Access-IsFinite vaddr (load x r) (some (base, pte)) h = mem_along h.2.0
  Access-IsFinite vaddr (store n r) (some (base, pte)) h =
      elim (Bool-cases (may_store c vaddr base pte)) [
        | inl e ↦
            subst IsFinite (sym (if_true _ _ e h.2).1)
              (insert-IsFinite s1.mem (word_index vaddr) n v.well_formed.finite_mem)
        | inr e ↦ mem_along (if_false _ _ e h.2).1
      ]

  EndMap-Inv :
      (tid : ℕ) (result : Result) (a : Option AbstractArguments)
      → s1.thread_state tid ≡ a
      → tid < c.thread_no
      → s2.thread_state ≡ insert s1.thread_state tid empty
      → EndMap c s1 s2 result a
      → Inv c s2
  EndMap-Inv tid result none e lt t h = elim h [ ]
  EndMap-Inv tid result (some (unmap vaddr pte)) e lt t h = elim h [ ]
  EndMap-Inv tid result (some empty) e lt t h = elim h [ ]
  EndMap-Inv tid result (some (map vaddr pte)) e lt t (inl (o, (r, m, k))) =
      Core-Inv
        (record {
          threads = threads_insert tid empty lt t;
          finite_mappings = mappings_along m;
          finite_mem = mem_along k;
        })
        (Core-along t m (set_thread (Inv-Core v) tid empty tt))
  EndMap-Inv tid result (some (map vaddr pte)) e lt t (inr (o, (r, m, k, d))) =
      let fin : IsFinite s2.mappings =
        subst IsFinite (sym m)
          (insert-IsFinite s1.mappings vaddr pte v.well_formed.finite_mappings) in
      Core-Inv
        (record {
          threads = threads_insert tid empty lt t;
          finite_mappings = fin;
          finite_mem = HasDomain-IsFinite c.phys_mem_size s2.mappings s2.mem d fin;
        })
        (Core-along t m (insert_mapping (Inv-Core v) tid vaddr pte e))

  StartUnmap-Inv :
      (tid vaddr : ℕ) (a : Option PageTableEntry)
      → s1.mappings vaddr ≡ a
      → tid < c.thread_no
      → s2.thread_state ≡ insert s1.thread_state tid (unmap vaddr a)
      → StartUnmap c s1 s2 vaddr a
      → Inv c s2
  StartUnmap-Inv tid vaddr none e lt t (m, k) =
      Core-Inv
        (record {
          threads = threads_insert tid (unmap vaddr none) lt t;
          finite_mappings = mappings_along m;
          finite_mem = mem_along k;
        })
        (Core-along t m (set_thread (Inv-Core v) tid (unmap vaddr none) tt))
  StartUnmap-Inv tid vaddr (some pte) e lt t (m, d, k) =
      let fin : IsFinite s2.mappings =
        subst IsFinite (sym m) (remove-IsFinite s1.mappings vaddr v.well_formed.finite_mappings) in
      Core-Inv
        (record {
          threads = threads_insert tid (unmap vaddr (some pte)) lt t;
          finite_mappings = fin;
          finite_mem = HasDomain-IsFinite c.phys_mem_size s2.mappings s2.mem d fin;
        })
        (Core-along t m
          (remove_mapping (set_thread (Inv-Core v) tid (unmap vaddr (some pte)) e) vaddr))

  SoundStep-Inv : (step : AbstractStep) → SoundStep c s1 s2 step → s2.sound ≡ true → Inv c s2
  SoundStep-Inv (read_write tid vaddr op pte) (_, _, m, _, _, t, h) q =
      Core-Inv
        (record {
          threads = threads_along t;
          finite_mappings = mappings_along m;
          finite_mem = Access-IsFinite vaddr op pte h;
        })
        (Core-along t m (Inv-Core v))
  SoundStep-Inv (map_start tid vaddr pte) (en, lt, idle, inr (ns, u)) q = absurd (cc (sym q ∙ u))
  SoundStep-Inv (map_start tid vaddr pte) (en, lt, idle, inl ((nv, np, ni), (t, k, m, _))) q =
      Core-Inv
        (record {
          threads = threads_insert tid (map vaddr pte) lt t;
          finite_mappings = mappings_along m;
          finite_mem = mem_along k;
        })
        (Core-along t m (
          set_thread (Inv-Core v) tid (map vaddr pte) (
            enabled_size c vaddr pte en,
            λ b p h. false_of _ (λ o. np (b, p, h, o)),
            λ id b ne h o. ni (b, (id, h), o),
          )))
  SoundStep-Inv (map_end tid result) (_, lt, t, h) q = EndMap-Inv tid result _ refl lt t h
  SoundStep-Inv (unmap_start tid vaddr) (en, lt, idle, inr (ns, u)) q = absurd (cc (sym q ∙ u))
  SoundStep-Inv (unmap_start tid vaddr) (en, lt, idle, inl (ns, (t, h, d, _))) q =
      StartUnmap-Inv tid vaddr _ refl lt t h
  SoundStep-Inv (unmap_end tid result) (lt, t, _, m, k, h) q =
      Core-Inv
        (record {
          threads = threads_insert tid empty lt t;
          finite_mappings = mappings_along m;
          finite_mem = mem_along k;
        })
        (Core-along t m (set_thread (Inv-Core v) tid empty tt))
  SoundStep-Inv stutter e q = subst (Inv c) e v

-- A transition from a state whose invariant holds if it is sound leads to a state whose invariant
-- holds if it is sound.
pub NextStep-preserves_Inv :
    {c : AbstractConstants} {s1 s2 : AbstractVariables} (step : AbstractStep)
    → NextStep c s1 s2 step
    → (s1.sound ≡ true → Inv c s1)
    → s2.sound ≡ true
    → Inv c s2
NextStep-preserves_Inv {c} {s1} {s2} step h v q = elim (Bool-cases s1.sound) [
  | inl e ↦ SoundStep-Inv c s1 s2 (v e) step (if_true _ _ e h) q
  | inr e ↦ absurd (cc (sym q ∙ if_false _ _ e h))
]

-- The invariant holds in every state that the process can see and that is sound.
pub reachable-Inv :
    {c : AbstractConstants} {s : AbstractVariables} → Reach c s → s.sound ≡ true → Inv c s
reachable-Inv (start i) q = init_implies-Inv i
reachable-Inv (next step r h) q = NextStep-preserves_Inv step h (reachable-Inv r) q
