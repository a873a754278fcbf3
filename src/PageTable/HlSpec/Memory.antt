-- ===== src/PageTable/HlSpec/Memory.antt =====
-- The memory that page-table/spec_t/hlspec.rs shows a process: which words it has, what changes
-- them, and that two addresses do not share one.
use native.Mathlib.Nat.{div-add-mod}
use mathlib.Core.Option.{some-injective}
use verified_nrkernel.Prelude.{
  ℕ, ◌+◌, ◌*◌, ◌<◌, ◌≡◌, ◌≢◌, refl, sym, ◌∙◌, ap, subst, Bool, true, inl, inr, Bool-cases, if_true,
  if_false, if_true_intro, Option-cases, Option, none, some, arith, is_some, insert, ℕ_discrete,
}
use verified_nrkernel.PageTable.Arch.{PageTableEntry, overlap, Aligned, Between}
use verified_nrkernel.PageTable.HlSpec.{
  AbstractConstants, AbstractArguments, AbstractVariables, AbstractStep, RwOp, Result, store, load,
  value, map, unmap, empty, read_write, map_start, map_end, unmap_start, unmap_end, stutter, IsInit,
  word_index, HasDomain, translate, MemDomainFromMappings, MemDomainFromEntryContains,
}
use verified_nrkernel.PageTable.HlSpec.Steps.{
  AccessAt, may_store, may_load, EndMap, StartUnmap, SoundStep, NextStep, Reach, start, next,
}
use verified_nrkernel.PageTable.HlSpec.Preserve.{reachable-Inv}

-- An address that is aligned to a word is that of its word.
word_address : (vaddr : ℕ) → Aligned vaddr 8 → word_index vaddr * 8 ≡ vaddr
word_address vaddr h = omega (arith, div-add-mod vaddr 8)

module _ (c : AbstractConstants) where
  init-HasDomain : {s : AbstractVariables} → IsInit c s → HasDomain c.phys_mem_size s.mappings s.mem
  init-HasDomain {s} i w = (
    λ h. absurd (cc (sym h ∙ ap is_some (ap (λ m. m w) i.no_mem))),
    λ (base, pte, h, _). absurd (cc (sym h ∙ ap (λ m. m base) i.no_mappings)),
  )

  -- A permitted store is to a word that is mapped.
  store-HasDomain :
      (mappings : ℕ → Option PageTableEntry) (mem : ℕ → Option ℕ) (vaddr new_value base : ℕ)
      (pte : PageTableEntry)
      → Aligned vaddr 8
      → mappings base ≡ some pte
      → Between vaddr base (base + pte.frame.size)
      → may_store c vaddr base pte ≡ true
      → HasDomain c.phys_mem_size mappings mem
      → HasDomain c.phys_mem_size mappings (insert mem (word_index vaddr) new_value)
  store-HasDomain mappings mem vaddr new_value base pte al h b p d w =
      elim (ℕ_discrete (word_index vaddr) w) [
        | yes e ↦ (
          λ _.
              let q : w * 8 ≡ vaddr = ap (λ j. j * 8) (sym e) ∙ word_address vaddr al in
              (
                base,
                pte,
                h,
                subst (λ a. MemDomainFromEntryContains c.phys_mem_size a base pte) (sym q)
                    (b, in_bounds),
              ),
          λ _. inserted e,
        )
        | no ne ↦ (λ k. (d w).0 (sym (kept ne) ∙ k), λ k. kept ne ∙ (d w).1 k)
      ]
    where
      in_bounds : word_index (translate vaddr base pte) < c.phys_mem_size
      in_bounds = ground arith

      inserted : word_index vaddr ≡ w → is_some (insert mem (word_index vaddr) new_value w) ≡ true
      inserted e = ground arith

      kept :
          word_index vaddr ≢ w
          → is_some (insert mem (word_index vaddr) new_value w) ≡ is_some (mem w)
      kept ne = ground arith

  module _ (s1 s2 : AbstractVariables) (d : HasDomain c.phys_mem_size s1.mappings s1.mem) where
    along :
        s2.mappings ≡ s1.mappings → s2.mem ≡ s1.mem → HasDomain c.phys_mem_size s2.mappings s2.mem
    along m k =
        subst (λ x. HasDomain c.phys_mem_size x s2.mem) (sym m)
          (subst (λ x. HasDomain c.phys_mem_size s1.mappings x) (sym k) d)

    Access-HasDomain :
        (vaddr : ℕ) (op : RwOp) (pte : Option (ℕ × PageTableEntry))
        → Aligned vaddr 8
        → s2.mappings ≡ s1.mappings
        → AccessAt c s1 s2 vaddr op pte
        → HasDomain c.phys_mem_size s2.mappings s2.mem
    Access-HasDomain vaddr op none al m h = along m h.1
    Access-HasDomain vaddr (load x r) (some (base, pte)) al m h = along m h.2.0
    Access-HasDomain vaddr (store n r) (some (base, pte)) al m h =
        elim (Bool-cases (may_store c vaddr base pte)) [
          | inl e ↦
              subst (λ x. HasDomain c.phys_mem_size x s2.mem) (sym m)
                (subst (λ x. HasDomain c.phys_mem_size s1.mappings x) (sym (if_true _ _ e h.2).1)
                  (store-HasDomain s1.mappings s1.mem vaddr n base pte al h.0 h.1 e d))
          | inr e ↦ along m (if_false _ _ e h.2).1
        ]

    EndMap-HasDomain :
        (result : Result) (a : Option AbstractArguments)
        → EndMap c s1 s2 result a
        → HasDomain c.phys_mem_size s2.mappings s2.mem
    EndMap-HasDomain result none h = elim h [ ]
    EndMap-HasDomain result (some (unmap vaddr pte)) h = elim h [ ]
    EndMap-HasDomain result (some empty) h = elim h [ ]
    EndMap-HasDomain result (some (map vaddr pte)) (inl (o, (r, m, k))) = along m k
    EndMap-HasDomain result (some (map vaddr pte)) (inr (o, (r, m, k, h))) = h

    StartUnmap-HasDomain :
        (vaddr : ℕ) (a : Option PageTableEntry)
        → StartUnmap c s1 s2 vaddr a
        → HasDomain c.phys_mem_size s2.mappings s2.mem
    StartUnmap-HasDomain vaddr none (m, k) = along m k
    StartUnmap-HasDomain vaddr (some pte) (m, h, k) = h

    SoundStep-HasDomain :
        (step : AbstractStep)
        → SoundStep c s1 s2 step
        → s2.sound ≡ true
        → HasDomain c.phys_mem_size s2.mappings s2.mem
    SoundStep-HasDomain (read_write tid vaddr op pte) (_, al, m, _, _, t, h) q =
        Access-HasDomain vaddr op pte al m h
    SoundStep-HasDomain (map_start tid vaddr pte) (en, lt, idle, inr (ns, u)) q =
        absurd (cc (sym q ∙ u))
    SoundStep-HasDomain (map_start tid vaddr pte) (en, lt, idle, inl (ns, (t, k, m, _))) q =
        along m k
    SoundStep-HasDomain (map_end tid result) (_, lt, t, h) q = EndMap-HasDomain result _ h
    SoundStep-HasDomain (unmap_start tid vaddr) (en, lt, idle, inr (ns, u)) q =
        absurd (cc (sym q ∙ u))
    SoundStep-HasDomain (unmap_start tid vaddr) (en, lt, idle, inl (ns, (t, h, _, _))) q =
        StartUnmap-HasDomain vaddr _ h
    SoundStep-HasDomain (unmap_end tid result) (lt, t, _, m, k, h) q = along m k
    SoundStep-HasDomain stutter e q = subst (λ s. HasDomain c.phys_mem_size s.mappings s.mem) e d

-- In every sound state that the process can see, the memory has exactly the words that lie under a
-- mapping and inside the physical memory.
pub reachable_mem_domain :
    {c : AbstractConstants} {s : AbstractVariables}
    → Reach c s
    → s.sound ≡ true
    → HasDomain c.phys_mem_size s.mappings s.mem
reachable_mem_domain {c} (start i) q = init-HasDomain c i
reachable_mem_domain {c} {s} (next {s1} step r h) q = elim (Bool-cases s1.sound) [
  | inl e ↦ SoundStep-HasDomain c s1 s (reachable_mem_domain r e) step (if_true _ _ e h) q
  | inr e ↦ absurd (cc (sym q ∙ if_false _ _ e h))
]

-- In a sound state that the process can see, an idle thread that loads from an aligned address under
-- a mapping, which its flags and the size of the physical memory allow, gets a value: the load is a
-- transition, and it changes nothing.
pub load_enabled :
    {c : AbstractConstants} {s : AbstractVariables} (thread_id vaddr base : ℕ)
    (pte : PageTableEntry) (is_exec : Bool)
    → Reach c s
    → s.sound ≡ true
    → thread_id < c.thread_no
    → s.thread_state thread_id ≡ some empty
    → Aligned vaddr 8
    → s.mappings base ≡ some pte
    → Between vaddr base (base + pte.frame.size)
    → may_load c vaddr base pte is_exec ≡ true
    → (v : ℕ) × NextStep c s s
        (read_write thread_id vaddr (load is_exec (value v)) (some (base, pte)))
load_enabled {c} {s} tid vaddr base pte is_exec r q lt idle al m b p =
    let w : word_index vaddr * 8 ≡ vaddr = word_address vaddr al in
    let here : MemDomainFromMappings c.phys_mem_size s.mappings (word_index vaddr) = (
      base,
      pte,
      m,
      subst (λ a. MemDomainFromEntryContains c.phys_mem_size a base pte) (sym w) (b, in_bounds),
    ) in
    let (v, e) = present ((reachable_mem_domain r q (word_index vaddr)).1 here) in
    (
      v,
      if_true_intro _ _ q
          (refl, al, refl, lt, idle, refl, (m, b, (refl, if_true_intro _ _ p (v, refl, e)))),
    )
  where
    in_bounds : word_index (translate vaddr base pte) < c.phys_mem_size
    in_bounds = ground arith

    present :
        is_some (s.mem (word_index vaddr)) ≡ true → (v : ℕ) × (s.mem (word_index vaddr) ≡ some v)
    present h = elim (Option-cases (s.mem (word_index vaddr))) [
      | inl e ↦ absurd (cc (sym h ∙ ap is_some e))
      | inr k ↦ k
    ]

-- In a sound state that the process can see, two addresses under mappings that translate to one
-- physical address are one address.
pub no_aliasing :
    {c : AbstractConstants} {s : AbstractVariables} (base1 base2 vaddr1 vaddr2 : ℕ)
    (p1 p2 : PageTableEntry)
    → Reach c s
    → s.sound ≡ true
    → s.mappings base1 ≡ some p1
    → s.mappings base2 ≡ some p2
    → Between vaddr1 base1 (base1 + p1.frame.size)
    → Between vaddr2 base2 (base2 + p2.frame.size)
    → translate vaddr1 base1 p1 ≡ translate vaddr2 base2 p2
    → vaddr1 ≡ vaddr2
no_aliasing {c} {s} base1 base2 vaddr1 vaddr2 p1 p2 r q m1 m2 b1 b2 h =
    let e : base1 ≡ base2 = (reachable-Inv r q).no_overlap base1 base2 p1 p2 m1 m2 meets in
    let k : p1 ≡ p2 = some-injective _ _ (sym m1 ∙ ap s.mappings e ∙ m2) in
    let f : p1.frame.base ≡ p2.frame.base = ap (λ p. p.frame.base) k in omega arith
  where
    meets : overlap p1.frame p2.frame ≡ true
    meets = ground arith
