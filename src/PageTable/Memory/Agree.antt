-- ===== src/PageTable/Memory/Agree.antt =====
-- page-table/impl_u/l2_impl.rs and spec_t/hardware.rs: where the implementation's lookup finds a page,
-- the walk of the memory management unit from the page's first address arrives at the same page.
use verified_nrkernel.Prelude.{
  ℕ, ◌+◌, ◌-◌, ◌*◌, ◌/◌, ◌%◌, ◌≤◌, ◌<◌, ◌≡◌, inl, inr, refl, sym, ◌∙◌, ap, ap₂, subst, none, some,
  Bool, true, false, not, Bool-cases, arith,
}
use mathlib.Core.Option.{some-injective}
use verified_nrkernel.PageTable.Arch.{Flags, PageTableEntry, permissive_flags, entry_size, max_base}
use verified_nrkernel.PageTable.Hardware.{
  Word, as_nat, bit, bit_and, has, mask_addr, mask_l3_pg_addr, mask_l2_pg_addr, mask_l1_pg_addr,
  page_view,
}
use verified_nrkernel.PageTable.Hardware.Walk.{
  l0_bits, l1_bits, l2_bits, l3_bits, first_flags, more_flags, mapped_page, read_entry, walk_l3,
  walk_l2, walk_l1, walk_l0, pt_walk,
}
use verified_nrkernel.PageTable.Entry.{flags}
use verified_nrkernel.PageTable.Entry.Reading.{
  view_0, view_1_page, view_1_directory, view_2_page, view_2_directory, view_3, address_1,
  address_2,
}
use verified_nrkernel.PageTable.Memory.{PageTableMemory, spec_read}
use verified_nrkernel.PageTable.Memory.Resolve.{EntryInv, InvAt, resolve_aux, resolve}

-- The first address of a page is mapped.
mapped_first :
    (addr size : ℕ) (a : Word) (f : Flags)
    → addr % size ≡ 0
    → mapped_page addr size a f
      ≡ some (record { frame = record { base = as_nat a; size = size }; flags = f })
mapped_first addr size a f h = rw (h) refl

abbrev the_page : Word → ℕ → Flags → PageTableEntry
the_page a size f = record { frame = record { base = as_nat a; size = size }; flags = f }

abbrev the_flags : Bool → Bool → Bool → Flags
the_flags w s x = record { is_writable = w; is_supervisor = s; disable_execute = x }

-- A directory with the most permissive flags leaves those of the path as they are.
permissive_step :
    {w u x : Bool}
    → w ≡ true
    → u ≡ true
    → x ≡ false
    → more_flags permissive_flags w u x ≡ permissive_flags
permissive_step {w} {u} {x} h1 h2 h3 =
    ap₂ (λ a b. the_flags a (not b) x) h1 h2 ∙ ap (λ c. the_flags true false c) h3

permissive_first :
    {w u x : Bool} → w ≡ true → u ≡ true → x ≡ false → first_flags w u x ≡ permissive_flags
permissive_first {w} {u} {x} h1 h2 h3 =
    ap₂ (λ a b. the_flags a (not b) x) h1 h2 ∙ ap (λ c. the_flags true false c) h3

module _ (m : ℕ) (mem : PageTableMemory) where
  abbrev Found3 : ℕ → ℕ → ℕ × PageTableEntry → Type 0
  Found3 ptr vaddr x =
      (walk_l3 m mem x.0 permissive_flags (read_entry m mem ptr 3 (l3_bits x.0)) ≡ some x.1)
      × (x.0 / 4096 ≡ vaddr / 4096)

  found_3 :
      (ptr base vaddr : ℕ) (x : ℕ × PageTableEntry)
      → InvAt m mem 1 3 ptr
      → base ≤ vaddr
      → vaddr < base + 2097152
      → base % 2097152 ≡ 0
      → resolve_aux m mem 1 3 ptr base vaddr ≡ some x
      → Found3 ptr vaddr x
  unfolding resolve_aux entry_size
  found_3 ptr base vaddr x inv le lt al h =
      let idx = (vaddr - base) / 4096 in
      let v = spec_read mem idx ptr in
      let (mb0, hp, deep) = inv idx (omega arith) in
      elim (Bool-cases (has v (bit 0))) [
        | inr absent ↦
            let q : resolve_aux m mem 1 3 ptr base vaddr ≡ none = rw absent refl in
            absurd (cc (sym q ∙ h))
        | inl present ↦
            let pte : PageTableEntry = record {
              frame = record { base = as_nat (bit_and v (mask_addr m)); size = 4096 };
              flags = flags (record { entry = v; layer = 3 });
            } in
            let b : ℕ = base + idx * 4096 in
            let q : resolve_aux m mem 1 3 ptr base vaddr ≡ some (b, pte) = rw present refl in
            let at : l3_bits b ≡ idx = omega arith in
            let seen : read_entry m mem ptr 3 (l3_bits b)
                ≡ page_view m v (mask_l3_pg_addr m) (bit 7) =
              ap (read_entry m mem ptr 3) at ∙ view_3 m v present mb0 in
            subst (Found3 ptr vaddr) (some-injective _ _ (sym q ∙ h)) (
              ap (walk_l3 m mem b permissive_flags) seen
                  ∙ mapped_first b 4096 (bit_and v (mask_l3_pg_addr m))
                      (flags (record { entry = v; layer = 3 })) (omega arith),
              omega arith,
            )
      ]

  abbrev Found2 : ℕ → ℕ → ℕ × PageTableEntry → Type 0
  Found2 ptr vaddr x =
      (walk_l2 m mem x.0 permissive_flags (read_entry m mem ptr 2 (l2_bits x.0)) ≡ some x.1)
      × (x.0 / 2097152 ≡ vaddr / 2097152)

  found_2 :
      (ptr base vaddr : ℕ) (x : ℕ × PageTableEntry)
      → InvAt m mem 2 2 ptr
      → base ≤ vaddr
      → vaddr < base + 1073741824
      → base % 1073741824 ≡ 0
      → resolve_aux m mem 2 2 ptr base vaddr ≡ some x
      → Found2 ptr vaddr x
  unfolding resolve_aux entry_size
  found_2 ptr base vaddr x inv le lt al h =
      let idx = (vaddr - base) / 2097152 in
      let v = spec_read mem idx ptr in
      let (mb0, hp, deep) = inv idx (omega arith) in
      elim (Bool-cases (has v (bit 0))) [
        | inr absent ↦
            let q : resolve_aux m mem 2 2 ptr base vaddr ≡ none = rw absent refl in
            absurd (cc (sym q ∙ h))
        | inl present ↦ elim (Bool-cases (has v (bit 7))) [
          | inl big ↦
              let pte : PageTableEntry = record {
                frame = record { base = as_nat (bit_and v (mask_addr m)); size = 2097152 };
                flags = flags (record { entry = v; layer = 2 });
              } in
              let b : ℕ = base + idx * 2097152 in
              let q : resolve_aux m mem 2 2 ptr base vaddr ≡ some (b, pte) =
                rw (present, big) refl in
              let at : l2_bits b ≡ idx = omega arith in
              let seen : read_entry m mem ptr 2 (l2_bits b)
                  ≡ page_view m v (mask_l2_pg_addr m) (bit 12) =
                ap (read_entry m mem ptr 2) at ∙ view_2_page m v present mb0 big in
              subst (Found2 ptr vaddr) (some-injective _ _ (sym q ∙ h)) (
                ap (walk_l2 m mem b permissive_flags) seen
                    ∙ mapped_first b 2097152 (bit_and v (mask_l2_pg_addr m))
                        (flags (record { entry = v; layer = 2 })) (omega arith)
                    ∙ ap (λ a. some (the_page a 2097152 (flags (record { entry = v; layer = 2 }))))
                        (address_2 m v present mb0 hp big),
                omega arith,
              )
          | inr small ↦
              let dir = as_nat (bit_and v (mask_addr m)) in
              let q : resolve_aux m mem 2 2 ptr base vaddr
                  ≡ resolve_aux m mem 1 3 dir (base + idx * 2097152) vaddr =
                rw (present, small) refl in
              let is_directory = view_2_directory m v present mb0 small in
              let (rw_set, us_set, xd_clear, below) =
                subst (EntryInv m mem (InvAt m mem 1 3)) is_directory deep in
              let (walked, near) =
                found_3 dir (base + idx * 2097152) vaddr x below (omega arith) (omega arith)
                  (omega arith) (sym q ∙ h) in
              let at : l2_bits x.0 ≡ idx = omega arith in
              (
                ap (λ i. walk_l2 m mem x.0 permissive_flags (read_entry m mem ptr 2 i)) at
                    ∙ ap (walk_l2 m mem x.0 permissive_flags) is_directory
                    ∙ ap (λ f. walk_l3 m mem x.0 f (read_entry m mem dir 3 (l3_bits x.0)))
                        (permissive_step rw_set us_set xd_clear)
                    ∙ walked,
                omega arith,
              )
        ]
      ]

  abbrev Found1 : ℕ → ℕ → ℕ × PageTableEntry → Type 0
  Found1 ptr vaddr x =
      (walk_l1 m mem x.0 permissive_flags (read_entry m mem ptr 1 (l1_bits x.0)) ≡ some x.1)
      × (x.0 / 1073741824 ≡ vaddr / 1073741824)

  found_1 :
      (ptr base vaddr : ℕ) (x : ℕ × PageTableEntry)
      → InvAt m mem 3 1 ptr
      → base ≤ vaddr
      → vaddr < base + 549755813888
      → base % 549755813888 ≡ 0
      → resolve_aux m mem 3 1 ptr base vaddr ≡ some x
      → Found1 ptr vaddr x
  unfolding resolve_aux entry_size
  found_1 ptr base vaddr x inv le lt al h =
      let idx = (vaddr - base) / 1073741824 in
      let v = spec_read mem idx ptr in
      let (mb0, hp, deep) = inv idx (omega arith) in
      elim (Bool-cases (has v (bit 0))) [
        | inr absent ↦
            let q : resolve_aux m mem 3 1 ptr base vaddr ≡ none = rw absent refl in
            absurd (cc (sym q ∙ h))
        | inl present ↦ elim (Bool-cases (has v (bit 7))) [
          | inl big ↦
              let pte : PageTableEntry = record {
                frame = record { base = as_nat (bit_and v (mask_addr m)); size = 1073741824 };
                flags = flags (record { entry = v; layer = 1 });
              } in
              let b : ℕ = base + idx * 1073741824 in
              let q : resolve_aux m mem 3 1 ptr base vaddr ≡ some (b, pte) =
                rw (present, big) refl in
              let at : l1_bits b ≡ idx = omega arith in
              let seen : read_entry m mem ptr 1 (l1_bits b)
                  ≡ page_view m v (mask_l1_pg_addr m) (bit 12) =
                ap (read_entry m mem ptr 1) at ∙ view_1_page m v present mb0 big in
              subst (Found1 ptr vaddr) (some-injective _ _ (sym q ∙ h)) (
                ap (walk_l1 m mem b permissive_flags) seen
                    ∙ mapped_first b 1073741824 (bit_and v (mask_l1_pg_addr m))
                        (flags (record { entry = v; layer = 1 })) (omega arith)
                    ∙ ap
                        (λ a.
                          some (the_page a 1073741824 (flags (record { entry = v; layer = 1 }))))
                        (address_1 m v present mb0 hp big),
                omega arith,
              )
          | inr small ↦
              let dir = as_nat (bit_and v (mask_addr m)) in
              let q : resolve_aux m mem 3 1 ptr base vaddr
                  ≡ resolve_aux m mem 2 2 dir (base + idx * 1073741824) vaddr =
                rw (present, small) refl in
              let is_directory = view_1_directory m v present mb0 small in
              let (rw_set, us_set, xd_clear, below) =
                subst (EntryInv m mem (InvAt m mem 2 2)) is_directory deep in
              let (walked, near) =
                found_2 dir (base + idx * 1073741824) vaddr x below (omega arith) (omega arith)
                  (omega arith) (sym q ∙ h) in
              let at : l1_bits x.0 ≡ idx = omega arith in
              (
                ap (λ i. walk_l1 m mem x.0 permissive_flags (read_entry m mem ptr 1 i)) at
                    ∙ ap (walk_l1 m mem x.0 permissive_flags) is_directory
                    ∙ ap (λ f. walk_l2 m mem x.0 f (read_entry m mem dir 2 (l2_bits x.0)))
                        (permissive_step rw_set us_set xd_clear)
                    ∙ walked,
                omega arith,
              )
        ]
      ]

  -- Where the lookup of an address finds a page, at a mapping's base, the memory management unit's
  -- walk from that base arrives at the same frame with the same flags, in a page table with the
  -- invariant and for an address that can be mapped.
  pub resolve_agrees_with_walk :
      (vaddr b : ℕ) (pte : PageTableEntry)
      → InvAt m mem 4 0 mem.cr3
      → vaddr < max_base
      → resolve m mem vaddr ≡ some (b, pte)
      → pt_walk m mem b ≡ some pte
  unfolding resolve_aux entry_size
  resolve_agrees_with_walk vaddr b pte inv lt h =
      let idx = (vaddr - 0) / 549755813888 in
      let v = spec_read mem idx mem.cr3 in
      let (mb0, hp, deep) = inv idx (omega arith) in
      elim (Bool-cases (has v (bit 0))) [
        | inr absent ↦
            let q : resolve m mem vaddr ≡ none = rw absent refl in absurd (cc (sym q ∙ h))
        | inl present ↦
            let dir = as_nat (bit_and v (mask_addr m)) in
            let q : resolve m mem vaddr ≡ resolve_aux m mem 3 1 dir (0 + idx * 549755813888) vaddr =
              rw present refl in
            let is_directory = view_0 m v present mb0 in
            let (rw_set, us_set, xd_clear, below) =
              subst (EntryInv m mem (InvAt m mem 3 1)) is_directory deep in
            let (walked, near) =
              found_1 dir (0 + idx * 549755813888) vaddr (b, pte) below (omega arith) (omega arith)
                (omega arith) (sym q ∙ h) in
            let at : l0_bits b ≡ idx = omega arith in
            ap (λ i. walk_l0 m mem b (read_entry m mem mem.cr3 0 i)) at
            ∙ ap (walk_l0 m mem b) is_directory
            ∙ ap (λ f. walk_l1 m mem b f (read_entry m mem dir 1 (l1_bits b)))
                (permissive_first rw_set us_set xd_clear)
            ∙ walked
      ]
