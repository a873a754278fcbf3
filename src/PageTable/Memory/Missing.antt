-- ===== src/PageTable/Memory/Missing.antt =====
-- page-table/impl_u/l2_impl.rs and spec_t/hardware.rs: where the implementation's lookup finds
-- nothing, neither does the walk of the memory management unit.
use verified_nrkernel.Prelude.{
  ℕ, ◌+◌, ◌-◌, ◌*◌, ◌/◌, ◌%◌, ◌≤◌, ◌<◌, ◌≡◌, inl, inr, refl, sym, ◌∙◌, ap, subst, none, some,
  Bool-cases, arith,
}
use verified_nrkernel.PageTable.Arch.{Flags, PageTableEntry, entry_size, max_base}
use verified_nrkernel.PageTable.Hardware.{as_nat, bit, bit_and, has, mask_addr}
use verified_nrkernel.PageTable.Hardware.Walk.{
  l0_bits, l1_bits, l2_bits, l3_bits, first_flags, more_flags, read_entry, walk_l3, walk_l2,
  walk_l1, walk_l0, pt_walk,
}
use verified_nrkernel.PageTable.Entry.{flags}
use verified_nrkernel.PageTable.Entry.Reading.{
  view_unmapped, view_0, view_1_directory, view_2_directory,
}
use verified_nrkernel.PageTable.Memory.{PageTableMemory, spec_read}
use verified_nrkernel.PageTable.Memory.Resolve.{EntryInv, InvAt, resolve_aux, resolve}

module _ (m : ℕ) (mem : PageTableMemory) where
  missing_3 :
      (ptr base vaddr : ℕ) (f : Flags)
      → InvAt m mem 1 3 ptr
      → base ≤ vaddr
      → vaddr < base + 2097152
      → base % 2097152 ≡ 0
      → resolve_aux m mem 1 3 ptr base vaddr ≡ none
      → walk_l3 m mem vaddr f (read_entry m mem ptr 3 (l3_bits vaddr)) ≡ none
  unfolding resolve_aux entry_size
  missing_3 ptr base vaddr f inv le lt al h =
      let idx = (vaddr - base) / 4096 in
      let v = spec_read mem idx ptr in
      let (mb0, hp, deep) = inv idx (omega arith) in
      let at : l3_bits vaddr ≡ idx = omega arith in
      let here = ap (λ i. walk_l3 m mem vaddr f (read_entry m mem ptr 3 i)) at in
      elim (Bool-cases (has v (bit 0))) [
        | inr absent ↦ here ∙ ap (walk_l3 m mem vaddr f) (view_unmapped m v 3 absent)
        | inl present ↦
            let pte : PageTableEntry = record {
              frame = record { base = as_nat (bit_and v (mask_addr m)); size = 4096 };
              flags = flags (record { entry = v; layer = 3 });
            } in
            let q : resolve_aux m mem 1 3 ptr base vaddr ≡ some (base + idx * 4096, pte) =
              rw present refl in
            absurd (cc (sym q ∙ h))
      ]

  missing_2 :
      (ptr base vaddr : ℕ) (f : Flags)
      → InvAt m mem 2 2 ptr
      → base ≤ vaddr
      → vaddr < base + 1073741824
      → base % 1073741824 ≡ 0
      → resolve_aux m mem 2 2 ptr base vaddr ≡ none
      → walk_l2 m mem vaddr f (read_entry m mem ptr 2 (l2_bits vaddr)) ≡ none
  unfolding resolve_aux entry_size
  missing_2 ptr base vaddr f inv le lt al h =
      let idx = (vaddr - base) / 2097152 in
      let v = spec_read mem idx ptr in
      let (mb0, hp, deep) = inv idx (omega arith) in
      let at : l2_bits vaddr ≡ idx = omega arith in
      let here = ap (λ i. walk_l2 m mem vaddr f (read_entry m mem ptr 2 i)) at in
      elim (Bool-cases (has v (bit 0))) [
        | inr absent ↦ here ∙ ap (walk_l2 m mem vaddr f) (view_unmapped m v 2 absent)
        | inl present ↦ elim (Bool-cases (has v (bit 7))) [
          | inl big ↦
              let pte : PageTableEntry = record {
                frame = record { base = as_nat (bit_and v (mask_addr m)); size = 2097152 };
                flags = flags (record { entry = v; layer = 2 });
              } in
              let q : resolve_aux m mem 2 2 ptr base vaddr ≡ some (base + idx * 2097152, pte) =
                rw (present, big) refl in
              absurd (cc (sym q ∙ h))
          | inr small ↦
              let dir = as_nat (bit_and v (mask_addr m)) in
              let q : resolve_aux m mem 2 2 ptr base vaddr
                  ≡ resolve_aux m mem 1 3 dir (base + idx * 2097152) vaddr =
                rw (present, small) refl in
              let is_directory = view_2_directory m v present mb0 small in
              let (rw_set, us_set, xd_clear, below) =
                subst (EntryInv m mem (InvAt m mem 1 3)) is_directory deep in
              here
              ∙ ap (walk_l2 m mem vaddr f) is_directory
              ∙ missing_3 dir (base + idx * 2097152) vaddr
                  (more_flags f (has v (bit 1)) (has v (bit 2)) (has v (bit 63))) below
                  (omega arith) (omega arith) (omega arith) (sym q ∙ h)
        ]
      ]

  missing_1 :
      (ptr base vaddr : ℕ) (f : Flags)
      → InvAt m mem 3 1 ptr
      → base ≤ vaddr
      → vaddr < base + 549755813888
      → base % 549755813888 ≡ 0
      → resolve_aux m mem 3 1 ptr base vaddr ≡ none
      → walk_l1 m mem vaddr f (read_entry m mem ptr 1 (l1_bits vaddr)) ≡ none
  unfolding resolve_aux entry_size
  missing_1 ptr base vaddr f inv le lt al h =
      let idx = (vaddr - base) / 1073741824 in
      let v = spec_read mem idx ptr in
      let (mb0, hp, deep) = inv idx (omega arith) in
      let at : l1_bits vaddr ≡ idx = omega arith in
      let here = ap (λ i. walk_l1 m mem vaddr f (read_entry m mem ptr 1 i)) at in
      elim (Bool-cases (has v (bit 0))) [
        | inr absent ↦ here ∙ ap (walk_l1 m mem vaddr f) (view_unmapped m v 1 absent)
        | inl present ↦ elim (Bool-cases (has v (bit 7))) [
          | inl big ↦
              let pte : PageTableEntry = record {
                frame = record { base = as_nat (bit_and v (mask_addr m)); size = 1073741824 };
                flags = flags (record { entry = v; layer = 1 });
              } in
              let q : resolve_aux m mem 3 1 ptr base vaddr ≡ some (base + idx * 1073741824, pte) =
                rw (present, big) refl in
              absurd (cc (sym q ∙ h))
          | inr small ↦
              let dir = as_nat (bit_and v (mask_addr m)) in
              let q : resolve_aux m mem 3 1 ptr base vaddr
                  ≡ resolve_aux m mem 2 2 dir (base + idx * 1073741824) vaddr =
                rw (present, small) refl in
              let is_directory = view_1_directory m v present mb0 small in
              let (rw_set, us_set, xd_clear, below) =
                subst (EntryInv m mem (InvAt m mem 2 2)) is_directory deep in
              here
              ∙ ap (walk_l1 m mem vaddr f) is_directory
              ∙ missing_2 dir (base + idx * 1073741824) vaddr
                  (more_flags f (has v (bit 1)) (has v (bit 2)) (has v (bit 63))) below
                  (omega arith) (omega arith) (omega arith) (sym q ∙ h)
        ]
      ]

  -- Where the lookup of an address that can be mapped finds no page, in a page table with the
  -- invariant, the memory management unit's walk from the address finds none either.
  pub resolve_error_agrees_with_walk :
      (vaddr : ℕ)
      → InvAt m mem 4 0 mem.cr3
      → vaddr < max_base
      → resolve m mem vaddr ≡ none
      → pt_walk m mem vaddr ≡ none
  unfolding resolve_aux entry_size
  resolve_error_agrees_with_walk vaddr inv lt h =
      let idx = (vaddr - 0) / 549755813888 in
      let v = spec_read mem idx mem.cr3 in
      let (mb0, hp, deep) = inv idx (omega arith) in
      let at : l0_bits vaddr ≡ idx = omega arith in
      let here = ap (λ i. walk_l0 m mem vaddr (read_entry m mem mem.cr3 0 i)) at in
      elim (Bool-cases (has v (bit 0))) [
        | inr absent ↦ here ∙ ap (walk_l0 m mem vaddr) (view_unmapped m v 0 absent)
        | inl present ↦
            let dir = as_nat (bit_and v (mask_addr m)) in
            let q : resolve m mem vaddr ≡ resolve_aux m mem 3 1 dir (0 + idx * 549755813888) vaddr =
              rw present refl in
            let is_directory = view_0 m v present mb0 in
            let (rw_set, us_set, xd_clear, below) =
              subst (EntryInv m mem (InvAt m mem 3 1)) is_directory deep in
            here
            ∙ ap (walk_l0 m mem vaddr) is_directory
            ∙ missing_1 dir (0 + idx * 549755813888) vaddr
                (first_flags (has v (bit 1)) (has v (bit 2)) (has v (bit 63))) below (omega arith)
                (omega arith) (omega arith) (sym q ∙ h)
      ]
