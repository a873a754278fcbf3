-- ===== src/PageTable/Memory/Resolve.antt =====
-- page-table/impl_u/l2_impl.rs: the implementation's lookup of an address in the page table in memory,
-- and the parts of its invariant that the lookup stands on.
--
-- The source recurses down the layers; the fuel is the number of layers that are left, of which there
-- are four.
use verified_nrkernel.Prelude.{
  ℕ, zero, suc, ◌+◌, ◌<◌, ◌≡◌, Option, none, some, Bool, true, false, if◌then◌else◌,
}
use verified_nrkernel.PageTable.Arch.{
  PageTableEntry, x86_num_entries, x86_num_layers, index_for_vaddr, entry_base, entry_size,
  x86_arch,
}
use verified_nrkernel.PageTable.Hardware.{
  as_nat, GhostPageDirectoryEntry, directory, page, empty, PageDirectoryEntry,
  all_mb0_bits_are_zero, view,
}
use verified_nrkernel.PageTable.Entry.{hp_pat_is_zero, address, flags, is_mapping, is_dir}
use verified_nrkernel.PageTable.Memory.{PageTableMemory, spec_read}

abbrev pub entry_at : PageTableMemory → (layer ptr i : ℕ) → PageDirectoryEntry
entry_at mem layer ptr i = record { entry = spec_read mem i ptr; layer = layer }

abbrev pub is_empty_view : GhostPageDirectoryEntry → Bool
is_empty_view (directory addr p rw us pwt pcd a xd) = false
is_empty_view (page addr p rw us pwt pcd a d g pat xd) = false
is_empty_view empty = true

module _ (max_phyaddr_width : ℕ) (mem : PageTableMemory) where
  abbrev pub view_at : (layer ptr i : ℕ) → GhostPageDirectoryEntry
  view_at layer ptr i = view max_phyaddr_width (entry_at mem layer ptr i)

  abbrev pub EmptyAt : (layer ptr : ℕ) → Type 0
  EmptyAt layer ptr = (i : ℕ) → i < x86_num_entries → is_empty_view (view_at layer ptr i) ≡ true

  -- What the invariant says of an entry, given what it says of the directory below.
  abbrev pub EntryInv : (ℕ → Type 0) → GhostPageDirectoryEntry → Type 0
  EntryInv below (directory addr p rw us pwt pcd a xd) =
      (rw ≡ true) × (us ≡ true) × (xd ≡ false) × below (as_nat addr)
  EntryInv below (page addr p rw us pwt pcd a d g pat xd) = Unit
  EntryInv below empty = Unit

  -- Of the source's `inv_at`: `entry_mb0_bits_are_zero`, `hp_pat_is_zero`, `directories_have_flags`
  -- and `directories_obey_invariant_at`, down to the fuel.
  abbrev pub InvAt : (fuel layer ptr : ℕ) → Type 0
  InvAt zero layer ptr = Unit
  InvAt (suc fuel) layer ptr =
      (i : ℕ)
      → i < x86_num_entries
      → (all_mb0_bits_are_zero max_phyaddr_width (entry_at mem layer ptr i) ≡ true)
        × (hp_pat_is_zero max_phyaddr_width (entry_at mem layer ptr i) ≡ true)
        × EntryInv (InvAt fuel (layer + 1)) (view_at layer ptr i)

  unfoldable pub resolve_aux : (fuel layer ptr base vaddr : ℕ) → Option (ℕ × PageTableEntry)
  resolve_aux zero layer ptr base vaddr = none
  resolve_aux (suc fuel) layer ptr base vaddr =
      let idx = index_for_vaddr x86_arch layer base vaddr in
      let entry = entry_at mem layer ptr idx in
      let entry_base = entry_base x86_arch layer base idx in
      let dir_addr = as_nat (address max_phyaddr_width entry) in
      let below = resolve_aux fuel (layer + 1) dir_addr entry_base vaddr in
      if is_mapping entry
      then if is_dir entry layer
        then below
        else some (
          entry_base,
          record {
            frame = record {
              base = as_nat (address max_phyaddr_width entry);
              size = entry_size x86_arch layer;
            };
            flags = flags entry;
          },
        )
      else none

  abbrev pub resolve : ℕ → Option (ℕ × PageTableEntry)
  resolve vaddr = resolve_aux x86_num_layers 0 mem.cr3 0 vaddr
