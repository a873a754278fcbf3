-- ===== src/PageTable/Hardware/Walk.antt =====
-- page-table/spec_t/hardware.rs: the page table walk of the memory management unit, as a function
-- into an option: `valid_pt_walk` holds of the entry that it returns and of no other.
use verified_nrkernel.Prelude.{
  ℕ, ◌/◌, ◌%◌, ◌^◌, Option, none, some, Bool, not, ◌&&◌, ◌||◌, ◌==◌, ltb, if◌then◌else◌,
}
use verified_nrkernel.PageTable.Arch.{
  Flags, PageTableEntry, l1_entry_size, l2_entry_size, l3_entry_size, max_base,
}
use verified_nrkernel.PageTable.Hardware.{
  Word, as_nat, GhostPageDirectoryEntry, directory, page, empty, view,
}
use verified_nrkernel.PageTable.Memory.{PageTableMemory, spec_read}

abbrev pub l0_bits : ℕ → ℕ
l0_bits addr = addr / 2 ^ 39 % 2 ^ 9

abbrev pub l1_bits : ℕ → ℕ
l1_bits addr = addr / 2 ^ 30 % 2 ^ 9

abbrev pub l2_bits : ℕ → ℕ
l2_bits addr = addr / 2 ^ 21 % 2 ^ 9

abbrev pub l3_bits : ℕ → ℕ
l3_bits addr = addr / 2 ^ 12 % 2 ^ 9

-- The flags of the first directory of the path, and those of a path with one more entry.
abbrev pub first_flags : (rw us xd : Bool) → Flags
first_flags rw us xd = record { is_writable = rw; is_supervisor = not us; disable_execute = xd }

abbrev pub more_flags : Flags → (rw us xd : Bool) → Flags
more_flags f rw us xd = record {
  is_writable = f.is_writable && rw;
  is_supervisor = f.is_supervisor || not us;
  disable_execute = f.disable_execute || xd;
}

-- The page that a walk arrives at, if the address is its first.
abbrev pub mapped_page : (addr size : ℕ) → Word → Flags → Option PageTableEntry
mapped_page addr size page_addr f =
    if addr % size == 0
    then some (record { frame = record { base = as_nat page_addr; size = size }; flags = f })
    else none

module _ (max_phyaddr_width : ℕ) (pt_mem : PageTableMemory) where
  abbrev pub read_entry : (dir_addr layer idx : ℕ) → GhostPageDirectoryEntry
  read_entry dir_addr layer idx =
      view max_phyaddr_width (record { entry = spec_read pt_mem idx dir_addr; layer = layer })

  -- From the layers' entries on, the flags of the path so far given.
  abbrev pub walk_l3 : ℕ → Flags → GhostPageDirectoryEntry → Option PageTableEntry
  walk_l3 addr f (page page_addr p rw us pwt pcd a d g pat xd) =
      mapped_page addr l3_entry_size page_addr (more_flags f rw us xd)
  walk_l3 addr f (directory dir_addr p rw us pwt pcd a xd) = none
  walk_l3 addr f empty = none

  abbrev pub walk_l2 : ℕ → Flags → GhostPageDirectoryEntry → Option PageTableEntry
  walk_l2 addr f (page page_addr p rw us pwt pcd a d g pat xd) =
      mapped_page addr l2_entry_size page_addr (more_flags f rw us xd)
  walk_l2 addr f (directory dir_addr p rw us pwt pcd a xd) =
      walk_l3 addr (more_flags f rw us xd) (read_entry (as_nat dir_addr) 3 (l3_bits addr))
  walk_l2 addr f empty = none

  abbrev pub walk_l1 : ℕ → Flags → GhostPageDirectoryEntry → Option PageTableEntry
  walk_l1 addr f (page page_addr p rw us pwt pcd a d g pat xd) =
      mapped_page addr l1_entry_size page_addr (more_flags f rw us xd)
  walk_l1 addr f (directory dir_addr p rw us pwt pcd a xd) =
      walk_l2 addr (more_flags f rw us xd) (read_entry (as_nat dir_addr) 2 (l2_bits addr))
  walk_l1 addr f empty = none

  abbrev pub walk_l0 : ℕ → GhostPageDirectoryEntry → Option PageTableEntry
  walk_l0 addr (directory dir_addr p rw us pwt pcd a xd) =
      walk_l1 addr (first_flags rw us xd) (read_entry (as_nat dir_addr) 1 (l1_bits addr))
  walk_l0 addr (page page_addr p rw us pwt pcd a d g pat xd) = none
  walk_l0 addr empty = none

  abbrev pub pt_walk : ℕ → Option PageTableEntry
  pt_walk addr = walk_l0 addr (read_entry pt_mem.cr3 0 (l0_bits addr))

  -- The mappings of a page table in memory.
  abbrev pub interp_pt_mem : ℕ → Option PageTableEntry
  interp_pt_mem addr = if ltb addr max_base then pt_walk addr else none
