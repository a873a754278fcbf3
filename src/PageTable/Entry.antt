-- ===== src/PageTable/Entry.antt =====
-- page-table/impl_u/l2_impl.rs: how the implementation builds the words of the page table and reads
-- them. Its functions on a `PageDirectoryEntry`.
pub mod Bits
pub mod Address
pub mod Views
pub mod Reading
pub mod RoundTrip
mod Tests
use verified_nrkernel.Prelude.{ℕ, Bool, true, false, not, ◌&&◌, ◌≡◌, ◌≤◌, ◌<◌, ◌==◌, if◌then◌else◌}
use verified_nrkernel.PageTable.Arch.{Flags}
use verified_nrkernel.PageTable.Hardware.{
  Word, bit_and, bit_or, word_eq, has, has_none, mask_flag_p, mask_flag_rw, mask_flag_us,
  mask_flag_pwt, mask_flag_pcd, mask_flag_xd, mask_pg_flag_pat, mask_l1_pg_flag_ps,
  GhostPageDirectoryEntry, directory, page, empty, PageDirectoryEntry, mask_addr, mask_l1_pg_addr,
  mask_l2_pg_addr, mask_l3_pg_addr, view,
}

abbrev pub is_page_view : GhostPageDirectoryEntry → Bool
is_page_view (directory addr p rw us pwt pcd a xd) = false
is_page_view (page addr p rw us pwt pcd a d g pat xd) = true
is_page_view empty = false

-- The source's `if b { w } else { 0 }`, bit by bit.
abbrev pub word_if : Bool → Word → Word
word_if b w i = w i && b

module _ (max_phyaddr_width : ℕ) where
  -- (The source gives no meaning to other layers.)
  abbrev pub addr_is_zero_padded : ℕ → Word → Bool → Bool
  addr_is_zero_padded layer addr is_page =
      if is_page
      then if layer == 1
        then word_eq (bit_and addr (mask_l1_pg_addr max_phyaddr_width)) addr
        else if layer == 2
        then word_eq (bit_and addr (mask_l2_pg_addr max_phyaddr_width)) addr
        else word_eq (bit_and addr (mask_l3_pg_addr max_phyaddr_width)) addr
      else true

  abbrev pub hp_pat_is_zero : PageDirectoryEntry → Bool
  hp_pat_is_zero e =
      if is_page_view (view max_phyaddr_width e)
      then if e.layer == 1
        then has_none e.entry mask_pg_flag_pat
        else if e.layer == 2
        then has_none e.entry mask_pg_flag_pat
        else true
      else true

  abbrev pub address : PageDirectoryEntry → Word
  address e = bit_and e.entry (mask_addr max_phyaddr_width)

abbrev pub new_entry :
    (layer : ℕ) (address : Word)
    (is_page is_writable is_supervisor is_writethrough disable_cache disable_execute : Bool)
    → PageDirectoryEntry
new_entry layer address is_page is_writable is_supervisor is_writethrough disable_cache
      disable_execute =
    record {
      entry =
          bit_or
            (bit_or
              (bit_or
                (bit_or
                  (bit_or
                    (bit_or (bit_or address mask_flag_p)
                      (word_if (is_page && not (layer == 3)) mask_l1_pg_flag_ps))
                    (word_if is_writable mask_flag_rw))
                  (word_if (not is_supervisor) mask_flag_us))
                (word_if is_writethrough mask_flag_pwt))
              (word_if disable_cache mask_flag_pcd))
            (word_if disable_execute mask_flag_xd);
      layer = layer;
    }

-- Of the page table entry, the base of its frame and its flags.
abbrev pub new_page_entry : ℕ → Word → Flags → PageDirectoryEntry
new_page_entry layer base flags =
    new_entry layer base true flags.is_writable flags.is_supervisor false false
      flags.disable_execute

abbrev pub new_dir_entry : ℕ → Word → PageDirectoryEntry
new_dir_entry layer address = new_entry layer address false true false false false false

abbrev pub flags : PageDirectoryEntry → Flags
flags e = record {
  is_writable = has e.entry mask_flag_rw;
  is_supervisor = not (has e.entry mask_flag_us);
  disable_execute = has e.entry mask_flag_xd;
}

abbrev pub is_mapping : PageDirectoryEntry → Bool
is_mapping e = has e.entry mask_flag_p

abbrev pub is_page : PageDirectoryEntry → ℕ → Bool
is_page e layer =
    if layer == 3 then true else if layer == 0 then false else has e.entry mask_l1_pg_flag_ps

abbrev pub is_dir : PageDirectoryEntry → ℕ → Bool
is_dir e layer = not (is_page e layer)
