-- ===== src/PageTable/Entry/Tests.antt =====
-- page-table/impl_u/l2_impl.rs: entries for a frame at 65536 and a directory at 8192, with 40 physical
-- address bits.
use verified_nrkernel.Prelude.{ℕ, ◌<◌, ◌≡◌, refl, true, false, arith}
use verified_nrkernel.PageTable.Arch.{Flags}
use verified_nrkernel.PageTable.Hardware.{bit, word_eq, page, directory, view}
use verified_nrkernel.PageTable.Hardware.Words.{IsWord}
use verified_nrkernel.PageTable.Entry.{address, new_page_entry, new_dir_entry, flags, is_mapping}
use verified_nrkernel.PageTable.Entry.Address.{IsEntryAddress}
use verified_nrkernel.PageTable.Entry.RoundTrip.{
  view-new_page_entry, new_dir_entry-view, page_entry_read_back,
}

abbrev read_only : Flags
read_only = record { is_writable = false; is_supervisor = false; disable_execute = true }

bit-IsWord : (k : ℕ) → k < 64 → IsWord (bit k)
bit-IsWord k lt i le = ground arith

frame-IsEntryAddress : IsEntryAddress 40 (bit 16)
unfolding word_eq
frame-IsEntryAddress = record {
  wide = omega arith;
  narrow = omega arith;
  is_word = bit-IsWord 16 (omega arith);
  masked = refl;
}

table-IsEntryAddress : IsEntryAddress 40 (bit 13)
unfolding word_eq
table-IsEntryAddress = record {
  wide = omega arith;
  narrow = omega arith;
  is_word = bit-IsWord 13 (omega arith);
  masked = refl;
}

view-new_page_entry_example :
    view 40 (new_page_entry 3 (bit 16) read_only)
    ≡ page (bit 16) true false true false false false false false false true
unfolding word_eq
view-new_page_entry_example =
    view-new_page_entry 40 (bit 16) frame-IsEntryAddress 3 read_only (omega arith) (omega arith)
      refl

new_dir_entry-view_example :
    view 40 (new_dir_entry 1 (bit 13)) ≡ directory (bit 13) true true true false false false false
new_dir_entry-view_example = new_dir_entry-view 40 (bit 13) table-IsEntryAddress 1 (omega arith)

page_entry_read_back_example :
    (is_mapping (new_page_entry 3 (bit 16) read_only) ≡ true)
    × (address 40 (new_page_entry 3 (bit 16) read_only) ≡ bit 16)
    × (flags (new_page_entry 3 (bit 16) read_only) ≡ read_only)
page_entry_read_back_example = page_entry_read_back 40 (bit 16) frame-IsEntryAddress 3 read_only
