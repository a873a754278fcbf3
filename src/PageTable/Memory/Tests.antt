-- ===== src/PageTable/Memory/Tests.antt =====
-- page-table/impl_u/l2_impl.rs: a page table in memory with one mapping, of the page at 0 to the frame
-- at 65536, with 40 physical address bits. Its directories are at 4096, 8192, 16384 and 32768.
use verified_nrkernel.Prelude.{
  ℕ, ◌≡◌, ◌<◌, ◌↔◌, refl, none, some, Bool, true, false, arith, ◌==◌, if◌then◌else◌,
}
use verified_nrkernel.PageTable.Arch.{Flags, PageTableEntry, x86_num_entries, entry_size}
use verified_nrkernel.PageTable.Hardware.{
  Word, bit, zero_word, word_eq, has, has_none, PageDirectoryEntry, all_mb0_bits_are_zero, view,
}
use verified_nrkernel.PageTable.Hardware.Walk.{pt_walk}
use verified_nrkernel.PageTable.Entry.{new_page_entry, new_dir_entry, hp_pat_is_zero}
use verified_nrkernel.PageTable.Memory.{PageTableMemory}
use verified_nrkernel.PageTable.Memory.Empty.{is_directory_empty, is_directory_empty_iff}
use verified_nrkernel.PageTable.Memory.Missing.{resolve_error_agrees_with_walk}
use verified_nrkernel.PageTable.Memory.Resolve.{
  entry_at, EmptyAt, EntryInv, InvAt, resolve_aux, resolve,
}
use verified_nrkernel.PageTable.Memory.Agree.{resolve_agrees_with_walk}

abbrev read_only : Flags
read_only = record { is_writable = false; is_supervisor = false; disable_execute = true }

-- A page of words of which only the first is not zero.
abbrev first_word : Bool → Word → Word
first_word true w = w
first_word false w = zero_word

abbrev table : PageDirectoryEntry → ℕ → Word
table e i = first_word (i == 0) e.entry

abbrev mem : PageTableMemory
mem = record {
  cr3 = 4096;
  region_view = λ r.
      if r == 4096
      then table (new_dir_entry 0 (bit 13))
      else if r == 8192
      then table (new_dir_entry 1 (bit 14))
      else if r == 16384
      then table (new_dir_entry 2 (bit 15))
      else table (new_page_entry 3 (bit 16) read_only);
}

abbrev Ok : (ℕ → Type 0) → ℕ → Word → Type 0
Ok below layer w =
    (all_mb0_bits_are_zero 40 (record { entry = w; layer = layer }) ≡ true)
    × (hp_pat_is_zero 40 (record { entry = w; layer = layer }) ≡ true)
    × EntryInv 40 mem below (view 40 (record { entry = w; layer = layer }))

first_word-Ok :
    (below : ℕ → Type 0) (layer : ℕ) (b : Bool) (w : Word)
    → Ok below layer w
    → Ok below layer zero_word
    → Ok below layer (first_word b w)
first_word-Ok below layer true w h z = h
first_word-Ok below layer false w h z = z

inv_3 : InvAt 40 mem 1 3 32768
unfolding has has_none word_eq
inv_3 i lt =
    first_word-Ok (InvAt 40 mem 0 4) 3 (i == 0) (new_page_entry 3 (bit 16) read_only).entry
      (refl, refl, tt) (refl, refl, tt)

inv_2 : InvAt 40 mem 2 2 16384
unfolding has has_none word_eq
inv_2 i lt =
    first_word-Ok (InvAt 40 mem 1 3) 2 (i == 0) (new_dir_entry 2 (bit 15)).entry
      (refl, refl, (refl, refl, refl, inv_3)) (refl, refl, tt)

inv_1 : InvAt 40 mem 3 1 8192
unfolding has has_none word_eq
inv_1 i lt =
    first_word-Ok (InvAt 40 mem 2 2) 1 (i == 0) (new_dir_entry 1 (bit 14)).entry
      (refl, refl, (refl, refl, refl, inv_2)) (refl, refl, tt)

inv_0 : InvAt 40 mem 4 0 4096
unfolding has has_none word_eq
inv_0 i lt =
    first_word-Ok (InvAt 40 mem 3 1) 0 (i == 0) (new_dir_entry 0 (bit 13)).entry
      (refl, refl, (refl, refl, refl, inv_1)) (refl, refl, tt)

abbrev mapped : PageTableEntry
mapped = record { frame = record { base = 65536; size = 4096 }; flags = read_only }

resolves : resolve 40 mem 77 ≡ some (0, mapped)
unfolding resolve_aux entry_size has has_none word_eq
resolves = refl

resolve_agrees_with_walk_example : pt_walk 40 mem 0 ≡ some mapped
resolve_agrees_with_walk_example =
    resolve_agrees_with_walk 40 mem 77 0 mapped inv_0 (omega arith) resolves

-- The last directory has no entries in a memory of zero words.
abbrev blank : PageTableMemory
blank = record { cr3 = 4096; region_view = λ r i. zero_word }

blank_mb0 :
    (i : ℕ) → i < x86_num_entries → all_mb0_bits_are_zero 40 (entry_at blank 3 4096 i) ≡ true
unfolding has word_eq
blank_mb0 i lt = refl

is_directory_empty_iff_example : (is_directory_empty blank 3 4096 ≡ true) ↔ EmptyAt 40 blank 3 4096
is_directory_empty_iff_example = is_directory_empty_iff 40 blank 3 4096 (omega arith) blank_mb0

misses : resolve 40 mem 8192 ≡ none
unfolding resolve_aux entry_size has word_eq
misses = refl

resolve_error_agrees_with_walk_example : pt_walk 40 mem 8192 ≡ none
resolve_error_agrees_with_walk_example =
    resolve_error_agrees_with_walk 40 mem 8192 inv_0 (omega arith) misses
