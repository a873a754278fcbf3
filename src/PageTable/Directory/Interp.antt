-- ===== src/PageTable/Directory/Interp.antt =====
-- page-table/impl_u/l1.rs: the invariant of a directory, and the map of the virtual addresses that
-- it stands for.
use verified_nrkernel.Prelude.{
  ℕ, ◌+◌, ◌*◌, ◌<◌, ◌≡◌, false, Option, none, some, ◌==◌, if◌then◌else◌, length,
}
use verified_nrkernel.PageTable.Arch.{
  Arch, IsArch, Flags, permissive_flags, PageTableEntry, entry_size, num_entries, entry_base,
  Aligned,
}
use verified_nrkernel.PageTable.Directory.{
  NodeEntry, directory, page, empty, Directory, dir, Entries, nil, cons, layer, base_vaddr, arch,
  num, is_empty_dir,
}

-- The source's `well_formed`.
pub record IsWellFormed (n l b : ℕ) (a : Arch) (f : Flags) : Type 0 where
  pub arch_inv : IsArch a
  pub layer_lt : l < length a.layers
  pub base_aligned : Aligned b (entry_size a l * num_entries a l)
  pub entries_len : n ≡ num_entries a l
  pub flags_permissive : f ≡ permissive_flags

-- `directories_are_in_next_layer` and `directories_match_arch`, of the directory at index `i`.
pub record IsChild (a : Arch) (l b i : ℕ) (d : Directory) : Type 0 where
  pub child_layer : layer d ≡ l + 1
  pub child_base : base_vaddr d ≡ b + i * entry_size a l
  pub child_arch : arch d ≡ a

-- The source's `inv`. Its conditions on the entries are stated entry by entry:
-- `pages_match_entry_size` and `frames_aligned` of a page, and of a directory `IsChild`,
-- `directories_obey_invariant` and `directories_are_nonempty`.
abbrev mutual
  pub IsValid : Directory → Type 0
  IsValid (dir es l b a f) = IsWellFormed (num es) l b a f × AreValid a l b 0 es

  pub IsValidEntry : Arch → ℕ → ℕ → ℕ → NodeEntry → Type 0
  IsValidEntry a l b i (directory d) = IsChild a l b i d × IsValid d × (is_empty_dir d ≡ false)
  IsValidEntry a l b i (page p) =
      (p.frame.size ≡ entry_size a l) × Aligned p.frame.base (entry_size a l)
  IsValidEntry a l b i empty = Unit

  -- The entries from index `i` on.
  pub AreValid : Arch → ℕ → ℕ → ℕ → Entries → Type 0
  AreValid a l b i nil = Unit
  AreValid a l b i (cons e es) = IsValidEntry a l b i e × AreValid a l b (i + 1) es

-- The source's `union_prefer_right`, with the right map first.
abbrev pub prefer : Option PageTableEntry → Option PageTableEntry → Option PageTableEntry
prefer none q = q
prefer (some p) q = some p

-- `interp`, `interp_of_entry` and `interp_aux`: what is mapped at each base address.
unfoldable mutual
  pub interp : Directory → ℕ → Option PageTableEntry
  interp (dir es l b a f) va = interp_entries a l b 0 es va

  pub interp_entry : Arch → ℕ → ℕ → ℕ → NodeEntry → ℕ → Option PageTableEntry
  interp_entry a l b i (directory d) va = interp d va
  interp_entry a l b i (page p) va = if entry_base a l b i == va then some p else none
  interp_entry a l b i empty va = none

  pub interp_entries : Arch → ℕ → ℕ → ℕ → Entries → ℕ → Option PageTableEntry
  interp_entries a l b i nil va = none
  interp_entries a l b i (cons e es) va =
      prefer (interp_entry a l b i e va) (interp_entries a l b (i + 1) es va)

-- The map of one slot of a directory.
unfoldable pub interp_slot : Arch → ℕ → ℕ → ℕ → Option NodeEntry → ℕ → Option PageTableEntry
interp_slot a l b i none va = none
interp_slot a l b i (some e) va = interp_entry a l b i e va
