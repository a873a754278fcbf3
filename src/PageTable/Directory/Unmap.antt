-- ===== src/PageTable/Directory/Unmap.antt =====
-- page-table/impl_u/l1.rs: `unmap` keeps the invariant and refines l0.rs
-- (`lemma_unmap_preserves_inv`, `lemma_unmap_refines_unmap`).
pub mod Total
use native.Mathlib.Nat.{add-mul-mod_self_right}
use verified_nrkernel.Prelude.{
  ℕ, suc, zero, ◌+◌, ◌*◌, ◌%◌, ◌<◌, ◌≤◌, ◌≡◌, ◌≢◌, refl, sym, ap, ◌∙◌, subst, true, false, Option,
  none, some, ◌⊎◌, inl, inr, arith, ◌==◌, if◌then◌else◌, ◌&&◌, remove,
}
use verified_nrkernel.PageTable.Arch.{Arch, PageTableEntry, entry_size, Aligned}
use verified_nrkernel.PageTable.Arch.Index.{Aligned-entry_base, index_unique, mul-Aligned}
use verified_nrkernel.PageTable.Directory.{
  NodeEntry, directory, page, empty, Directory, dir, Entries, nil, cons, entries, layer, base_vaddr,
  arch, dir_upper, dir_entry_size, dir_index, num, entry_at, is_empty, all_empty, is_empty_dir,
  update, Outcome, ok, err,
}
use verified_nrkernel.PageTable.Directory.Interp.{
  IsValid, IsValidEntry, interp, interp_entry, interp_entries,
}
use verified_nrkernel.PageTable.Directory.Update.{entry_valid, entry_at_lt, update-IsValid}
use verified_nrkernel.PageTable.Directory.Entry.{InEntry, size_pos, interp_of_entry}
use verified_nrkernel.PageTable.Directory.Frame.{dir_base-Aligned}
use verified_nrkernel.PageTable.Directory.Change.{
  SameHeader, update-SameHeader, SameHeader-IsChild, update_self, update_maps,
}

-- What `Ok` promises: the mapping at `base` was there, and it alone is gone.
pub record Unmapped (d : Directory) (base : ℕ) (d' : Directory) : Type 0 where
  pub valid : IsValid d'
  pub header : SameHeader d d'
  pub old : PageTableEntry
  pub mapped : interp d base ≡ some old
  pub maps : (va : ℕ) → interp d' va ≡ remove (interp d) base va

-- What `Err` promises: no mapping begins at `base`, and nothing has changed.
pub record NotMapped (d : Directory) (base : ℕ) (d' : Directory) : Type 0 where
  pub unchanged : d' ≡ d
  pub missing : interp d base ≡ none

abbrev pub Promised : Directory → ℕ → Outcome → Type 0
Promised d base (ok d') = Unmapped d base d'
Promised d base (err d') = NotMapped d base d'

all_empty-interp :
    (es : Entries) (a : Arch) (l b i va : ℕ)
    → all_empty es ≡ true
    → interp_entries a l b i es va ≡ none
unfolding interp
all_empty-interp nil a l b i va h = refl
all_empty-interp (cons (directory d) es) a l b i va h = cc
all_empty-interp (cons (page p) es) a l b i va h = cc
all_empty-interp (cons empty es) a l b i va h = all_empty-interp es a l b (i + 1) va h

-- An empty directory maps nothing (`lemma_empty_implies_interp_empty`).
pub empty-interp : (d : Directory) (va : ℕ) → is_empty_dir d ≡ true → interp d va ≡ none
unfolding interp
empty-interp (dir es l b a f) va h = all_empty-interp es a l b 0 va h

module _ (d : Directory) (base : ℕ) (v : IsValid d) (j : ℕ) (r : InEntry d j base) where
  -- Entry `j` may be replaced by `e` if that maps the entry's addresses without `base`.
  erase_entry :
      (old e : NodeEntry) (p : PageTableEntry)
      → entry_at (entries d) j ≡ some old
      → IsValidEntry (arch d) (layer d) (base_vaddr d) j e
      → interp d base ≡ some p
      → ((va : ℕ)
          → InEntry d j va
          → interp_entry (arch d) (layer d) (base_vaddr d) j e va ≡ remove (interp d) base va)
      → Unmapped d base (update d j e)
  erase_entry old e p h w m maps = record {
    valid = update-IsValid d j e v w;
    header = update-SameHeader d j e;
    old = p;
    mapped = m;
    maps =
        update_maps d j e (remove (interp d) base) v w (entry_at_lt (entries d) j h) maps
          (λ va out. ground arith);
  }

  -- The base of the entry is the one address at which a page is mapped.
  entry_base_iff : base % dir_entry_size d ≡ 0 → base_vaddr d + j * dir_entry_size d ≡ base
  entry_base_iff al =
      let i = index_unique (base_vaddr d) base (dir_entry_size d) j (size_pos d v) r.0 r.1 in
      ap (λ k. base_vaddr d + k * dir_entry_size d) (sym i)
      ∙ Aligned-entry_base (base_vaddr d) base (dir_entry_size d) (size_pos d v) (omega arith)
          (dir_base-Aligned d v) al

  entry_base_aligned : (base_vaddr d + j * dir_entry_size d) % dir_entry_size d ≡ 0
  entry_base_aligned = rw add-mul-mod_self_right (dir_base-Aligned d v)

  pub unmap_page :
      (p : PageTableEntry)
      → entry_at (entries d) j ≡ some (page p)
      → base % dir_entry_size d ≡ 0
      → Unmapped d base (update d j empty)
  unfolding interp
  unmap_page p h al =
      erase_entry (page p) empty p h tt
        (interp_of_entry d v j base (page p) h r ∙ ground (arith, entry_base_iff al))
        (λ va in_j. ground (arith, entry_base_iff al, interp_of_entry d v j va (page p) h in_j))

  pub keep_page :
      (p : PageTableEntry)
      → entry_at (entries d) j ≡ some (page p)
      → base % dir_entry_size d ≢ 0
      → NotMapped d base d
  unfolding interp
  keep_page p h al = record {
    unchanged = refl;
    missing =
        interp_of_entry d v j base (page p) h r
        ∙ none_at (λ e. al (ap (λ x. x % dir_entry_size d) (sym e) ∙ entry_base_aligned));
  }
    where
      none_at :
          (base_vaddr d + j * dir_entry_size d ≡ base → ⊥)
          → interp_entry (arch d) (layer d) (base_vaddr d) j (page p) base ≡ none
      none_at ne = ground arith

  pub keep_empty : entry_at (entries d) j ≡ some empty → NotMapped d base d
  unfolding interp
  keep_empty h = record { unchanged = refl; missing = interp_of_entry d v j base empty h r }

  -- The directory below has dropped the mapping, and is kept or dropped.
  pub unmap_below :
      (d' d'' : Directory)
      → entry_at (entries d) j ≡ some (directory d')
      → is_empty_dir d'' ≡ false
      → Unmapped d' base d''
      → Unmapped d base (update d j (directory d''))
  unfolding interp
  unmap_below d' d'' h ne m =
      erase_entry (directory d') (directory d'') m.old h
        (SameHeader-IsChild m.header (entry_valid d j (directory d') v h).0, m.valid, ne)
        (interp_of_entry d v j base (directory d') h r ∙ m.mapped)
        (λ va in_j. m.maps va ∙ ground (arith, interp_of_entry d v j va (directory d') h in_j))

  pub drop_below :
      (d' d'' : Directory)
      → entry_at (entries d) j ≡ some (directory d')
      → is_empty_dir d'' ≡ true
      → Unmapped d' base d''
      → Unmapped d base (update d j empty)
  unfolding interp
  drop_below d' d'' h e m =
      erase_entry (directory d') empty m.old h tt
        (interp_of_entry d v j base (directory d') h r ∙ m.mapped)
        (λ va in_j.
          sym (empty-interp d'' va e)
          ∙ m.maps va
          ∙ ground (arith, interp_of_entry d v j va (directory d') h in_j))

  pub keep_below :
      (d' d'' : Directory)
      → entry_at (entries d) j ≡ some (directory d')
      → NotMapped d' base d''
      → NotMapped d base (update d j (directory d''))
  unfolding interp
  keep_below d' d'' h m = record {
    unchanged = ap (λ x. update d j (directory x)) m.unchanged ∙ update_self d j (directory d') h;
    missing = interp_of_entry d v j base (directory d') h r ∙ m.missing;
  }
