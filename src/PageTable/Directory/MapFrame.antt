-- ===== src/PageTable/Directory/MapFrame.antt =====
-- page-table/impl_u/l1.rs: `map_frame` keeps the invariant and refines l0.rs
-- (`lemma_map_frame_preserves_inv`, `lemma_map_frame_refines_map_frame`).
pub mod Total
use verified_nrkernel.Prelude.{
  ℕ, zero, suc, ◌+◌, ◌*◌, ◌<◌, ◌≤◌, ◌≡◌, ◌≢◌, refl, sym, ap, ◌∙◌, subst, true, false, Option, none,
  some, ◌⊎◌, inl, inr, arith, ◌==◌, if◌then◌else◌, insert, length,
}
use verified_nrkernel.PageTable.Arch.{PageTableEntry, entry_size, overlap, Aligned}
use verified_nrkernel.PageTable.Contents.{region, ValidMapping}
use verified_nrkernel.PageTable.Directory.{
  NodeEntry, directory, page, empty, Directory, entries, layer, base_vaddr, arch, dir_upper,
  dir_entry_size, dir_index, num, entry_at, is_empty_dir, update, new_empty_dir, layers_left,
  Outcome, ok, err, AcceptedMapping, update_outcome, update_ok, map_frame_entry, map_frame_fuel,
}
use verified_nrkernel.PageTable.Directory.Interp.{
  IsChild, IsValid, IsValidEntry, interp, interp_entry,
}
use verified_nrkernel.PageTable.Directory.Lemmas.{well_formed, Within}
use verified_nrkernel.PageTable.Directory.Update.{
  entry_valid, entry_at_total, entry_at_lt, update-IsValid,
}
use verified_nrkernel.PageTable.Directory.Entry.{InEntry, size_pos, index_in, interp_of_entry}
use verified_nrkernel.PageTable.Directory.Frame.{
  frame_pos, frame_fits, frame_entry_base, frame_below, child_accepts, other_entry,
  new_empty_dir-IsChild, new_empty_dir-IsValid, interp-new_empty_dir,
}
use verified_nrkernel.PageTable.Directory.Change.{
  SameHeader, update-SameHeader, SameHeader-IsChild, update_self, update_nonempty, update_maps,
  nonempty_maps,
}
use verified_nrkernel.PageTable.Directory.Resolve.{child_mapping, child_layers_left}

-- The candidate is free of the directory's mappings.
abbrev pub IsFree : Directory → ℕ → PageTableEntry → Type 0
IsFree d base pte =
    (b : ℕ) (p : PageTableEntry)
    → interp d b ≡ some p
    → overlap (region base pte) (region b p) ≡ false

-- What `Ok` promises of the new directory.
pub record Mapped (d : Directory) (base : ℕ) (pte : PageTableEntry) (d' : Directory) : Type 0 where
  pub valid : IsValid d'
  pub header : SameHeader d d'
  pub nonempty : is_empty_dir d' ≡ false
  pub free : IsFree d base pte
  pub maps : (va : ℕ) → interp d' va ≡ insert (interp d) base pte va

-- What `Err` promises: nothing has changed, and a mapping is in the way.
pub record Refused (d : Directory) (base : ℕ) (pte : PageTableEntry) (d' : Directory) : Type 0 where
  pub unchanged : d' ≡ d
  pub at : ℕ
  pub other : PageTableEntry
  pub mapped : interp d at ≡ some other
  pub overlaps : overlap (region base pte) (region at other) ≡ true

abbrev pub Promised : Directory → ℕ → PageTableEntry → Outcome → Type 0
Promised d base pte (ok d') = Mapped d base pte d'
Promised d base pte (err d') = Refused d base pte d'

module _ (d : Directory) (base : ℕ) (pte : PageTableEntry) (v : IsValid d)
    (acc : AcceptedMapping d base pte) (j : ℕ) (r : InEntry d j base) where
  -- Entry `j` may be replaced by `e` if that maps the entry's addresses as asked.
  pub write_entry :
      (old e : NodeEntry)
      → entry_at (entries d) j ≡ some old
      → IsValidEntry (arch d) (layer d) (base_vaddr d) j e
      → is_empty_dir (update d j e) ≡ false
      → ((b : ℕ) (p : PageTableEntry)
          → InEntry d j b
          → interp d b ≡ some p
          → overlap (region base pte) (region b p) ≡ false)
      → ((va : ℕ)
          → InEntry d j va
          → interp_entry (arch d) (layer d) (base_vaddr d) j e va ≡ insert (interp d) base pte va)
      → Mapped d base pte (update d j e)
  write_entry old e h w ne here maps = record {
    valid = update-IsValid d j e v w;
    header = update-SameHeader d j e;
    nonempty = ne;
    free = λ b p m. elim (other_entry d base pte v acc j r b p m) [
      | inl in_j ↦ here b p in_j m
      | inr no_overlap ↦ no_overlap
    ];
    maps =
        update_maps d j e (insert (interp d) base pte) v w (entry_at_lt (entries d) j h) maps
          (λ va out. ground arith);
  }

  pub refuse_page :
      (p : PageTableEntry) → entry_at (entries d) j ≡ some (page p) → Refused d base pte d
  unfolding interp
  refuse_page p h =
      let w = entry_valid d j (page p) v h in
      let at : ℕ = base_vaddr d + j * dir_entry_size d in
      let at_base : InEntry d j at = (omega arith, omega (arith, size_pos d v)) in
      record {
        unchanged = refl;
        at = at;
        other = p;
        mapped = interp_of_entry d v j at (page p) h at_base ∙ ground arith;
        overlaps = ground (arith, w, r);
      }

  pub refuse_directory :
      (d' : Directory)
      → entry_at (entries d) j ≡ some (directory d')
      → dir_entry_size d ≡ pte.frame.size
      → Refused d base pte d
  refuse_directory d' h e =
      let w = entry_valid d j (directory d') v h in
      let (va, p, m) = nonempty_maps d' w.1 w.2 in
      let (in_j, m') = child_mapping d d' j va p v h m in
      let b = frame_entry_base d base pte v acc e j r in
      record { unchanged = refl; at = va; other = p; mapped = m'; overlaps = ground (arith, in_j) }

  pub map_page :
      entry_at (entries d) j ≡ some empty
      → dir_entry_size d ≡ pte.frame.size
      → Mapped d base pte (update d j (page pte))
  unfolding interp
  map_page h e =
      write_entry empty (page pte) h (sym e, subst (Aligned pte.frame.base) (sym e) acc.1)
        (update_nonempty d j (page pte) (entry_at_lt (entries d) j h) refl)
        (λ b p in_j m. cc (interp_of_entry d v j b empty h in_j))
        (λ va in_j.
          ground
            (arith, frame_entry_base d base pte v acc e j r, interp_of_entry d v j va empty h in_j))

  -- The directory below has taken the mapping.
  pub map_below :
      (old : NodeEntry) (d' d'' : Directory)
      → entry_at (entries d) j ≡ some old
      → IsChild (arch d) (layer d) (base_vaddr d) j d'
      → ((va : ℕ) → InEntry d j va → interp d va ≡ interp d' va)
      → Mapped d' base pte d''
      → Mapped d base pte (update d j (directory d''))
  unfolding interp
  map_below old d' d'' h c same m =
      write_entry old (directory d'') h (SameHeader-IsChild m.header c, m.valid, m.nonempty)
        (update_nonempty d j (directory d'') (entry_at_lt (entries d) j h) refl)
        (λ b p in_j k. m.free b p (sym (same b in_j) ∙ k))
        (λ va in_j. m.maps va ∙ ground (arith, same va in_j))

  pub refuse_below :
      (d' d'' : Directory)
      → entry_at (entries d) j ≡ some (directory d')
      → Refused d' base pte d''
      → Refused d base pte (update d j (directory d''))
  refuse_below d' d'' h m = record {
    unchanged = ap (λ x. update d j (directory x)) m.unchanged ∙ update_self d j (directory d') h;
    at = m.at;
    other = m.other;
    mapped = (child_mapping d d' j m.at m.other v h m.mapped).1;
    overlaps = m.overlaps;
  }
