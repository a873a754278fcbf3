-- ===== src/PageTable/Directory/Entry.antt =====
-- page-table/impl_u/l1.rs: the entry that an address belongs to, and the entry of a mapping.
use verified_nrkernel.Prelude.{ℕ, ◌+◌, ◌*◌, ◌<◌, ◌≤◌, ◌≡◌, sym, ap, ◌∙◌, subst, some, arith}
use verified_nrkernel.PageTable.Arch.{PageTableEntry}
use verified_nrkernel.PageTable.Arch.Index.{index_unique, index_bounds, index_lt, entry_size_pos}
use verified_nrkernel.PageTable.Directory.{
  NodeEntry, Directory, entries, layer, base_vaddr, arch, dir_upper, dir_entry_size, dir_index, num,
  entry_at,
}
use verified_nrkernel.PageTable.Directory.Interp.{IsValid, interp, interp_entry, interp_slot}
use verified_nrkernel.PageTable.Directory.Lemmas.{
  well_formed, Within, mapping-Within, interp_inside, entry-Within,
}
use verified_nrkernel.PageTable.Directory.Update.{entry_valid, entry_at_total}

-- The address lies in entry `j` of the directory.
abbrev pub InEntry : Directory → ℕ → ℕ → Type 0
InEntry d j va =
    (base_vaddr d + j * dir_entry_size d ≤ va) × (va < base_vaddr d + (j + 1) * dir_entry_size d)

-- A mapping of the directory is one of some entry, and lies in that entry.
pub record MappedBy (d : Directory) (va : ℕ) (p : PageTableEntry) : Type 0 where
  pub at : ℕ
  pub entry : NodeEntry
  pub here : entry_at (entries d) at ≡ some entry
  pub mapped : interp_entry (arch d) (layer d) (base_vaddr d) at entry va ≡ some p
  pub within :
      Within
        (base_vaddr d + at * dir_entry_size d)
        (base_vaddr d + (at + 1) * dir_entry_size d)
        va
        p

module _ (d : Directory) (v : IsValid d) where
  pub size_pos : 0 < dir_entry_size d
  size_pos = entry_size_pos (well_formed d v).arch_inv (layer d) (well_formed d v).layer_lt

  -- An address of the directory lies in the entry that its index names, and that entry is there.
  pub index_in :
      (va : ℕ)
      → base_vaddr d ≤ va
      → va < dir_upper d
      → InEntry d (dir_index d va) va × (dir_index d va < num (entries d))
  index_in va lo hi = (
    index_bounds (base_vaddr d) va (dir_entry_size d) size_pos lo,
    subst (λ n. dir_index d va < n) (sym (well_formed d v).entries_len)
        (index_lt (base_vaddr d) va (dir_entry_size d) _ size_pos lo hi),
  )

  pub InEntry-unique : (j k va : ℕ) → InEntry d j va → InEntry d k va → j ≡ k
  InEntry-unique j k va a b =
      sym (index_unique (base_vaddr d) va (dir_entry_size d) j size_pos a.0 a.1)
      ∙ index_unique (base_vaddr d) va (dir_entry_size d) k size_pos b.0 b.1

  -- The map at an address of the entry `e` at `j` is that of `e`.
  pub interp_of_entry :
      (j va : ℕ) (e : NodeEntry)
      → entry_at (entries d) j ≡ some e
      → InEntry d j va
      → interp d va ≡ interp_entry (arch d) (layer d) (base_vaddr d) j e va
  unfolding interp_slot
  interp_of_entry j va e h r =
      interp_inside d j va v r.0 r.1
      ∙ ap (λ o. interp_slot (arch d) (layer d) (base_vaddr d) j o va) h

  pub mapped_by : (va : ℕ) (p : PageTableEntry) → interp d va ≡ some p → MappedBy d va p
  mapped_by va p h =
      let (lo, hi, pos) = mapping-Within d va p v h in
      let (r, lt) = index_in va lo (omega arith) in
      let (e, k) = entry_at_total (entries d) (dir_index d va) lt in
      let m = sym (interp_of_entry (dir_index d va) va e k r) ∙ h in
      record {
        at = dir_index d va;
        entry = e;
        here = k;
        mapped = m;
        within =
            entry-Within e (arch d) (layer d) (base_vaddr d) (dir_index d va) va p
              (well_formed d v).arch_inv (well_formed d v).layer_lt
              (entry_valid d (dir_index d va) e v k) m;
      }

  -- A mapping that contains an address of entry `j` is one of entry `j`.
  pub mapped_by_entry :
      (j x va : ℕ) (e : NodeEntry) (p : PageTableEntry)
      → entry_at (entries d) j ≡ some e
      → InEntry d j x
      → interp d va ≡ some p
      → va ≤ x
      → x < va + p.frame.size
      → InEntry d j va × (interp_entry (arch d) (layer d) (base_vaddr d) j e va ≡ some p)
  mapped_by_entry j x va e p h r m lo hi =
      let w = mapped_by va p m in
      let same : w.at ≡ j = InEntry-unique w.at j x (omega (arith, w.within)) r in
      let in_j : InEntry d j va = subst (λ k. InEntry d k va) same (omega (arith, w.within)) in
      (in_j, sym (interp_of_entry j va e h in_j) ∙ m)
