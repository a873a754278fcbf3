-- ===== src/PageTable/Directory/Change.antt =====
-- page-table/impl_u/l1.rs: writing an entry, seen from the whole directory's map, and directories
-- that are not empty.
use verified_nrkernel.Prelude.{
  ℕ, zero, suc, ◌+◌, ◌*◌, ◌<◌, ◌≤◌, ◌≡◌, refl, ap, ◌∙◌, false, Option, some, ◌⊎◌, inl, inr, arith,
  dec_lt, Bool-cases, Option-cases,
}
use verified_nrkernel.PageTable.Arch.{Arch, PageTableEntry, entry_base}
use verified_nrkernel.PageTable.Directory.{
  NodeEntry, directory, page, empty, Directory, dir, Entries, nil, cons, entries, layer, base_vaddr,
  arch, dir_entry_size, num, entry_at, set_entry, is_empty, all_empty, is_empty_dir, update,
}
use verified_nrkernel.PageTable.Directory.Interp.{
  IsChild, IsValid, IsValidEntry, AreValid, prefer, interp, interp_entry, interp_entries,
}
use verified_nrkernel.PageTable.Directory.Update.{interp-update_inside, interp-update_outside}
use verified_nrkernel.PageTable.Directory.Entry.{InEntry}

-- Two directories stand at the same place.
pub record SameHeader (d d' : Directory) : Type 0 where
  pub same_layer : layer d' ≡ layer d
  pub same_base : base_vaddr d' ≡ base_vaddr d
  pub same_arch : arch d' ≡ arch d

pub update-SameHeader : (d : Directory) (j : ℕ) (e : NodeEntry) → SameHeader d (update d j e)
update-SameHeader (dir es l b a f) j e = record {
  same_layer = refl;
  same_base = refl;
  same_arch = refl;
}

pub SameHeader-IsChild :
    {a : Arch} {l b i : ℕ} {d d' : Directory}
    → SameHeader d d'
    → IsChild a l b i d
    → IsChild a l b i d'
SameHeader-IsChild h c = record {
  child_layer = h.same_layer ∙ c.child_layer;
  child_base = h.same_base ∙ c.child_base;
  child_arch = h.same_arch ∙ c.child_arch;
}

set_entry_self :
    (es : Entries) (j : ℕ) (e : NodeEntry) → entry_at es j ≡ some e → set_entry es j e ≡ es
set_entry_self nil j e h = refl
set_entry_self (cons x es) zero e h = ground arith
set_entry_self (cons x es) (suc j) e h = ap (cons x) (set_entry_self es j e h)

-- Writing back the entry that is there changes nothing.
pub update_self :
    (d : Directory) (j : ℕ) (e : NodeEntry) → entry_at (entries d) j ≡ some e → update d j e ≡ d
update_self (dir es l b a f) j e h = ap (λ x. dir x l b a f) (set_entry_self es j e h)

pub all_empty-set_entry :
    (es : Entries) (j : ℕ) (e : NodeEntry)
    → j < num es
    → is_empty e ≡ false
    → all_empty (set_entry es j e) ≡ false
all_empty-set_entry nil j e lt h = absurd (omega arith)
all_empty-set_entry (cons x es) zero e lt h = ground arith
all_empty-set_entry (cons x es) (suc j) e lt h =
    ground (arith, all_empty-set_entry es j e (omega arith) h)

-- A directory with an entry that is not empty is not empty.
pub update_nonempty :
    (d : Directory) (j : ℕ) (e : NodeEntry)
    → j < num (entries d)
    → is_empty e ≡ false
    → is_empty_dir (update d j e) ≡ false
update_nonempty (dir es l b a f) j e lt h = all_empty-set_entry es j e lt h

-- If the new entry `e` maps its addresses as `m` says, and `m` is the old map elsewhere, then the
-- new directory's map is `m`.
pub update_maps :
    (d : Directory) (j : ℕ) (e : NodeEntry) (m : ℕ → Option PageTableEntry)
    → IsValid d
    → IsValidEntry (arch d) (layer d) (base_vaddr d) j e
    → j < num (entries d)
    → ((va : ℕ) → InEntry d j va → interp_entry (arch d) (layer d) (base_vaddr d) j e va ≡ m va)
    → ((va : ℕ)
        → (va < base_vaddr d + j * dir_entry_size d)
          ⊎ (base_vaddr d + (j + 1) * dir_entry_size d ≤ va)
        → interp d va ≡ m va)
    → (va : ℕ) → interp (update d j e) va ≡ m va
update_maps d j e m v w lt inside outside va =
    elim (dec_lt va (base_vaddr d + j * dir_entry_size d)) [
      | yes below ↦ interp-update_outside d j va e v w (inl below) ∙ outside va (inl below)
      | no up ↦ elim (dec_lt va (base_vaddr d + (j + 1) * dir_entry_size d)) [
        | yes hi ↦
            let lo : base_vaddr d + j * dir_entry_size d ≤ va = omega arith in
            interp-update_inside d j va e v w lt lo hi ∙ inside va (lo, hi)
        | no above ↦
            let out : base_vaddr d + (j + 1) * dir_entry_size d ≤ va = omega arith in
            interp-update_outside d j va e v w (inr out) ∙ outside va (inr out)
      ]
    ]

abbrev Mapped : (ℕ → Option PageTableEntry) → Type 0
Mapped m = (va : ℕ) × (p : PageTableEntry) × (m va ≡ some p)

prefer_left : (m n : ℕ → Option PageTableEntry) → Mapped m → Mapped (λ va. prefer (m va) (n va))
prefer_left m n (va, p, h) = (va, p, rw h)

prefer_right : (m n : ℕ → Option PageTableEntry) → Mapped n → Mapped (λ va. prefer (m va) (n va))
prefer_right m n (va, p, h) = elim (Option-cases (m va)) [
  | inl e ↦ (va, p, rw e h)
  | inr q ↦ (va, q.0, rw (q.1))
]

-- A valid directory that is not empty maps something
-- (`lemma_nonempty_implies_exists_interp_dom_contains`).
mutual
  unfolding interp

  nonempty-Mapped : (d : Directory) → IsValid d → is_empty_dir d ≡ false → Mapped (interp d)
  nonempty-Mapped (dir es l b a f) v h = entries-Mapped es a l b 0 v.1 h

  entry-Mapped :
      (e : NodeEntry) (a : Arch) (l b i : ℕ)
      → IsValidEntry a l b i e
      → is_empty e ≡ false
      → Mapped (interp_entry a l b i e)
  entry-Mapped (directory d) a l b i v h = nonempty-Mapped d v.1 v.2
  entry-Mapped (page p) a l b i v h = (entry_base a l b i, p, ground arith)
  entry-Mapped empty a l b i v h = cc

  entries-Mapped :
      (es : Entries) (a : Arch) (l b i : ℕ)
      → AreValid a l b i es
      → all_empty es ≡ false
      → Mapped (interp_entries a l b i es)
  entries-Mapped nil a l b i v h = cc
  entries-Mapped (cons e es) a l b i v h = elim (Bool-cases (is_empty e)) [
    | inl yes_empty ↦
        prefer_right (interp_entry a l b i e) (interp_entries a l b (i + 1) es)
          (entries-Mapped es a l b (i + 1) v.1 (ground arith))
    | inr no_empty ↦
        prefer_left (interp_entry a l b i e) (interp_entries a l b (i + 1) es)
          (entry-Mapped e a l b i v.0 no_empty)
  ]

pub nonempty_maps :
    (d : Directory)
    → IsValid d
    → is_empty_dir d ≡ false
    → (va : ℕ) × (p : PageTableEntry) × (interp d va ≡ some p)
nonempty_maps d v h = nonempty-Mapped d v h
