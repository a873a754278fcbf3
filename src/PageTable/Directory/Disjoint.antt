-- ===== src/PageTable/Directory/Disjoint.antt =====
-- page-table/impl_u/l1.rs: a valid directory stands for valid contents
-- (`lemma_inv_implies_interp_inv`).
use native.Mathlib.Nat.{add-mul-mod_self_right}
use verified_nrkernel.Prelude.{
  ℕ, ◌+◌, ◌*◌, ◌<◌, ◌≡◌, sym, subst, false, some, ◌⊎◌, inl, inr, arith, length,
}
use verified_nrkernel.PageTable.Arch.{
  Arch, IsArch, PageTableEntry, entry_size, Aligned, overlap, ContainsEntrySize,
}
use verified_nrkernel.PageTable.Contents.{IsContents, region}
use verified_nrkernel.PageTable.Directory.{
  NodeEntry, directory, page, empty, Directory, dir, Entries, nil, cons, arch,
}
use verified_nrkernel.PageTable.Directory.Interp.{
  IsValid, IsValidEntry, AreValid, interp, interp_entry, interp_entries,
}
use verified_nrkernel.PageTable.Directory.Lemmas.{
  well_formed, mapping-Within, entry-Within, entries-Within, prefer-some,
}
use verified_nrkernel.PageTable.Directory.Frame.{dir_base-Aligned}
use verified_nrkernel.PageTable.Directory.Abstract.{contents}

-- Two mappings at different addresses are apart.
abbrev Apart : ℕ → ℕ → PageTableEntry → PageTableEntry → Type 0
Apart b1 b2 p1 p2 = (b1 ≡ b2) ⊎ (overlap (region b1 p1) (region b2 p2) ≡ false)

mutual
  unfolding interp

  dir-Apart :
      (d : Directory) (b1 b2 : ℕ) (p1 p2 : PageTableEntry)
      → IsValid d
      → interp d b1 ≡ some p1
      → interp d b2 ≡ some p2
      → Apart b1 b2 p1 p2
  dir-Apart (dir es l b a f) b1 b2 p1 p2 v h k =
      entries-Apart es a l b 0 b1 b2 p1 p2 v.0.arch_inv v.0.layer_lt v.1 h k

  entry-Apart :
      (e : NodeEntry) (a : Arch) (l b i b1 b2 : ℕ) (p1 p2 : PageTableEntry)
      → IsValidEntry a l b i e
      → interp_entry a l b i e b1 ≡ some p1
      → interp_entry a l b i e b2 ≡ some p2
      → Apart b1 b2 p1 p2
  entry-Apart (directory d) a l b i b1 b2 p1 p2 v h k = dir-Apart d b1 b2 p1 p2 v.1 h k
  entry-Apart (page p) a l b i b1 b2 p1 p2 v h k = let e : b1 ≡ b2 = ground arith in inl e
  entry-Apart empty a l b i b1 b2 p1 p2 v h k = cc

  entries-Apart :
      (es : Entries) (a : Arch) (l b i b1 b2 : ℕ) (p1 p2 : PageTableEntry)
      → IsArch a
      → l < length a.layers
      → AreValid a l b i es
      → interp_entries a l b i es b1 ≡ some p1
      → interp_entries a l b i es b2 ≡ some p2
      → Apart b1 b2 p1 p2
  entries-Apart nil a l b i b1 b2 p1 p2 ia lt v h k = cc
  entries-Apart (cons e es) a l b i b1 b2 p1 p2 ia lt v h k =
      elim (prefer-some (interp_entry a l b i e b1) (interp_entries a l b (i + 1) es b1) h) [
        | inl h1 ↦
            elim (prefer-some (interp_entry a l b i e b2) (interp_entries a l b (i + 1) es b2) k) [
              | inl k1 ↦ entry-Apart e a l b i b1 b2 p1 p2 v.0 h1 k1
              | inr k2 ↦
                  let x = entry-Within e a l b i b1 p1 ia lt v.0 h1 in
                  let y = entries-Within es a l b (i + 1) b2 p2 ia lt v.1 k2.1 in inr (ground arith)
            ]
        | inr h2 ↦
            elim (prefer-some (interp_entry a l b i e b2) (interp_entries a l b (i + 1) es b2) k) [
              | inl k1 ↦
                  let x = entry-Within e a l b i b2 p2 ia lt v.0 k1 in
                  let y = entries-Within es a l b (i + 1) b1 p1 ia lt v.1 h2.1 in inr (ground arith)
              | inr k2 ↦ entries-Apart es a l b (i + 1) b1 b2 p1 p2 ia lt v.1 h2.1 k2.1
            ]
      ]

-- The size of a mapping is that of some layer, and the mapping and its frame are aligned to it.
abbrev Sized : Arch → ℕ → PageTableEntry → Type 0
Sized a va p =
    ContainsEntrySize a p.frame.size × Aligned va p.frame.size × Aligned p.frame.base p.frame.size

mutual
  unfolding interp

  dir-Sized :
      (d : Directory) (va : ℕ) (p : PageTableEntry)
      → IsValid d
      → interp d va ≡ some p
      → Sized (arch d) va p
  dir-Sized (dir es l b a f) va p v h =
      entries-Sized es a l b 0 va p v.0.layer_lt (dir_base-Aligned (dir es l b a f) v) v.1 h

  entry-Sized :
      (e : NodeEntry) (a : Arch) (l b i va : ℕ) (p : PageTableEntry)
      → l < length a.layers
      → Aligned b (entry_size a l)
      → IsValidEntry a l b i e
      → interp_entry a l b i e va ≡ some p
      → Sized a va p
  entry-Sized (directory d) a l b i va p lt al v h =
      subst (λ x. Sized x va p) (v.0).child_arch (dir-Sized d va p v.1 h)
  entry-Sized (page q) a l b i va p lt al v h =
      let e : q ≡ p = ground arith in
      let at : b + i * entry_size a l ≡ va = ground arith in
      subst (Sized a va) e (
        (l, omega arith, lt, sym v.0),
        subst (Aligned va) (sym v.0)
            (subst (λ x. Aligned x (entry_size a l)) at (rw add-mul-mod_self_right al)),
        subst (Aligned q.frame.base) (sym v.0) v.1,
      )
  entry-Sized empty a l b i va p lt al v h = cc

  entries-Sized :
      (es : Entries) (a : Arch) (l b i va : ℕ) (p : PageTableEntry)
      → l < length a.layers
      → Aligned b (entry_size a l)
      → AreValid a l b i es
      → interp_entries a l b i es va ≡ some p
      → Sized a va p
  entries-Sized nil a l b i va p lt al v h = cc
  entries-Sized (cons e es) a l b i va p lt al v h =
      elim (prefer-some (interp_entry a l b i e va) (interp_entries a l b (i + 1) es va) h) [
        | inl k ↦ entry-Sized e a l b i va p lt al v.0 k
        | inr k ↦ entries-Sized es a l b (i + 1) va p lt al v.1 k.1
      ]

-- The contents of a valid directory are valid: each mapping has the size of a layer, is aligned to
-- it with its frame, lies within the directory, and overlaps no other.
pub contents-IsContents : (d : Directory) → IsValid d → IsContents (contents d)
contents-IsContents d v = record {
  arch_inv = (well_formed d v).arch_inv;
  mappings_are_of_valid_size = λ va p h. (dir-Sized d va p v h).0;
  mappings_are_aligned = λ va p h. let s = dir-Sized d va p v h in (s.1, s.2);
  mappings_dont_overlap = λ b1 b2 p1 p2 h k. dir-Apart d b1 b2 p1 p2 v h k;
  mappings_in_bounds = λ b p h. let w = mapping-Within d b p v h in (w.0, w.1);
}
