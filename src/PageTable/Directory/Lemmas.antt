-- ===== src/PageTable/Directory/Lemmas.antt =====
-- page-table/impl_u/l1.rs: where the mappings of a directory lie, and that the map of a directory at
-- an address is that of the one entry the address belongs to.
use native.Mathlib.Nat.{add-zero}
use verified_nrkernel.Prelude.{
  ℕ, zero, suc, ◌+◌, ◌*◌, ◌<◌, ◌≤◌, ◌≡◌, refl, ap, subst, Option, none, some, ◌⊎◌, inl, inr, arith,
  length,
}
use verified_nrkernel.PageTable.Arch.{Arch, IsArch, PageTableEntry, entry_size}
use verified_nrkernel.PageTable.Arch.Index.{entry_size_pos}
use verified_nrkernel.PageTable.Directory.{
  NodeEntry, directory, page, empty, Directory, dir, Entries, nil, cons, entries, layer, base_vaddr,
  arch, flags, dir_upper, dir_entry_size, num, entry_at,
}
use verified_nrkernel.PageTable.Directory.Interp.{
  IsWellFormed, IsChild, IsValid, IsValidEntry, AreValid, prefer, interp, interp_entry,
  interp_entries, interp_slot,
}

pub well_formed :
    (d : Directory)
    → IsValid d
    → IsWellFormed (num (entries d)) (layer d) (base_vaddr d) (arch d) (flags d)
well_formed (dir es l b a f) v = v.0

pub are_valid :
    (d : Directory) → IsValid d → AreValid (arch d) (layer d) (base_vaddr d) 0 (entries d)
are_valid (dir es l b a f) v = v.1

-- A child directory ends where its entry ends.
pub child_upper :
    {a : Arch} {l b i : ℕ} {d : Directory}
    → IsArch a
    → IsChild a l b i d
    → layer d < length (arch d).layers
    → dir_upper d ≡ b + (i + 1) * entry_size a l
child_upper {a} {l} {b} {i} {d} v c lt =
    rw (c.child_base, c.child_arch, c.child_layer)
      (omega (
        arith,
        v.next_layer_size l (
            subst (λ x. x < length a.layers) c.child_layer
              (subst (λ x. layer d < length x.layers) c.child_arch lt)),
      ))

-- A mapping lies between two addresses, and is not empty.
abbrev pub Within : ℕ → ℕ → ℕ → PageTableEntry → Type 0
Within lo hi va p = (lo ≤ va) × (va + p.frame.size ≤ hi) × (0 < p.frame.size)

pub prefer-some :
    (p q : Option PageTableEntry) {r : PageTableEntry}
    → prefer p q ≡ some r
    → (p ≡ some r) ⊎ ((p ≡ none) × (q ≡ some r))
prefer-some none q h = inr (refl, h)
prefer-some (some p) q h = inl h

-- Each mapping of a directory lies within the directory, and each of an entry within the entry.
mutual
  unfolding interp

  interp-Within :
      (d : Directory) (va : ℕ) (p : PageTableEntry)
      → IsValid d
      → interp d va ≡ some p
      → Within (base_vaddr d) (dir_upper d) va p
  interp-Within (dir es l b a f) va p v h =
      let (x, y, z) = entries-Within es a l b 0 va p v.0.arch_inv v.0.layer_lt v.1 h in
      (omega arith, omega (arith, ap (λ t. t * entry_size a l) v.0.entries_len), z)

  pub entry-Within :
      (e : NodeEntry) (a : Arch) (l b i va : ℕ) (p : PageTableEntry)
      → IsArch a
      → l < length a.layers
      → IsValidEntry a l b i e
      → interp_entry a l b i e va ≡ some p
      → Within (b + i * entry_size a l) (b + (i + 1) * entry_size a l) va p
  entry-Within (directory d) a l b i va p ia lt v h =
      let (x, y, z) = interp-Within d va p v.1 h in
      let up = child_upper ia v.0 (well_formed d v.1).layer_lt in
      let lo = (v.0).child_base in (omega arith, omega arith, z)
  entry-Within (page q) a l b i va p ia lt v h = let pos = entry_size_pos ia l lt in ground arith
  entry-Within empty a l b i va p ia lt v h = ground arith

  pub entries-Within :
      (es : Entries) (a : Arch) (l b i va : ℕ) (p : PageTableEntry)
      → IsArch a
      → l < length a.layers
      → AreValid a l b i es
      → interp_entries a l b i es va ≡ some p
      → Within (b + i * entry_size a l) (b + (i + num es) * entry_size a l) va p
  entries-Within nil a l b i va p ia lt v h = ground arith
  entries-Within (cons e es) a l b i va p ia lt v h =
      elim (prefer-some (interp_entry a l b i e va) (interp_entries a l b (i + 1) es va) h) [
        | inl k ↦ let (x, y, z) = entry-Within e a l b i va p ia lt v.0 k in (x, omega arith, z)
        | inr k ↦
            let (x, y, z) = entries-Within es a l b (i + 1) va p ia lt v.1 k.1 in
            (omega arith, omega arith, z)
      ]

pub mapping-Within :
    (d : Directory) (va : ℕ) (p : PageTableEntry)
    → IsValid d
    → interp d va ≡ some p
    → Within (base_vaddr d) (dir_upper d) va p
mapping-Within = interp-Within

none_of : (o : Option PageTableEntry) → ((p : PageTableEntry) → o ≡ some p → ⊥) → o ≡ none
none_of none f = refl
none_of (some p) f = absurd (f p refl)

prefer-none : (o : Option PageTableEntry) → prefer o none ≡ o
prefer-none none = refl
prefer-none (some p) = refl

-- An entry maps nothing outside its own addresses.
pub entry_outside :
    (e : NodeEntry) (a : Arch) (l b i va : ℕ)
    → IsArch a
    → l < length a.layers
    → IsValidEntry a l b i e
    → (va < b + i * entry_size a l) ⊎ (b + (i + 1) * entry_size a l ≤ va)
    → interp_entry a l b i e va ≡ none
entry_outside e a l b i va ia lt v out =
    none_of (interp_entry a l b i e va)
      (λ p h. let w = entry-Within e a l b i va p ia lt v h in omega arith)

-- Where the address belongs to entry `j`, the map is that of entry `j`.
entries_inside :
    (es : Entries) (a : Arch) (l b i j va : ℕ)
    → IsArch a
    → l < length a.layers
    → AreValid a l b i es
    → b + (i + j) * entry_size a l ≤ va
    → va < b + (i + j + 1) * entry_size a l
    → interp_entries a l b i es va ≡ interp_slot a l b (i + j) (entry_at es j) va
unfolding interp interp_slot
entries_inside nil a l b i j va ia lt v lo hi = refl
entries_inside (cons e es) a l b i zero va ia lt v lo hi =
    let rest : interp_entries a l b (i + 1) es va ≡ none =
      none_of (interp_entries a l b (i + 1) es va)
        (λ p h. let w = entries-Within es a l b (i + 1) va p ia lt v.1 h in omega arith) in
    rw (rest, prefer-none, add-zero)
entries_inside (cons e es) a l b i (suc j) va ia lt v lo hi =
    let shift : i + 1 + j ≡ i + suc j = omega arith in
    let out : interp_entry a l b i e va ≡ none =
      entry_outside e a l b i va ia lt v.0 (inr (grind arith)) in
    rw (out, ← shift) (entries_inside es a l b (i + 1) j va ia lt v.1 (omega arith) (omega arith))

-- A directory's map at an address of its entry `j`.
pub interp_inside :
    (d : Directory) (j va : ℕ)
    → IsValid d
    → base_vaddr d + j * dir_entry_size d ≤ va
    → va < base_vaddr d + (j + 1) * dir_entry_size d
    → interp d va ≡ interp_slot (arch d) (layer d) (base_vaddr d) j (entry_at (entries d) j) va
unfolding interp
interp_inside (dir es l b a f) j va v lo hi =
    let shift : 0 + j ≡ j = omega arith in
    subst (λ k. interp_entries a l b 0 es va ≡ interp_slot a l b k (entry_at es j) va) shift
      (entries_inside es a l b 0 j va v.0.arch_inv v.0.layer_lt v.1 (omega arith) (omega arith))
