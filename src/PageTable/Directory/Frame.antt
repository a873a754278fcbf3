-- ===== src/PageTable/Directory/Frame.antt =====
-- page-table/impl_u/l1.rs: what an accepted mapping says of the entry that it belongs to
-- (`lemma_accepted_mapping_implies_directory_accepted_mapping`), and new directories.
use native.Mathlib.Nat.{mul_comm, mod_self, add-mul-mod_self_right}
use verified_nrkernel.Prelude.{
  ℕ, zero, suc, ◌+◌, ◌-◌, ◌*◌, ◌/◌, ◌<◌, ◌≤◌, ◌≡◌, ◌≢◌, refl, sym, ap, ◌∙◌, subst, true, false,
  none, some, ◌⊎◌, inl, inr, arith, length, dec_lt,
}
use verified_nrkernel.PageTable.Arch.{
  Arch, PageTableEntry, entry_size, num_entries, Aligned, overlap,
}
use verified_nrkernel.PageTable.Arch.Index.{
  Aligned-mul, Aligned-mul_left, block_fits, Aligned-entry_base, entry_sizes-Aligned,
  entry_size_pos, index_unique,
}
use verified_nrkernel.PageTable.Contents.{region}
use verified_nrkernel.PageTable.Directory.{
  empty, Directory, dir, layer, base_vaddr, arch, dir_entry_size, num, new_seq, all_empty,
  new_empty_dir, AcceptedMapping,
}
use verified_nrkernel.PageTable.Directory.Interp.{
  IsChild, IsValid, AreValid, interp, interp_entries,
}
use verified_nrkernel.PageTable.Directory.Lemmas.{well_formed, child_upper}
use verified_nrkernel.PageTable.Directory.Entry.{InEntry, size_pos, mapped_by}

pub Aligned-trans : (a b c : ℕ) → Aligned a b → Aligned b c → Aligned a c
Aligned-trans a b c h k = rw (Aligned-mul a b h, mul_comm) (Aligned-mul_left (a / b) b c k)

pub dir_base-Aligned : (d : Directory) → IsValid d → Aligned (base_vaddr d) (dir_entry_size d)
dir_base-Aligned d v =
    Aligned-trans (base_vaddr d) (dir_entry_size d * num_entries (arch d) (layer d)) _
      (well_formed d v).base_aligned
      (rw mul_comm (Aligned-mul_left (num_entries (arch d) (layer d)) _ _ (mod_self _)))

module _ (d : Directory) (base : ℕ) (pte : PageTableEntry) (v : IsValid d)
    (acc : AcceptedMapping d base pte) where
  abbrev frame_layer : ℕ
  frame_layer = acc.3.0

  pub frame_pos : 0 < pte.frame.size
  frame_pos =
      let p = entry_size_pos (well_formed d v).arch_inv frame_layer acc.3.2 in
      let e = acc.3.3 in omega arith

  -- The frame's size divides the entry size of the directory.
  pub entry_size-Aligned : Aligned (dir_entry_size d) pte.frame.size
  entry_size-Aligned =
      let k : layer d + (frame_layer - layer d) ≡ frame_layer = omega (arith, acc.3.1) in
      let h =
        entry_sizes-Aligned (well_formed d v).arch_inv (frame_layer - layer d) (layer d)
          (subst (λ i. i < length (arch d).layers) (sym k) acc.3.2) in
      subst (Aligned (dir_entry_size d)) (ap (entry_size (arch d)) k ∙ acc.3.3) h

  pub frame_fits :
      (j : ℕ) → InEntry d j base → base + pte.frame.size ≤ base_vaddr d + (j + 1) * dir_entry_size d
  frame_fits j r =
      block_fits (base_vaddr d) base pte.frame.size (dir_entry_size d) j
        (Aligned-trans _ _ _ (dir_base-Aligned d v) entry_size-Aligned) acc.0 entry_size-Aligned r.1

  -- A frame of the directory's own size is a whole entry.
  pub frame_entry_base :
      dir_entry_size d ≡ pte.frame.size
      → (j : ℕ) → InEntry d j base
      → base_vaddr d + j * dir_entry_size d ≡ base
  frame_entry_base e j r =
      let i = index_unique (base_vaddr d) base (dir_entry_size d) j (size_pos d v) r.0 r.1 in
      ap (λ k. base_vaddr d + k * dir_entry_size d) (sym i)
      ∙ Aligned-entry_base (base_vaddr d) base (dir_entry_size d) (size_pos d v) (omega arith)
          (dir_base-Aligned d v) (subst (Aligned base) (sym e) acc.0)

  -- A smaller frame belongs to a lower layer.
  pub frame_below : dir_entry_size d ≢ pte.frame.size → layer d + 1 ≤ frame_layer
  frame_below ne = elim (dec_lt (layer d) frame_layer) [
    | yes lt ↦ omega arith
    | no ge ↦
        let e : layer d ≡ frame_layer = omega (arith, acc.3.1) in
        absurd (ne (ap (entry_size (arch d)) e ∙ acc.3.3))
  ]

  -- The mapping is accepted by a directory at the entry that it belongs to.
  pub child_accepts :
      (j : ℕ) (d' : Directory)
      → InEntry d j base
      → IsChild (arch d) (layer d) (base_vaddr d) j d'
      → IsValid d'
      → dir_entry_size d ≢ pte.frame.size
      → AcceptedMapping d' base pte
  child_accepts j d' r c w ne =
      let up = child_upper (well_formed d v).arch_inv c (well_formed d' w).layer_lt in
      let lo = c.child_base in
      let le = frame_below ne in
      (
        acc.0,
        acc.1,
        (omega arith, omega (arith, frame_fits j r)),
        (
          frame_layer,
          omega (arith, c.child_layer),
          subst (λ x. frame_layer < length x.layers) (sym c.child_arch) acc.3.2,
          ap (λ x. entry_size x frame_layer) c.child_arch ∙ acc.3.3,
        ),
      )

  -- A mapping of the directory that is not in the candidate's entry does not overlap it.
  pub other_entry :
      (j : ℕ)
      → InEntry d j base
      → (b : ℕ) (p : PageTableEntry) → interp d b ≡ some p
      → InEntry d j b ⊎ (overlap (region base pte) (region b p) ≡ false)
  other_entry j r b p m =
      let w = mapped_by d v b p m in
      let fits = frame_fits j r in
      elim (dec_lt w.at j) [
        | yes lt ↦
            let gap : (w.at + 1) * dir_entry_size d ≤ j * dir_entry_size d = grind arith in
            inr (ground (arith, w.within, frame_pos))
        | no ge ↦ elim (dec_lt j w.at) [
          | yes gt ↦
              let gap : (j + 1) * dir_entry_size d ≤ w.at * dir_entry_size d = grind arith in
              inr (ground (arith, w.within, frame_pos))
          | no le ↦
              let e : w.at ≡ j = omega arith in
              inl (subst (λ k. InEntry d k b) e (omega (arith, w.within)))
        ]
      ]

all_empty-new_seq : (n : ℕ) → all_empty (new_seq n empty) ≡ true
all_empty-new_seq zero = refl
all_empty-new_seq (suc n) = all_empty-new_seq n

num-new_seq : (n : ℕ) → num (new_seq n empty) ≡ n
num-new_seq zero = refl
num-new_seq (suc n) = ap suc (num-new_seq n)

AreValid-new_seq : (n : ℕ) (a : Arch) (l b i : ℕ) → AreValid a l b i (new_seq n empty)
AreValid-new_seq zero a l b i = tt
AreValid-new_seq (suc n) a l b i = (tt, AreValid-new_seq n a l b (i + 1))

interp-new_seq :
    (n : ℕ) (a : Arch) (l b i va : ℕ) → interp_entries a l b i (new_seq n empty) va ≡ none
unfolding interp
interp-new_seq zero a l b i va = refl
interp-new_seq (suc n) a l b i va = interp-new_seq n a l b (i + 1) va

-- A new directory is a child of its entry.
pub new_empty_dir-IsChild :
    (d : Directory) (j : ℕ) → IsChild (arch d) (layer d) (base_vaddr d) j (new_empty_dir d j)
new_empty_dir-IsChild (dir es l b a f) j = record {
  child_layer = refl;
  child_base = refl;
  child_arch = refl;
}

-- A new directory meets the invariant, if there is a layer for it (`lemma_new_empty_dir`).
pub new_empty_dir-IsValid :
    (d : Directory) (j : ℕ)
    → IsValid d
    → Aligned (base_vaddr d) (dir_entry_size d)
    → layer d + 1 < length (arch d).layers
    → IsValid (new_empty_dir d j)
new_empty_dir-IsValid (dir es l b a f) j v al lt = (
  record {
    arch_inv = v.0.arch_inv;
    layer_lt = lt;
    base_aligned =
        subst (Aligned (b + j * entry_size a l)) (v.0.arch_inv.next_layer_size l lt)
          (base_of_entry b (entry_size a l) j al);
    entries_len = num-new_seq (num_entries a (l + 1));
    flags_permissive = refl;
  },
  AreValid-new_seq (num_entries a (l + 1)) a (l + 1) (b + j * entry_size a l) 0,
)
  where
    base_of_entry : (x s k : ℕ) → Aligned x s → Aligned (x + k * s) s
    base_of_entry x s k h = rw add-mul-mod_self_right h

-- A new directory maps nothing.
pub interp-new_empty_dir : (d : Directory) (j va : ℕ) → interp (new_empty_dir d j) va ≡ none
unfolding interp
interp-new_empty_dir (dir es l b a f) j va =
    interp-new_seq (num_entries a (l + 1)) a (l + 1) (b + j * entry_size a l) 0 va
