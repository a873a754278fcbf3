-- ===== src/PageTable/Directory/Update.antt =====
-- page-table/impl_u/l1.rs: `Directory::update`, its invariant and its map.
use mathlib.Core.Option.{some-injective}
use native.Mathlib.Nat.{add-zero, zero-add}
use verified_nrkernel.Prelude.{
  ℕ, zero, suc, ◌+◌, ◌*◌, ◌<◌, ◌≤◌, ◌≡◌, refl, sym, ap, ◌∙◌, subst, some, ◌⊎◌, arith, length,
}
use verified_nrkernel.PageTable.Arch.{Arch, IsArch, entry_size}
use verified_nrkernel.PageTable.Directory.{
  NodeEntry, Directory, dir, Entries, nil, cons, entries, layer, base_vaddr, arch, dir_entry_size,
  num, entry_at, set_entry, update,
}
use verified_nrkernel.PageTable.Directory.Interp.{
  IsValid, IsValidEntry, AreValid, prefer, interp, interp_entry, interp_entries, interp_slot,
}
use verified_nrkernel.PageTable.Directory.Lemmas.{are_valid, entry_outside, interp_inside}

-- Writing an entry.
pub num-set_entry : (es : Entries) (j : ℕ) (e : NodeEntry) → num (set_entry es j e) ≡ num es
num-set_entry nil j e = refl
num-set_entry (cons x es) zero e = refl
num-set_entry (cons x es) (suc j) e = ap suc (num-set_entry es j e)

pub entry_at-set_entry :
    (es : Entries) (j : ℕ) (e : NodeEntry) → j < num es → entry_at (set_entry es j e) j ≡ some e
entry_at-set_entry nil j e h = absurd (omega arith)
entry_at-set_entry (cons x es) zero e h = refl
entry_at-set_entry (cons x es) (suc j) e h = entry_at-set_entry es j e (omega arith)

pub entry_at_total :
    (es : Entries) (j : ℕ) → j < num es → (e : NodeEntry) × (entry_at es j ≡ some e)
entry_at_total nil j h = absurd (omega arith)
entry_at_total (cons x es) zero h = (x, refl)
entry_at_total (cons x es) (suc j) h = entry_at_total es j (omega arith)

pub entry_at_lt : (es : Entries) (j : ℕ) {e : NodeEntry} → entry_at es j ≡ some e → j < num es
entry_at_lt nil j h = ground arith
entry_at_lt (cons x es) zero h = omega arith
entry_at_lt (cons x es) (suc j) h = omega (arith, entry_at_lt es j h)

suc_shift : (i j : ℕ) → i + 1 + j ≡ i + suc j
suc_shift i j = omega arith

entries_valid_at :
    (es : Entries) (a : Arch) (l b i j : ℕ) {e : NodeEntry}
    → AreValid a l b i es
    → entry_at es j ≡ some e
    → IsValidEntry a l b (i + j) e
entries_valid_at nil a l b i j v h = absurd (ground arith)
entries_valid_at (cons x es) a l b i zero {e} v h =
    subst (IsValidEntry a l b (i + 0)) (some-injective x e h)
      (subst (λ k. IsValidEntry a l b k x) (sym (add-zero i)) v.0)
entries_valid_at (cons x es) a l b i (suc j) {e} v h =
    subst (λ k. IsValidEntry a l b k e) (suc_shift i j) (entries_valid_at es a l b (i + 1) j v.1 h)

entries_valid_set :
    (es : Entries) (a : Arch) (l b i j : ℕ) (e : NodeEntry)
    → AreValid a l b i es
    → IsValidEntry a l b (i + j) e
    → AreValid a l b i (set_entry es j e)
entries_valid_set nil a l b i j e v w = tt
entries_valid_set (cons x es) a l b i zero e v w =
    (subst (λ k. IsValidEntry a l b k e) (add-zero i) w, v.1)
entries_valid_set (cons x es) a l b i (suc j) e v w = (
  v.0,
  entries_valid_set es a l b (i + 1) j e v.1
      (subst (λ k. IsValidEntry a l b k e) (sym (suc_shift i j)) w),
)

-- Writing entry `j` changes the map at no address outside that entry.
entries_set_outside :
    (es : Entries) (a : Arch) (l b i j va : ℕ) (e : NodeEntry)
    → IsArch a
    → l < length a.layers
    → AreValid a l b i es
    → IsValidEntry a l b (i + j) e
    → (va < b + (i + j) * entry_size a l) ⊎ (b + (i + j + 1) * entry_size a l ≤ va)
    → interp_entries a l b i (set_entry es j e) va ≡ interp_entries a l b i es va
unfolding interp
entries_set_outside nil a l b i j va e ia lt v w out = refl
entries_set_outside (cons x es) a l b i zero va e ia lt v w out =
    let out' : (va < b + i * entry_size a l) ⊎ (b + (i + 1) * entry_size a l ≤ va) =
      subst (λ k. (va < b + k * entry_size a l) ⊎ (b + (k + 1) * entry_size a l ≤ va)) (add-zero i)
        out in
    let w' = subst (λ k. IsValidEntry a l b k e) (add-zero i) w in
    ap (λ o. prefer o (interp_entries a l b (i + 1) es va))
      (entry_outside e a l b i va ia lt w' out' ∙ sym (entry_outside x a l b i va ia lt v.0 out'))
entries_set_outside (cons x es) a l b i (suc j) va e ia lt v w out =
    let s = sym (suc_shift i j) in
    ap (prefer (interp_entry a l b i x va)) (
      entries_set_outside es a l b (i + 1) j va e ia lt v.1
        (subst (λ k. IsValidEntry a l b k e) s w)
        (subst (λ k. (va < b + k * entry_size a l) ⊎ (b + (k + 1) * entry_size a l ≤ va)) s out))

module _ (d : Directory) (j : ℕ) (e : NodeEntry) (v : IsValid d) where
  -- The entry at an index meets the invariant of an entry.
  pub entry_valid :
      entry_at (entries d) j ≡ some e → IsValidEntry (arch d) (layer d) (base_vaddr d) j e
  entry_valid h =
      subst (λ k. IsValidEntry (arch d) (layer d) (base_vaddr d) k e) (zero-add j)
        (entries_valid_at (entries d) (arch d) (layer d) (base_vaddr d) 0 j (are_valid d v) h)

-- Writing a valid entry keeps the invariant.
pub update-IsValid :
    (d : Directory) (j : ℕ) (e : NodeEntry)
    → IsValid d
    → IsValidEntry (arch d) (layer d) (base_vaddr d) j e
    → IsValid (update d j e)
update-IsValid (dir es l b a f) j e v w = (
  record {
    arch_inv = v.0.arch_inv;
    layer_lt = v.0.layer_lt;
    base_aligned = v.0.base_aligned;
    entries_len = num-set_entry es j e ∙ v.0.entries_len;
    flags_permissive = v.0.flags_permissive;
  },
  entries_valid_set es a l b 0 j e v.1 (subst (λ k. IsValidEntry a l b k e) (sym (zero-add j)) w),
)

-- The map after writing a valid entry `e` at `j`: that of `e` in the entry's addresses, and the old
-- one elsewhere.
pub interp-update_inside :
    (d : Directory) (j va : ℕ) (e : NodeEntry)
    → IsValid d
    → IsValidEntry (arch d) (layer d) (base_vaddr d) j e
    → j < num (entries d)
    → base_vaddr d + j * dir_entry_size d ≤ va
    → va < base_vaddr d + (j + 1) * dir_entry_size d
    → interp (update d j e) va ≡ interp_entry (arch d) (layer d) (base_vaddr d) j e va
unfolding interp_slot
interp-update_inside (dir es l b a f) j va e v w h lo hi =
    let d' = update-IsValid (dir es l b a f) j e v w in
    interp_inside (dir (set_entry es j e) l b a f) j va d' lo hi
    ∙ ap (λ o. interp_slot a l b j o va) (entry_at-set_entry es j e h)

pub interp-update_outside :
    (d : Directory) (j va : ℕ) (e : NodeEntry)
    → IsValid d
    → IsValidEntry (arch d) (layer d) (base_vaddr d) j e
    → (va < base_vaddr d + j * dir_entry_size d) ⊎ (base_vaddr d + (j + 1) * dir_entry_size d ≤ va)
    → interp (update d j e) va ≡ interp d va
unfolding interp
interp-update_outside (dir es l b a f) j va e v w out =
    let s = sym (zero-add j) in
    entries_set_outside es a l b 0 j va e v.0.arch_inv v.0.layer_lt v.1
      (subst (λ k. IsValidEntry a l b k e) s w)
      (subst (λ k. (va < b + k * entry_size a l) ⊎ (b + (k + 1) * entry_size a l ≤ va)) s out)
