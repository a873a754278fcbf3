-- ===== src/PageTable/Directory/Resolve.antt =====
-- page-table/impl_u/l1.rs: `resolve` finds the mapping that contains an address
-- (`lemma_resolve_refines`).
use verified_nrkernel.Prelude.{
  ℕ, zero, suc, ◌+◌, ◌*◌, ◌<◌, ◌≤◌, ◌≡◌, refl, ap, ◌∙◌, some, arith, length,
}
use verified_nrkernel.PageTable.Arch.{PageTableEntry}
use verified_nrkernel.PageTable.Contents.{AcceptedResolve, Finds, FindsNone}
use verified_nrkernel.PageTable.Directory.{
  NodeEntry, directory, page, empty, Directory, entries, layer, base_vaddr, arch, dir_upper,
  dir_entry_size, dir_index, entry_at, layers_left, Resolved, found, not_found, resolve_entry,
  resolve_fuel, resolve,
}
use verified_nrkernel.PageTable.Directory.Interp.{IsChild, IsValid, IsValidEntry, interp}
use verified_nrkernel.PageTable.Directory.Lemmas.{well_formed, child_upper, mapping-Within}
use verified_nrkernel.PageTable.Directory.Update.{entry_valid, entry_at_total}
use verified_nrkernel.PageTable.Directory.Entry.{
  InEntry, size_pos, index_in, interp_of_entry, mapped_by_entry,
}
use verified_nrkernel.PageTable.Directory.Abstract.{contents}

-- What a result says of the directory's contents.
abbrev pub Resolves : Directory → ℕ → Resolved → Type 0
Resolves d vaddr (found base pte) = Finds (contents d) vaddr base pte
Resolves d vaddr not_found = FindsNone (contents d) vaddr

-- The addresses of a child are those of its entry.
pub in_child :
    (d d' : Directory) (j va : ℕ)
    → IsValid d
    → IsValidEntry (arch d) (layer d) (base_vaddr d) j (directory d')
    → InEntry d j va
    → (base_vaddr d' ≤ va) × (va < dir_upper d')
in_child d d' j va v w r =
    let up = child_upper (well_formed d v).arch_inv w.0 (well_formed d' w.1).layer_lt in
    let lo = (w.0).child_base in (omega arith, omega arith)

pub child_layers_left :
    (d d' : Directory) (j : ℕ)
    → IsChild (arch d) (layer d) (base_vaddr d) j d'
    → IsValid d'
    → layers_left d ≡ suc (layers_left d')
child_layers_left d d' j c w =
    let lt = (well_formed d' w).layer_lt in
    let e : length (arch d').layers ≡ length (arch d).layers =
      ap (λ a. length a.layers) c.child_arch in
    let l = c.child_layer in omega arith

-- The mappings of a child are mappings of its parent, in the child's entry.
pub child_mapping :
    (d d' : Directory) (j va : ℕ) (p : PageTableEntry)
    → IsValid d
    → entry_at (entries d) j ≡ some (directory d')
    → interp d' va ≡ some p
    → InEntry d j va × (interp d va ≡ some p)
unfolding interp
child_mapping d d' j va p v h m =
    let w = entry_valid d j (directory d') v h in
    let (lo, hi, pos) = mapping-Within d' va p w.1 m in
    let up = child_upper (well_formed d v).arch_inv w.0 (well_formed d' w.1).layer_lt in
    let b = (w.0).child_base in
    let r : InEntry d j va = (omega arith, omega arith) in
    (r, interp_of_entry d v j va (directory d') h r ∙ m)

Resolves-child :
    (d d' : Directory) (j vaddr : ℕ) (x : Resolved)
    → IsValid d
    → InEntry d j vaddr
    → entry_at (entries d) j ≡ some (directory d')
    → Resolves d' vaddr x
    → Resolves d vaddr x
unfolding interp
Resolves-child d d' j vaddr (found base pte) v r h (m, b) =
    ((child_mapping d d' j base pte v h m).1, b)
Resolves-child d d' j vaddr not_found v r h none_found = λ base pte m b.
    none_found base pte (mapped_by_entry d v j vaddr base (directory d') pte h r m b.0 b.1).1 b

-- The slot that the index of the address names decides.
resolve_in :
    (f vaddr : ℕ) (d : Directory) (j : ℕ) (e : NodeEntry)
    → IsValid d
    → InEntry d j vaddr
    → entry_at (entries d) j ≡ some e
    → ((d' : Directory)
        → e ≡ directory d'
        → (r : Resolved) × (resolve_fuel f vaddr d' ≡ some r) × Resolves d' vaddr r)
    → (r : Resolved) × (resolve_entry (resolve_fuel f vaddr) d j (some e) ≡ some r)
      × Resolves d vaddr r
unfolding interp
resolve_in f vaddr d j (page pte) v r h rec =
    let w = entry_valid d j (page pte) v h in
    let base : ℕ = base_vaddr d + j * dir_entry_size d in
    let at_base : InEntry d j base = (omega arith, omega (arith, size_pos d v)) in
    (
      found base pte,
      refl,
      (interp_of_entry d v j base (page pte) h at_base ∙ ground arith, (omega arith, omega arith)),
    )
resolve_in f vaddr d j empty v r h rec = (
  not_found,
  refl,
  λ base pte m b. cc ((mapped_by_entry d v j vaddr base empty pte h r m b.0 b.1).1),
)
resolve_in f vaddr d j (directory d') v r h rec =
    let (x, e, k) = rec d' refl in (x, e, Resolves-child d d' j vaddr x v r h k)

resolve_enough :
    (f vaddr : ℕ) (d : Directory)
    → IsValid d
    → base_vaddr d ≤ vaddr
    → vaddr < dir_upper d
    → layers_left d ≡ f
    → (r : Resolved) × (resolve_fuel f vaddr d ≡ some r) × Resolves d vaddr r
unfolding resolve_fuel
resolve_enough zero vaddr d v lo hi l = let lt = (well_formed d v).layer_lt in absurd (omega arith)
resolve_enough (suc f) vaddr d v lo hi l =
    let (r, lt) = index_in d v vaddr lo hi in
    let (e, h) = entry_at_total (entries d) (dir_index d vaddr) lt in
    rw h (
      resolve_in f vaddr d (dir_index d vaddr) e v r h (λ d' k.
        let w = entry_valid d (dir_index d vaddr) (directory d') v (h ∙ ap some k) in
        let (a, b) = in_child d d' (dir_index d vaddr) vaddr v w r in
        let m = child_layers_left d d' (dir_index d vaddr) w.0 w.1 in
        resolve_enough f vaddr d' w.1 a b (omega arith)))

-- For a valid directory and an address that it covers, `resolve` returns: either the base and the
-- entry of a mapping of the directory that contains the address, or that no mapping contains it.
pub resolve_refines :
    (d : Directory) (vaddr : ℕ)
    → IsValid d
    → AcceptedResolve (contents d) vaddr
    → (r : Resolved) × (resolve d vaddr ≡ some r) × Resolves d vaddr r
unfolding resolve
resolve_refines d vaddr v h = resolve_enough (layers_left d) vaddr d v h.0 h.1 refl
