-- ===== src/PageTable/Directory/Unmap/Total.antt =====
-- page-table/impl_u/l1.rs: the recursion of `unmap`, and its refinement of l0.rs.
use verified_nrkernel.Prelude.{
  ℕ, zero, suc, ◌%◌, ◌<◌, ◌≤◌, ◌≡◌, ◌≢◌, refl, ap, ◌∙◌, true, false, Option, some, inl, inr, arith,
  ◌==◌, remove, ℕ_discrete, Bool-cases,
}
use verified_nrkernel.PageTable.Contents
use verified_nrkernel.PageTable.Directory.{
  NodeEntry, directory, page, empty, Directory, entries, base_vaddr, dir_upper, dir_entry_size,
  dir_index, entry_at, is_empty_dir, update, layers_left, Outcome, ok, err, prune_outcome,
  unmap_entry, unmap_fuel, unmap,
}
use verified_nrkernel.PageTable.Directory.Interp.{IsValid, interp}
use verified_nrkernel.PageTable.Directory.Lemmas.{well_formed}
use verified_nrkernel.PageTable.Directory.Update.{entry_valid, entry_at_total}
use verified_nrkernel.PageTable.Directory.Entry.{InEntry, index_in}
use verified_nrkernel.PageTable.Directory.Resolve.{in_child, child_layers_left}
use verified_nrkernel.PageTable.Directory.Abstract.{contents}
use verified_nrkernel.PageTable.Directory.MapFrame.Total.{contents_outcome, contents_eq}
use verified_nrkernel.PageTable.Directory.Unmap.{
  Promised, unmap_page, keep_page, keep_empty, unmap_below, drop_below, keep_below,
}

abbrev Runs : Directory → ℕ → Option Outcome → Type 0
Runs d base run = (o : Outcome) × (run ≡ some o) × Promised d base o

zero_test : (x : ℕ) → x ≡ 0 → (x == 0) ≡ true
zero_test x h = ground arith

pos_test : (x : ℕ) → x ≢ 0 → (x == 0) ≡ false
pos_test x h = ground arith

lift_run :
    (d : Directory) (base : ℕ) (v : IsValid d) (j : ℕ) (r : InEntry d j base) (d' : Directory)
    (run : Option Outcome)
    → entry_at (entries d) j ≡ some (directory d')
    → Runs d' base run
    → Runs d base (prune_outcome d j run)
lift_run d base v j r d' run h (ok d'', e, m) = elim (Bool-cases (is_empty_dir d'')) [
  | inl gone ↦ (ok (update d j empty), rw (e, gone), drop_below d base v j r d' d'' h gone m)
  | inr left ↦
      (ok (update d j (directory d'')), rw (e, left), unmap_below d base v j r d' d'' h left m)
]
lift_run d base v j r d' run h (err d'', e, m) =
    (err (update d j (directory d'')), rw e, keep_below d base v j r d' d'' h m)

unmap_in :
    (f : ℕ) (d : Directory) (base : ℕ) (v : IsValid d) (j : ℕ) (r : InEntry d j base)
    (e : NodeEntry)
    → ((d' : Directory) → e ≡ directory d' → Runs d' base (unmap_fuel f base d'))
    → entry_at (entries d) j ≡ some e
    → Runs d base (unmap_entry (unmap_fuel f base) d base j (some e))
unmap_in f d base v j r (page p) rec h = elim (ℕ_discrete (base % dir_entry_size d) 0) [
  | yes e ↦ (
    ok (update d j empty),
    rw (zero_test (base % dir_entry_size d) e),
    unmap_page d base v j r p h e,
  )
  | no ne ↦ (err d, rw (pos_test (base % dir_entry_size d) ne), keep_page d base v j r p h ne)
]
unmap_in f d base v j r (directory d') rec h =
    lift_run d base v j r d' (unmap_fuel f base d') h (rec d' refl)
unmap_in f d base v j r empty rec h = (err d, refl, keep_empty d base v j r h)

unmap_enough :
    (f base : ℕ) (d : Directory)
    → IsValid d
    → base_vaddr d ≤ base
    → base < dir_upper d
    → layers_left d ≡ f
    → Runs d base (unmap_fuel f base d)
unfolding unmap_fuel
unmap_enough zero base d v lo hi l = let lt = (well_formed d v).layer_lt in absurd (omega arith)
unmap_enough (suc f) base d v lo hi l =
    let (r, lt) = index_in d v base lo hi in
    let (e, h) = entry_at_total (entries d) (dir_index d base) lt in
    rw h (
      unmap_in f d base v (dir_index d base) r e
        (λ d' k.
          let w = entry_valid d (dir_index d base) (directory d') v (h ∙ ap some k) in
          let (a, b) = in_child d d' (dir_index d base) base v w r in
          let m = child_layers_left d d' (dir_index d base) w.0 w.1 in
          unmap_enough f base d' w.1 a b (omega arith))
        h)

outcome_refines :
    (d : Directory) (base : ℕ) (o : Outcome)
    → Promised d base o
    → contents_outcome o ≡ Contents.unmap (contents d) base
outcome_refines d base (ok d') m =
    rw m.mapped (ap Contents.ok (contents_eq d d' (remove (interp d) base) m.header m.maps))
outcome_refines d base (err d') m = rw m.missing (ap (λ x. Contents.err (contents x)) m.unchanged)

-- For a valid directory and an address that it covers, `unmap` returns what l0.rs returns for its
-- contents: `Ok` with the mapping at `base` removed if there is one, and then the new directory is
-- valid; `Err` if there is none, and then the directory is unchanged.
pub unmap_refines :
    (d : Directory) (base : ℕ)
    → IsValid d
    → Contents.AcceptedResolve (contents d) base
    → (o : Outcome) × (unmap d base ≡ some o)
      × Promised d base o
      × (contents_outcome o ≡ Contents.unmap (contents d) base)
unfolding unmap
unmap_refines d base v h =
    let (o, e, m) = unmap_enough (layers_left d) base d v h.0 h.1 refl in
    (o, e, m, outcome_refines d base o m)
