-- ===== src/PageTable/Directory/MapFrame/Total.antt =====
-- page-table/impl_u/l1.rs: the recursion of `map_frame`, and its refinement of l0.rs.
use verified_nrkernel.Prelude.{
  ℕ, zero, suc, ◌+◌, ◌<◌, ◌≡◌, ◌≢◌, refl, sym, ap, ◌∙◌, true, false, Option, some, arith, ◌==◌,
  insert, length, ℕ_discrete,
}
use verified_nrkernel.PageTable.Arch.{PageTableEntry, upper_vaddr}
use verified_nrkernel.PageTable.Contents
use verified_nrkernel.PageTable.Contents.{PageTableContents, MapsFrame, region}
use verified_nrkernel.PageTable.Directory.{
  NodeEntry, directory, page, empty, Directory, entries, layer, arch, dir_entry_size, dir_index,
  entry_at, update, new_empty_dir, layers_left, Outcome, ok, err, AcceptedMapping, update_outcome,
  update_ok, map_frame_entry, map_frame_fuel, map_frame,
}
use verified_nrkernel.PageTable.Directory.Interp.{IsValid, interp}
use verified_nrkernel.PageTable.Directory.Lemmas.{well_formed}
use verified_nrkernel.PageTable.Directory.Update.{entry_valid, entry_at_total}
use verified_nrkernel.PageTable.Directory.Entry.{InEntry, index_in, interp_of_entry}
use verified_nrkernel.PageTable.Directory.Frame.{
  frame_pos, frame_below, dir_base-Aligned, child_accepts, new_empty_dir-IsChild,
  new_empty_dir-IsValid, interp-new_empty_dir,
}
use verified_nrkernel.PageTable.Directory.Change.{SameHeader}
use verified_nrkernel.PageTable.Directory.Resolve.{child_layers_left}
use verified_nrkernel.PageTable.Directory.Abstract.{contents}
use verified_nrkernel.PageTable.Directory.MapFrame.{
  Promised, refuse_page, refuse_directory, map_page, map_below, refuse_below,
}

-- A run that returns what is promised.
abbrev Runs : Directory → ℕ → PageTableEntry → Option Outcome → Type 0
Runs d base pte run = (o : Outcome) × (run ≡ some o) × Promised d base pte o

equal_sizes : (x y : ℕ) → x ≡ y → (x == y) ≡ true
equal_sizes x y h = ground arith

other_sizes : (x y : ℕ) → x ≢ y → (x == y) ≡ false
other_sizes x y h = ground arith

module _ (f base : ℕ) (pte : PageTableEntry) (d : Directory) (v : IsValid d)
    (acc : AcceptedMapping d base pte) (j : ℕ) (r : InEntry d j base)
    (rec : (d' : Directory)
      → IsValid d'
      → AcceptedMapping d' base pte
      → layers_left d ≡ suc (layers_left d')
      → Runs d' base pte (map_frame_fuel f base pte d')) where
  lift_run :
      (d' : Directory) (run : Option Outcome)
      → entry_at (entries d) j ≡ some (directory d')
      → Runs d' base pte run
      → Runs d base pte (update_outcome d j run)
  unfolding interp
  lift_run d' run h (ok d'', e, m) =
      let w = entry_valid d j (directory d') v h in
      (
        ok (update d j (directory d'')),
        rw e,
        map_below d base pte v acc j r (directory d') d' d'' h w.0
            (λ va in_j. interp_of_entry d v j va (directory d') h in_j) m,
      )
  lift_run d' run h (err d'', e, m) =
      (err (update d j (directory d'')), rw e, refuse_below d base pte v acc j r d' d'' h m)

  lift_new :
      (run : Option Outcome)
      → entry_at (entries d) j ≡ some empty
      → Runs (new_empty_dir d j) base pte run
      → Runs d base pte (update_ok d j run)
  unfolding interp
  lift_new run h (ok d'', e, m) = (
    ok (update d j (directory d'')),
    rw e,
    map_below d base pte v acc j r empty (new_empty_dir d j) d'' h (new_empty_dir-IsChild d j)
        (λ va in_j. interp_of_entry d v j va empty h in_j ∙ sym (interp-new_empty_dir d j va)) m,
  )
  lift_new run h (err d'', e, m) = cc (sym (interp-new_empty_dir d j m.at) ∙ m.mapped)

  map_in :
      (e : NodeEntry)
      → entry_at (entries d) j ≡ some e
      → Runs d base pte (map_frame_entry (map_frame_fuel f base pte) d j pte (some e))
  map_in (page p) h = (err d, refl, refuse_page d base pte v acc j r p h)
  map_in (directory d') h = elim (ℕ_discrete (dir_entry_size d) pte.frame.size) [
    | yes e ↦ (
      err d,
      rw (equal_sizes (dir_entry_size d) pte.frame.size e),
      refuse_directory d base pte v acc j r d' h e,
    )
    | no ne ↦
        let w = entry_valid d j (directory d') v h in
        let run =
          rec d' w.1 (child_accepts d base pte v acc j d' r w.0 w.1 ne)
            (child_layers_left d d' j w.0 w.1) in
        rw (other_sizes (dir_entry_size d) pte.frame.size ne)
          (lift_run d' (map_frame_fuel f base pte d') h run)
  ]
  map_in empty h = elim (ℕ_discrete (dir_entry_size d) pte.frame.size) [
    | yes e ↦ (
      ok (update d j (page pte)),
      rw (equal_sizes (dir_entry_size d) pte.frame.size e),
      map_page d base pte v acc j r h e,
    )
    | no ne ↦
        let below = frame_below d base pte v acc ne in
        let lt : layer d + 1 < length (arch d).layers = omega (arith, acc.3.2) in
        let c = new_empty_dir-IsChild d j in
        let w = new_empty_dir-IsValid d j v (dir_base-Aligned d v) lt in
        let l : layers_left d ≡ suc (layers_left (new_empty_dir d j)) =
          child_layers_left d (new_empty_dir d j) j c w in
        let run =
          rec (new_empty_dir d j) w (child_accepts d base pte v acc j (new_empty_dir d j) r c w ne)
            l in
        rw (other_sizes (dir_entry_size d) pte.frame.size ne)
          (lift_new (map_frame_fuel f base pte (new_empty_dir d j)) h run)
  ]

map_enough :
    (f base : ℕ) (pte : PageTableEntry) (d : Directory)
    → IsValid d
    → AcceptedMapping d base pte
    → layers_left d ≡ f
    → Runs d base pte (map_frame_fuel f base pte d)
unfolding map_frame_fuel
map_enough zero base pte d v acc l = let lt = (well_formed d v).layer_lt in absurd (omega arith)
map_enough (suc f) base pte d v acc l =
    let pos = frame_pos d base pte v acc in
    let (r, lt) = index_in d v base acc.2.0 (omega (arith, acc.2.1)) in
    let (e, h) = entry_at_total (entries d) (dir_index d base) lt in
    rw h (
      map_in f base pte d v acc (dir_index d base) r
        (λ d' w acc' m. map_enough f base pte d' w acc' (omega arith)) e h)

-- The outcome as l0.rs sees it.
abbrev pub contents_outcome : Outcome → Contents.Outcome
contents_outcome (ok d) = Contents.ok (contents d)
contents_outcome (err d) = Contents.err (contents d)

pub contents_eq :
    (d d' : Directory) (m : ℕ → Option PageTableEntry)
    → SameHeader d d'
    → ((va : ℕ) → interp d' va ≡ m va)
    → contents d' ≡ record (contents d) { map = m }
contents_eq d d' m h e = λ i. record {
  map = λ va. e va i;
  arch = h.same_arch i;
  lower = h.same_base i;
  upper = upper_vaddr (h.same_arch i) (h.same_layer i) (h.same_base i);
}

outcome_refines :
    (d : Directory) (base : ℕ) (pte : PageTableEntry) (o : Outcome)
    → Promised d base pte o
    → MapsFrame (contents d) base pte (contents_outcome o)
outcome_refines d base pte (ok d') m =
    (m.free, contents_eq d d' (insert (interp d) base pte) m.header m.maps)
outcome_refines d base pte (err d') m =
    ((λ free. cc (sym (free m.at m.other m.mapped) ∙ m.overlaps)), ap contents m.unchanged)

-- For a valid directory and an accepted mapping, `map_frame` returns what l0.rs asks for. `Ok` if the
-- mapping overlaps none that is there: then the new contents are the old with the mapping inserted,
-- and the new directory is valid and not empty. `Err` if it overlaps one: then nothing has changed.
pub map_frame_refines :
    (d : Directory) (base : ℕ) (pte : PageTableEntry)
    → IsValid d
    → AcceptedMapping d base pte
    → (o : Outcome) × (map_frame d base pte ≡ some o)
      × Promised d base pte o
      × MapsFrame (contents d) base pte (contents_outcome o)
unfolding map_frame
map_frame_refines d base pte v acc =
    let (o, e, m) = map_enough (layers_left d) base pte d v acc refl in
    (o, e, m, outcome_refines d base pte o m)
