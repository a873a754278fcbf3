-- ===== src/PageTable/Directory/Tests.antt =====
-- Directories over an architecture of two layers with two entries each, of sizes 8 and 4.
use verified_nrkernel.Prelude.{
  ℕ, zero, suc, ◌+◌, ◌*◌, ◌<◌, ◌≤◌, ◌≡◌, refl, some, [], ◌∷◌, arith, length,
}
use verified_nrkernel.PageTable.Arch.{
  Arch, IsArch, permissive_flags, PageTableEntry, entry_size, num_entries, x86_max_entry_size,
  x86_num_entries,
}
use verified_nrkernel.PageTable.Contents
use verified_nrkernel.PageTable.Contents.{IsContents, MapsFrame}
use verified_nrkernel.PageTable.Directory.{
  directory, page, empty, Directory, dir, nil, cons, Resolved, found, not_found, resolve, Outcome,
  ok, err, map_frame, unmap, map_frame_fuel, resolve_fuel, unmap_fuel,
}
use verified_nrkernel.PageTable.Directory.Interp.{IsValid}
use verified_nrkernel.PageTable.Directory.Abstract.{contents}
use verified_nrkernel.PageTable.Directory.Disjoint.{contents-IsContents}
use verified_nrkernel.PageTable.Directory.Resolve.{Resolves, resolve_refines}
use verified_nrkernel.PageTable.Directory.MapFrame
use verified_nrkernel.PageTable.Directory.MapFrame.Total.{contents_outcome, map_frame_refines}
use verified_nrkernel.PageTable.Directory.Unmap
use verified_nrkernel.PageTable.Directory.Unmap.Total.{unmap_refines}

abbrev tiny : Arch
tiny = record {
  layers =
      record { layer_entry_size = 8; layer_num_entries = 2 }
      ∷ record { layer_entry_size = 4; layer_num_entries = 2 }
      ∷ [];
}

tiny-IsArch : IsArch tiny
unfolding entry_size num_entries
tiny-IsArch = record {
  few_layers = omega arith;
  layer_bounds = bounds;
  next_layer_size = next_size;
}
  where
    bounds :
        (i : ℕ)
        → i < length tiny.layers
        → (0 < entry_size tiny i)
          × (entry_size tiny i ≤ x86_max_entry_size)
          × (0 < num_entries tiny i)
          × (num_entries tiny i ≤ x86_num_entries)
    bounds zero h = omega arith
    bounds (suc zero) h = omega arith
    bounds (suc (suc i)) h = absurd (omega arith)

    next_size :
        (i : ℕ)
        → i + 1 < length tiny.layers
        → entry_size tiny i ≡ entry_size tiny (i + 1) * num_entries tiny (i + 1)
    next_size zero h = refl
    next_size (suc i) h = absurd (omega arith)

abbrev frame : PageTableEntry
frame = record { frame = record { base = 12; size = 4 }; flags = permissive_flags }

abbrev child : Directory
child = dir (cons empty (cons (page frame) nil)) 1 0 tiny permissive_flags

-- Nothing mapped; and a frame of size 4 mapped at 4, two layers down.
abbrev bare : Directory
bare = dir (cons empty (cons empty nil)) 0 0 tiny permissive_flags

abbrev mapped : Directory
mapped = dir (cons (directory child) (cons empty nil)) 0 0 tiny permissive_flags

map_bare : map_frame bare 4 frame ≡ some (ok mapped)
unfolding map_frame map_frame_fuel entry_size num_entries
map_bare = refl

map_mapped : map_frame mapped 4 frame ≡ some (err mapped)
unfolding map_frame map_frame_fuel entry_size num_entries
map_mapped = refl

resolve_mapped : resolve mapped 7 ≡ some (found 4 frame)
unfolding resolve resolve_fuel entry_size num_entries
resolve_mapped = refl

resolve_hole : resolve mapped 3 ≡ some not_found
unfolding resolve resolve_fuel entry_size num_entries
resolve_hole = refl

-- The directory that has become empty is dropped.
unmap_mapped : unmap mapped 4 ≡ some (ok bare)
unfolding unmap unmap_fuel entry_size num_entries
unmap_mapped = refl

unmap_inside : unmap mapped 6 ≡ some (err mapped)
unfolding unmap unmap_fuel entry_size num_entries
unmap_inside = refl

bare-IsValid : IsValid bare
unfolding entry_size num_entries
bare-IsValid = (
  record {
    arch_inv = tiny-IsArch;
    layer_lt = omega arith;
    base_aligned = refl;
    entries_len = refl;
    flags_permissive = refl;
  },
  (tt, (tt, tt)),
)

child-IsValid : IsValid child
unfolding entry_size num_entries
child-IsValid = (
  record {
    arch_inv = tiny-IsArch;
    layer_lt = omega arith;
    base_aligned = refl;
    entries_len = refl;
    flags_permissive = refl;
  },
  (tt, ((refl, refl), tt)),
)

mapped-IsValid : IsValid mapped
unfolding entry_size num_entries
mapped-IsValid = (
  record {
    arch_inv = tiny-IsArch;
    layer_lt = omega arith;
    base_aligned = refl;
    entries_len = refl;
    flags_permissive = refl;
  },
  (
    (record { child_layer = refl; child_base = refl; child_arch = refl }, child-IsValid, refl),
    (tt, tt),
  ),
)

contents-IsContents_example : IsContents (contents mapped)
contents-IsContents_example = contents-IsContents mapped mapped-IsValid

resolve_refines_example : (r : Resolved) × (resolve mapped 7 ≡ some r) × Resolves mapped 7 r
unfolding entry_size num_entries
resolve_refines_example = resolve_refines mapped 7 mapped-IsValid (omega arith, omega arith)

map_frame_refines_example :
    (o : Outcome) × (map_frame bare 4 frame ≡ some o)
    × MapFrame.Promised bare 4 frame o
    × MapsFrame (contents bare) 4 frame (contents_outcome o)
unfolding entry_size num_entries
map_frame_refines_example =
    map_frame_refines bare 4 frame bare-IsValid
      (refl, refl, (omega arith, omega arith), (1, omega arith, omega arith, refl))

unmap_refines_example :
    (o : Outcome) × (unmap mapped 4 ≡ some o)
    × Unmap.Promised mapped 4 o
    × (contents_outcome o ≡ Contents.unmap (contents mapped) 4)
unfolding entry_size num_entries
unmap_refines_example = unmap_refines mapped 4 mapped-IsValid (omega arith, omega arith)
