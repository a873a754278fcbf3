-- ===== src/PageTable/Directory.antt =====
-- page-table/impl_u/l1.rs: the page table as a tree of directories, and the operations on it.
--
-- The source's functions are partial: they have a meaning under their `recommends` or under the
-- condition that guards their body, and are arbitrary elsewhere. Here an index out of range, and a
-- layer below the last, give `none`; the theorems state the conditions. The source's recursion
-- falls with the layers that are left, which is the fuel here.
pub mod Interp
pub mod Lemmas
pub mod Update
pub mod Entry
pub mod Abstract
pub mod Frame
pub mod Change
pub mod Disjoint
pub mod Resolve
pub mod MapFrame
pub mod Unmap
pub mod Tests
use verified_nrkernel.Prelude.{
  ℕ, zero, suc, ◌+◌, ◌-◌, ◌*◌, ◌%◌, ◌<◌, ◌≤◌, ◌≡◌, Bool, true, false, ◌&&◌, Option, none, some,
  List, ◌==◌, if◌then◌else◌, length, insert, remove, empty_map,
}
use verified_nrkernel.PageTable.Arch.{
  Arch, IsArch, Flags, permissive_flags, PageTableEntry, entry_size, num_entries, entry_base,
  upper_vaddr, index_for_vaddr, Aligned, ContainsEntrySizeAtIndexAtleast,
}

mutual
  pub data NodeEntry : Type 0 where
    directory : Directory → NodeEntry
    page : PageTableEntry → NodeEntry
    empty : NodeEntry

  -- The fields `entries`, `layer`, `base_vaddr`, `arch` and `flags`.
  pub data Directory : Type 0 where
    dir : Entries → ℕ → ℕ → Arch → Flags → Directory

  pub data Entries : Type 0 where
    nil : Entries
    cons : NodeEntry → Entries → Entries

abbrev pub entries : Directory → Entries
entries (dir es l b a f) = es

abbrev pub layer : Directory → ℕ
layer (dir es l b a f) = l

abbrev pub base_vaddr : Directory → ℕ
base_vaddr (dir es l b a f) = b

abbrev pub arch : Directory → Arch
arch (dir es l b a f) = a

abbrev pub flags : Directory → Flags
flags (dir es l b a f) = f

abbrev pub dir_upper : Directory → ℕ
dir_upper d = upper_vaddr (arch d) (layer d) (base_vaddr d)

abbrev pub dir_entry_size : Directory → ℕ
dir_entry_size d = entry_size (arch d) (layer d)

abbrev pub dir_index : Directory → ℕ → ℕ
dir_index d vaddr = index_for_vaddr (arch d) (layer d) (base_vaddr d) vaddr

-- Sequences of entries.
abbrev pub num : Entries → ℕ
num nil = 0
num (cons e es) = suc (num es)

abbrev pub entry_at : Entries → ℕ → Option NodeEntry
entry_at nil i = none
entry_at (cons e es) zero = some e
entry_at (cons e es) (suc i) = entry_at es i

abbrev pub set_entry : Entries → ℕ → NodeEntry → Entries
set_entry nil i n = nil
set_entry (cons e es) zero n = cons n es
set_entry (cons e es) (suc i) n = cons e (set_entry es i n)

abbrev pub new_seq : ℕ → NodeEntry → Entries
new_seq zero e = nil
new_seq (suc n) e = cons e (new_seq n e)

abbrev pub is_empty : NodeEntry → Bool
is_empty (directory d) = false
is_empty (page p) = false
is_empty empty = true

abbrev pub all_empty : Entries → Bool
all_empty nil = true
all_empty (cons e es) = is_empty e && all_empty es

-- The source's `Directory::empty`.
abbrev pub is_empty_dir : Directory → Bool
is_empty_dir d = all_empty (entries d)

-- The source's `Directory::update`.
abbrev pub update : Directory → ℕ → NodeEntry → Directory
update (dir es l b a f) n e = dir (set_entry es n e) l b a f

abbrev pub new_empty_dir : Directory → ℕ → Directory
new_empty_dir (dir es l b a f) entry =
    dir (new_seq (num_entries a (l + 1)) empty) (l + 1) (entry_base a l b entry) a permissive_flags

-- The layers from a directory's own on: the source's measure.
abbrev pub layers_left : Directory → ℕ
layers_left d = length (arch d).layers - layer d

-- `Directory::resolve`: `rec` resolves in the directory of an entry.
pub data Resolved : Type 0 where
  found : ℕ → PageTableEntry → Resolved
  not_found : Resolved

abbrev pub resolve_entry :
    (Directory → Option Resolved) → Directory → ℕ → Option NodeEntry → Option Resolved
resolve_entry rec d entry none = none
resolve_entry rec d entry (some (page pte)) =
    some (found (entry_base (arch d) (layer d) (base_vaddr d) entry) pte)
resolve_entry rec d entry (some (directory d')) = rec d'
resolve_entry rec d entry (some empty) = some not_found

unfoldable pub resolve_fuel : ℕ → ℕ → Directory → Option Resolved
resolve_fuel zero vaddr d = none
resolve_fuel (suc f) vaddr d =
    resolve_entry (resolve_fuel f vaddr) d (dir_index d vaddr)
      (entry_at (entries d) (dir_index d vaddr))

unfoldable pub resolve : Directory → ℕ → Option Resolved
resolve d vaddr = resolve_fuel (layers_left d) vaddr d

-- The source's `Result<Directory, Directory>`.
pub data Outcome : Type 0 where
  ok : Directory → Outcome
  err : Directory → Outcome

abbrev pub update_outcome : Directory → ℕ → Option Outcome → Option Outcome
update_outcome d entry none = none
update_outcome d entry (some (ok d')) = some (ok (update d entry (directory d')))
update_outcome d entry (some (err d')) = some (err (update d entry (directory d')))

-- The source takes the `Ok` of mapping into a new directory, whatever comes.
abbrev pub update_ok : Directory → ℕ → Option Outcome → Option Outcome
update_ok d entry none = none
update_ok d entry (some (ok d')) = some (ok (update d entry (directory d')))
update_ok d entry (some (err d')) = none

abbrev pub AcceptedMapping : Directory → ℕ → PageTableEntry → Type 0
AcceptedMapping d base pte =
    Aligned base pte.frame.size
    × Aligned pte.frame.base pte.frame.size
    × ((base_vaddr d ≤ base) × (base + pte.frame.size ≤ dir_upper d))
    × ContainsEntrySizeAtIndexAtleast (arch d) pte.frame.size (layer d)

abbrev pub map_frame_entry :
    (Directory → Option Outcome)
    → Directory
    → ℕ
    → PageTableEntry
    → Option NodeEntry
    → Option Outcome
map_frame_entry rec d entry pte none = none
map_frame_entry rec d entry pte (some (page p)) = some (err d)
map_frame_entry rec d entry pte (some (directory d')) =
    if dir_entry_size d == pte.frame.size then some (err d) else update_outcome d entry (rec d')
map_frame_entry rec d entry pte (some empty) =
    if dir_entry_size d == pte.frame.size
    then some (ok (update d entry (page pte)))
    else update_ok d entry (rec (new_empty_dir d entry))

unfoldable pub map_frame_fuel : ℕ → ℕ → PageTableEntry → Directory → Option Outcome
map_frame_fuel zero base pte d = none
map_frame_fuel (suc f) base pte d =
    map_frame_entry (map_frame_fuel f base pte) d (dir_index d base) pte
      (entry_at (entries d) (dir_index d base))

unfoldable pub map_frame : Directory → ℕ → PageTableEntry → Option Outcome
map_frame d base pte = map_frame_fuel (layers_left d) base pte d

-- A directory that has become empty is dropped.
abbrev pub prune_outcome : Directory → ℕ → Option Outcome → Option Outcome
prune_outcome d entry none = none
prune_outcome d entry (some (ok d')) =
    some (ok (update d entry (if is_empty_dir d' then empty else directory d')))
prune_outcome d entry (some (err d')) = some (err (update d entry (directory d')))

abbrev pub unmap_entry :
    (Directory → Option Outcome) → Directory → ℕ → ℕ → Option NodeEntry → Option Outcome
unmap_entry rec d base entry none = none
unmap_entry rec d base entry (some (page p)) =
    if base % dir_entry_size d == 0 then some (ok (update d entry empty)) else some (err d)
unmap_entry rec d base entry (some (directory d')) = prune_outcome d entry (rec d')
unmap_entry rec d base entry (some empty) = some (err d)

unfoldable pub unmap_fuel : ℕ → ℕ → Directory → Option Outcome
unmap_fuel zero base d = none
unmap_fuel (suc f) base d =
    unmap_entry (unmap_fuel f base) d base (dir_index d base)
      (entry_at (entries d) (dir_index d base))

unfoldable pub unmap : Directory → ℕ → Option Outcome
unmap d base = unmap_fuel (layers_left d) base d
