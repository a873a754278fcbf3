-- ===== src/PageTable/Arch.antt =====
-- page-table/definitions_t.rs: memory regions, page table entries, and the layers of the
-- architecture with the index arithmetic on them. Addresses are the source's `nat`.
pub mod Index
pub mod Tests
use verified_nrkernel.Prelude.{
  ℕ, ◌+◌, ◌-◌, ◌*◌, ◌/◌, ◌%◌, ◌≤◌, ◌<◌, ◌≡◌, Bool, true, false, ◌&&◌, ◌||◌, Option, none, some,
  List, [], ◌∷◌, ltb, leb, ◌==◌, if◌then◌else◌, length, get_elem?,
}

abbrev pub x86_num_layers : ℕ
x86_num_layers = 4

abbrev pub x86_num_entries : ℕ
x86_num_entries = 512

abbrev pub page_size : ℕ
page_size = 4096

abbrev pub x86_max_entry_size : ℕ
x86_max_entry_size = 512 * 512 * 512 * 4096

abbrev pub max_base : ℕ
max_base = x86_max_entry_size * x86_num_entries

abbrev pub l3_entry_size : ℕ
l3_entry_size = page_size

abbrev pub l2_entry_size : ℕ
l2_entry_size = 512 * l3_entry_size

abbrev pub l1_entry_size : ℕ
l1_entry_size = 512 * l2_entry_size

abbrev pub l0_entry_size : ℕ
l0_entry_size = 512 * l1_entry_size

-- The source's `index_from_offset` and its kin.
abbrev pub index_from_offset : ℕ → ℕ → ℕ
index_from_offset offset entry_size = offset / entry_size

-- Used at `base ≤ addr` only.
abbrev pub index_from_base_and_addr : ℕ → ℕ → ℕ → ℕ
index_from_base_and_addr base addr entry_size = index_from_offset (addr - base) entry_size

abbrev pub entry_base_from_index : ℕ → ℕ → ℕ → ℕ
entry_base_from_index base idx entry_size = base + idx * entry_size

abbrev pub next_entry_base_from_index : ℕ → ℕ → ℕ → ℕ
next_entry_base_from_index base idx entry_size = base + (idx + 1) * entry_size

abbrev pub Aligned : ℕ → ℕ → Type 0
Aligned addr size = addr % size ≡ 0

abbrev pub Between : ℕ → ℕ → ℕ → Type 0
Between x a b = (a ≤ x) × (x < b)

pub record MemRegion : Type 0 where
  pub base : ℕ
  pub size : ℕ

abbrev pub Contains : MemRegion → ℕ → Type 0
Contains r addr = Between addr r.base (r.base + r.size)

abbrev pub overlap : MemRegion → MemRegion → Bool
overlap r s =
    if leb r.base s.base
    then (r.base == s.base) || ltb s.base (r.base + r.size)
    else ltb r.base (s.base + s.size)

pub record Flags : Type 0 where
  pub is_writable : Bool
  pub is_supervisor : Bool
  pub disable_execute : Bool

-- page-table/definitions_u.rs: directories never restrict, their frames do.
abbrev pub permissive_flags : Flags
permissive_flags = record { is_writable = true; is_supervisor = false; disable_execute = false }

pub record PageTableEntry : Type 0 where
  pub frame : MemRegion
  pub flags : Flags

pub record ArchLayer : Type 0 where
  pub layer_entry_size : ℕ
  pub layer_num_entries : ℕ

pub record Arch : Type 0 where
  pub layers : List ArchLayer

-- A layer that is not there has no entries. (The source gives it no meaning.)
abbrev pub no_layer : ArchLayer
no_layer = record { layer_entry_size = 0; layer_num_entries = 0 }

abbrev pub layer_at : Option ArchLayer → ArchLayer
layer_at none = no_layer
layer_at (some l) = l

unfoldable pub entry_size : Arch → ℕ → ℕ
entry_size a layer = (layer_at (get_elem? a.layers layer)).layer_entry_size

unfoldable pub num_entries : Arch → ℕ → ℕ
num_entries a layer = (layer_at (get_elem? a.layers layer)).layer_num_entries

abbrev pub index_for_vaddr : Arch → ℕ → ℕ → ℕ → ℕ
index_for_vaddr a layer base vaddr = index_from_base_and_addr base vaddr (entry_size a layer)

abbrev pub entry_base : Arch → ℕ → ℕ → ℕ → ℕ
entry_base a layer base idx = entry_base_from_index base idx (entry_size a layer)

abbrev pub next_entry_base : Arch → ℕ → ℕ → ℕ → ℕ
next_entry_base a layer base idx = next_entry_base_from_index base idx (entry_size a layer)

abbrev pub upper_vaddr : Arch → ℕ → ℕ → ℕ
upper_vaddr a layer base = entry_base a layer base (num_entries a layer)

abbrev pub EntrySizeIsNextLayerSize : Arch → ℕ → Type 0
EntrySizeIsNextLayerSize a i =
    i + 1 < length a.layers → entry_size a i ≡ entry_size a (i + 1) * num_entries a (i + 1)

-- The source's `Arch::inv`.
pub record IsArch (a : Arch) : Type 0 where
  pub few_layers : length a.layers ≤ x86_num_layers
  pub layer_bounds :
      (i : ℕ)
      → i < length a.layers
      → (0 < entry_size a i)
        × (entry_size a i ≤ x86_max_entry_size)
        × (0 < num_entries a i)
        × (num_entries a i ≤ x86_num_entries)
  pub next_layer_size : (i : ℕ) → EntrySizeIsNextLayerSize a i

abbrev pub ContainsEntrySizeAtIndexAtleast : Arch → ℕ → ℕ → Type 0
ContainsEntrySizeAtIndexAtleast a size min_idx =
    (i : ℕ) × (min_idx ≤ i) × (i < length a.layers) × (entry_size a i ≡ size)

abbrev pub ContainsEntrySize : Arch → ℕ → Type 0
ContainsEntrySize a size = ContainsEntrySizeAtIndexAtleast a size 0

abbrev layer_of : ℕ → ArchLayer
layer_of size = record { layer_entry_size = size; layer_num_entries = 512 }

abbrev pub x86_arch : Arch
x86_arch = record {
  layers =
      layer_of l0_entry_size
      ∷ layer_of l1_entry_size
      ∷ layer_of l2_entry_size
      ∷ layer_of l3_entry_size
      ∷ [];
}
