-- ===== src/PageTable/Memory.antt =====
-- page-table/spec_t/mem.rs: the memory of the page table. Its regions are pages, named by their
-- bases; the pointer to the linear mapping, allocation and the set of allocated regions are not
-- modelled.
pub mod Resolve
pub mod Agree
pub mod Missing
pub mod Empty
mod Tests
use verified_nrkernel.Prelude.{ℕ, Option, none, some, Bool, ◌==◌, ◌&&◌, if◌then◌else◌}
use verified_nrkernel.PageTable.Hardware.{Word}

pub record PageTableMemory : Type 0 where
  pub cr3 : ℕ
  pub region_view : ℕ → ℕ → Word

abbrev pub spec_read : PageTableMemory → ℕ → ℕ → Word
spec_read mem idx region = mem.region_view region idx

-- Writes the word of a region at an index, and nothing else.
abbrev pub write : PageTableMemory → (idx region : ℕ) → Word → PageTableMemory
write mem idx region value = record mem {
  region_view = λ r i. if (r == region) && (i == idx) then value else mem.region_view r i;
}
