-- ===== src/PageTable/Arch/Tests.antt =====
-- The architecture of page-table/definitions_t.rs meets its invariant (`x86_arch_inv`), and the index
-- arithmetic at concrete addresses.
use verified_nrkernel.Prelude.{ℕ, zero, suc, ◌+◌, ◌*◌, ◌<◌, ◌≤◌, ◌≡◌, refl, arith, length}
use verified_nrkernel.PageTable.Arch.{
  IsArch, entry_size, num_entries, upper_vaddr, index_from_base_and_addr, x86_arch, max_base,
  x86_max_entry_size, x86_num_entries,
}
use verified_nrkernel.PageTable.Arch.Index.{index_unique}

x86_arch-IsArch : IsArch x86_arch
unfolding entry_size num_entries
x86_arch-IsArch = record {
  few_layers = omega arith;
  layer_bounds = bounds;
  next_layer_size = next_size;
}
  where
    bounds :
        (i : ℕ)
        → i < length x86_arch.layers
        → (0 < entry_size x86_arch i)
          × (entry_size x86_arch i ≤ x86_max_entry_size)
          × (0 < num_entries x86_arch i)
          × (num_entries x86_arch i ≤ x86_num_entries)
    bounds zero h = omega arith
    bounds (suc zero) h = omega arith
    bounds (suc (suc zero)) h = omega arith
    bounds (suc (suc (suc zero))) h = omega arith
    bounds (suc (suc (suc (suc i)))) h = absurd (omega arith)

    next_size :
        (i : ℕ)
        → i + 1 < length x86_arch.layers
        → entry_size x86_arch i ≡ entry_size x86_arch (i + 1) * num_entries x86_arch (i + 1)
    next_size zero h = refl
    next_size (suc zero) h = refl
    next_size (suc (suc zero)) h = refl
    next_size (suc (suc (suc i))) h = absurd (omega arith)

-- `x86_arch_spec_upper_bound` and `overflow_bounds`.
upper_bound : upper_vaddr x86_arch 0 0 ≡ 512 * 512 * 1024 * 1024 * 1024
unfolding entry_size num_entries
upper_bound = refl

overflow_bound : max_base + x86_max_entry_size * (x86_num_entries + 1) < 0x1_0000_0000_0000_0000
overflow_bound = omega arith

index_unique_example : index_from_base_and_addr 0x1000 0x4abc 0x1000 ≡ 3
index_unique_example = index_unique 0x1000 0x4abc 0x1000 3 (omega arith) (omega arith) (omega arith)
