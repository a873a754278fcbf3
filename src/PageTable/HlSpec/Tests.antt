-- ===== src/PageTable/HlSpec/Tests.antt =====
-- A process with two threads that maps its first page to the second frame and stores to it.

use verified_nrkernel.Prelude.{
  insert-cases, ℕ, ◌+◌, ◌*◌, ◌<◌, ◌≡◌, refl, sym, ◌∙◌, ap, subst, true, false, ◌⊎◌, inl, inr, some,
  arith, insert, empty_map, new_map, is_some-new_map, new_map_lt, ltb→lt, lt→ltb,
}
use verified_nrkernel.PageTable.Arch.{
  PageTableEntry, permissive_flags, entry_size, num_entries, upper_vaddr, x86_arch, Between,
}
use verified_nrkernel.PageTable.HlSpec.{
  AbstractConstants, AbstractArguments, AbstractVariables, StoreResult, Result, store, load, value,
  map, empty, read_write, map_start, map_end, IsInit, HasDomain, OverlapsVmem, OverlapsPmem,
}
use verified_nrkernel.PageTable.HlSpec.Steps.{NextStep, Reach, start, next}
use verified_nrkernel.PageTable.HlSpec.Invariant.{Inv}
use verified_nrkernel.PageTable.HlSpec.Preserve.{
  init_implies-Inv, idle_threads, NextStep-preserves_Inv, reachable-Inv,
}
use verified_nrkernel.PageTable.HlSpec.Memory.{reachable_mem_domain, load_enabled, no_aliasing}
use verified_nrkernel.PageTable.HlSpec.Stores.{Stores, word_changes}

abbrev machine : AbstractConstants
machine = record { thread_no = 2; phys_mem_size = 1024; phyaddr_width = 32 }

abbrev frame_1 : PageTableEntry
frame_1 = record { frame = record { base = 4096; size = 4096 }; flags = permissive_flags }

abbrev idle : AbstractVariables
idle = record {
  mem = empty_map;
  thread_state = new_map 2 empty;
  mappings = empty_map;
  sound = true;
}

abbrev mapping : AbstractVariables
mapping = record idle { thread_state = insert idle.thread_state 0 (map 0 frame_1) }

abbrev mapped : AbstractVariables
mapped = record mapping {
  thread_state = insert mapping.thread_state 0 empty;
  mappings = insert mapping.mappings 0 frame_1;
  mem = new_map 512 0;
}

abbrev stored : AbstractVariables
stored = record mapped { mem = insert mapped.mem 1 7 }

idle-IsInit : IsInit machine idle
idle-IsInit = record {
  no_mem = refl;
  no_mappings = refl;
  all_empty = new_map_lt 2 empty;
  well_formed = record {
    threads = is_some-new_map 2 empty;
    finite_mappings = (0, λ k le. refl);
    finite_mem = (0, λ k le. refl);
  };
  is_sound = refl;
}

in_bounds : 0 + 4096 < upper_vaddr x86_arch 0 0
unfolding entry_size num_entries
in_bounds = omega arith

begins : NextStep machine idle mapping (map_start 0 0 frame_1)
begins = (
  (refl, refl, omega arith, in_bounds, inl refl),
  omega arith,
  new_map_lt 2 empty 0 (omega arith),
  inl (
    (
      λ (b, (id, h), o). no_vmem b (idle_threads idle-IsInit id b h) o,
      λ (b, p, h, o). cc h,
      λ (b, (id, h), o). no_pmem b (idle_threads idle-IsInit id b h) o,
    ),
    (refl, refl, refl, refl),
  ),
)
  where
    no_vmem : (b : AbstractArguments) → b ≡ empty → ¬ OverlapsVmem b 0 4096
    no_vmem b e o = subst (λ a. OverlapsVmem a 0 4096) e o

    no_pmem : (b : AbstractArguments) → b ≡ empty → ¬ OverlapsPmem b frame_1
    no_pmem b e o = subst (λ a. OverlapsPmem a frame_1) e o

mapped-HasDomain : HasDomain 1024 mapped.mappings mapped.mem
mapped-HasDomain w = (
  λ h.
      let lt = ltb→lt w 512 (sym (is_some-new_map 512 0 w) ∙ h) in
      (0, frame_1, refl, ((omega arith, omega arith), omega arith)),
  λ (base, pte, h, (b, _)). is_some-new_map 512 0 w ∙ lt→ltb w 512 (below base pte h b),
)
  where
    below :
        (base : ℕ) (pte : PageTableEntry)
        → mapped.mappings base ≡ some pte
        → Between (w * 8) base (base + pte.frame.size)
        → w < 512
    below base pte h b = elim (insert-cases empty_map 0 frame_1 base pte h) [
      | inl (e, k) ↦ let z = ap (λ p. p.frame.size) k in omega arith
      | inr k ↦ absurd (cc k.1)
    ]

ends : NextStep machine mapping mapped (map_end 0 Result.ok)
ends = (
  refl,
  omega arith,
  refl,
  inr (λ (b, p, h, o). cc h, (refl, refl, λ w v1 v2 h k. absurd (cc h), mapped-HasDomain)),
)

mapped_reached : Reach machine mapped
mapped_reached =
    next {s1 = mapping} (map_end 0 Result.ok)
      (next {s1 = idle} (map_start 0 0 frame_1) (start idle-IsInit) begins) ends

stores :
    NextStep machine mapped stored (read_write 0 8 (store 7 StoreResult.ok) (some (0, frame_1)))
stores =
    (refl, refl, refl, omega arith, refl, refl, (refl, (omega arith, omega arith), (refl, refl)))

stored_reached : Reach machine stored
stored_reached =
    next {s1 = mapped} (read_write 0 8 (store 7 StoreResult.ok) (some (0, frame_1))) mapped_reached
      stores

NextStep-preserves_Inv_example : Inv machine mapping
NextStep-preserves_Inv_example =
    NextStep-preserves_Inv {c = machine} {s1 = idle} {s2 = mapping} (map_start 0 0 frame_1) begins
      (λ _. init_implies-Inv idle-IsInit) refl

reachable-Inv_example : Inv machine stored
reachable-Inv_example = reachable-Inv stored_reached refl

reachable_mem_domain_example : HasDomain 1024 stored.mappings stored.mem
reachable_mem_domain_example = reachable_mem_domain stored_reached refl

load_enabled_example :
    (v : ℕ) × NextStep machine stored stored
      (read_write 1 8 (load false (value v)) (some (0, frame_1)))
load_enabled_example =
    load_enabled 1 8 0 frame_1 false stored_reached refl (omega arith)
      (new_map_lt 2 empty 1 (omega arith)) refl refl (omega arith, omega arith) refl

no_aliasing_example : ◌≡◌ {A = ℕ} 8 8
no_aliasing_example =
    no_aliasing 0 0 8 8 frame_1 frame_1 stored_reached refl refl refl (omega arith, omega arith)
      (omega arith, omega arith) refl

word_changes_example :
    (◌≡◌ {A = ℕ} 7 0)
    ⊎ Stores machine mapped 1 7 (read_write 0 8 (store 7 StoreResult.ok) (some (0, frame_1)))
word_changes_example =
    word_changes machine mapped stored (read_write 0 8 (store 7 StoreResult.ok) (some (0, frame_1)))
      1 0 7 stores refl refl (new_map_lt 512 0 1 (omega arith)) refl
