-- ===== src/PageTable/HlSpec.antt =====
-- page-table/spec_t/hlspec.rs: what a process sees of the kernel. Threads read and write virtual
-- memory, and map and unmap pages in two steps each, between which the call is in flight.
--
-- A map is a function into options, and its domain is finite when it has a bound. Where the source
-- indexes a map at a missing key its value is arbitrary; the relations here ask for the key.
pub mod Steps
pub mod Invariant
pub mod Change
pub mod Finite
pub mod Preserve
pub mod Memory
pub mod Stores
pub mod Tests
use verified_nrkernel.Prelude.{
  ℕ, ◌+◌, ◌-◌, ◌*◌, ◌/◌, ◌^◌, ◌≤◌, ◌<◌, ◌≡◌, Bool, true, false, not, ◌&&◌, ◌||◌, ◌⊎◌, ◌↔◌, Option,
  none, some, ltb, if◌then◌else◌, is_some, insert, remove, empty_map,
}
use verified_nrkernel.PageTable.Arch.{
  MemRegion, overlap, Aligned, Between, PageTableEntry, l1_entry_size, l2_entry_size, l3_entry_size,
  upper_vaddr, x86_arch,
}

abbrev pub word_size : ℕ
word_size = 8

-- `mem::word_index_spec`.
abbrev pub word_index : ℕ → ℕ
word_index addr = addr / word_size

pub data LoadResult : Type 0 where
  undefined : LoadResult
  value : ℕ → LoadResult

pub data StoreResult : Type 0 where
  undefined : StoreResult
  ok : StoreResult

pub data RwOp : Type 0 where
  store : ℕ → StoreResult → RwOp
  load : Bool → LoadResult → RwOp

-- `Result<(), ()>`.
pub data Result : Type 0 where
  ok : Result
  err : Result

pub record AbstractConstants : Type 0 where
  pub thread_no : ℕ
  pub phys_mem_size : ℕ
  -- The width of a physical address, which the processor fixes (32 to 52 bits).
  pub phyaddr_width : ℕ

pub data AbstractArguments : Type 0 where
  map : ℕ → PageTableEntry → AbstractArguments
  unmap : ℕ → Option PageTableEntry → AbstractArguments
  empty : AbstractArguments

pub record AbstractVariables : Type 0 where
  pub mem : ℕ → Option ℕ
  pub thread_state : ℕ → Option AbstractArguments
  pub mappings : ℕ → Option PageTableEntry
  pub sound : Bool

pub data AbstractStep : Type 0 where
  read_write : (thread_id vaddr : ℕ) → RwOp → Option (ℕ × PageTableEntry) → AbstractStep
  map_start : (thread_id vaddr : ℕ) → PageTableEntry → AbstractStep
  map_end : (thread_id : ℕ) → Result → AbstractStep
  unmap_start : (thread_id vaddr : ℕ) → AbstractStep
  unmap_end : (thread_id : ℕ) → Result → AbstractStep
  stutter : AbstractStep

-- The source's `if` on a condition that is not decided.
abbrev pub Cond : Type 0 → Type 0 → Type 0 → Type 0
Cond P A B = (P × A) ⊎ ((¬ P) × B)

abbrev pub IsFinite {ℓ} : {V : Type ℓ} → (ℕ → Option V) → Type ℓ
IsFinite m = (n : ℕ) × ((k : ℕ) → n ≤ k → m k ≡ none)

-- The values of a map, as a set.
abbrev pub Values : (ℕ → Option AbstractArguments) → AbstractArguments → Type 0
Values m b = (id : ℕ) × (m id ≡ some b)

pub record IsWellFormed (c : AbstractConstants) (s : AbstractVariables) : Type 0 where
  pub threads : (id : ℕ) → is_some (s.thread_state id) ≡ ltb id c.thread_no
  pub finite_mappings : IsFinite s.mappings
  pub finite_mem : IsFinite s.mem

pub record IsInit (c : AbstractConstants) (s : AbstractVariables) : Type 0 where
  pub no_mem : s.mem ≡ empty_map
  pub no_mappings : s.mappings ≡ empty_map
  pub all_empty : (id : ℕ) → id < c.thread_no → s.thread_state id ≡ some empty
  pub well_formed : IsWellFormed c s
  pub is_sound : s.sound ≡ true

abbrev pub translate : ℕ → ℕ → PageTableEntry → ℕ
translate vaddr base pte = pte.frame.base + (vaddr - base)

abbrev pub MemDomainFromEntryContains : ℕ → ℕ → ℕ → PageTableEntry → Type 0
MemDomainFromEntryContains phys_mem_size vaddr base pte =
    Between vaddr base (base + pte.frame.size)
    × (word_index (translate vaddr base pte) < phys_mem_size)

abbrev pub MemDomainFromMappings : ℕ → (ℕ → Option PageTableEntry) → ℕ → Type 0
MemDomainFromMappings phys_mem_size mappings word_idx =
    (base : ℕ) × (pte : PageTableEntry) × (mappings base ≡ some pte)
    × MemDomainFromEntryContains phys_mem_size (word_idx * word_size) base pte

-- The domain of the memory is that of the mappings.
abbrev pub HasDomain : ℕ → (ℕ → Option PageTableEntry) → (ℕ → Option ℕ) → Type 0
HasDomain phys_mem_size mappings mem =
    (w : ℕ) → (is_some (mem w) ≡ true) ↔ MemDomainFromMappings phys_mem_size mappings w

-- Two memories agree where both have a word.
abbrev pub Agree : (ℕ → Option ℕ) → (ℕ → Option ℕ) → Type 0
Agree m1 m2 = (w v1 v2 : ℕ) → m1 w ≡ some v1 → m2 w ≡ some v2 → v2 ≡ v1

abbrev pub ValidThread : AbstractConstants → ℕ → Type 0
ValidThread c thread_id = thread_id < c.thread_no

abbrev pub StateUnchangedBesidesThreadState :
    AbstractVariables → AbstractVariables → ℕ → AbstractArguments → Type 0
StateUnchangedBesidesThreadState s1 s2 thread_id args =
    (s2.thread_state ≡ insert s1.thread_state thread_id args)
    × (s2.mem ≡ s1.mem)
    × (s2.mappings ≡ s1.mappings)
    × (s2.sound ≡ s1.sound)

abbrev pub UnsoundState : AbstractVariables → AbstractVariables → Type 0
UnsoundState s1 s2 = s2.sound ≡ false

abbrev pub size_of : Option PageTableEntry → ℕ
size_of none = 0
size_of (some pte) = pte.frame.size

abbrev pub region_at : ℕ → ℕ → MemRegion
region_at vaddr n = record { base = vaddr; size = n }

abbrev pub OverlapsVmem : AbstractArguments → ℕ → ℕ → Type 0
OverlapsVmem (map vaddr pte) base n =
    overlap (region_at vaddr pte.frame.size) (region_at base n) ≡ true
OverlapsVmem (unmap vaddr pte) base n =
    overlap (region_at vaddr (size_of pte)) (region_at base n) ≡ true
OverlapsVmem empty base n = ⊥

abbrev pub OverlapsPmem : AbstractArguments → PageTableEntry → Type 0
OverlapsPmem (map vaddr pte) candidate = overlap candidate.frame pte.frame ≡ true
OverlapsPmem (unmap vaddr none) candidate = ⊥
OverlapsPmem (unmap vaddr (some pte)) candidate = overlap candidate.frame pte.frame ≡ true
OverlapsPmem empty candidate = ⊥

abbrev pub CandidateMappingOverlapsInflightVmem : (AbstractArguments → Type 0) → ℕ → ℕ → Type 0
CandidateMappingOverlapsInflightVmem inflights base candidate_size =
    (b : AbstractArguments) × inflights b × OverlapsVmem b base candidate_size

abbrev pub CandidateMappingOverlapsInflightPmem :
    (AbstractArguments → Type 0) → PageTableEntry → Type 0
CandidateMappingOverlapsInflightPmem inflights candidate =
    (b : AbstractArguments) × inflights b × OverlapsPmem b candidate

-- definitions_t.rs.
abbrev pub CandidateMappingInBounds : ℕ → PageTableEntry → Type 0
CandidateMappingInBounds base pte = base + pte.frame.size < upper_vaddr x86_arch 0 0

abbrev pub CandidateMappingOverlapsExistingVmem :
    (ℕ → Option PageTableEntry) → ℕ → PageTableEntry → Type 0
CandidateMappingOverlapsExistingVmem mappings base pte =
    (b : ℕ) × (p : PageTableEntry) × (mappings b ≡ some p)
    × (overlap (region_at base pte.frame.size) (region_at b p.frame.size) ≡ true)

abbrev pub CandidateMappingOverlapsExistingPmem :
    (ℕ → Option PageTableEntry) → PageTableEntry → Type 0
CandidateMappingOverlapsExistingPmem mappings pte =
    (b : ℕ) × (p : PageTableEntry) × (mappings b ≡ some p) × (overlap pte.frame p.frame ≡ true)
