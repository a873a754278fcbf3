-- ===== src/PageTable/HlSpec/Steps.antt =====
-- The transitions of page-table/spec_t/hlspec.rs.
use verified_nrkernel.Prelude.{
  ℕ, ◌+◌, ◌-◌, ◌^◌, ◌≤◌, ◌<◌, ◌≡◌, Bool, not, ◌&&◌, ◌||◌, ◌⊎◌, Option, none, some, ltb,
  if◌then◌else◌, insert, remove,
}
use verified_nrkernel.PageTable.Arch.{
  Aligned, Between, PageTableEntry, l1_entry_size, l2_entry_size, l3_entry_size, upper_vaddr,
  x86_arch,
}
use verified_nrkernel.PageTable.HlSpec.{
  word_index, LoadResult, StoreResult, RwOp, Result, AbstractConstants, AbstractArguments,
  AbstractVariables, AbstractStep, value, store, load, map, unmap, empty, read_write, map_start,
  map_end, unmap_start, unmap_end, stutter, Cond, Values, IsInit, translate, MemDomainFromMappings,
  HasDomain, Agree, ValidThread, StateUnchangedBesidesThreadState, UnsoundState, size_of,
  CandidateMappingOverlapsInflightVmem, CandidateMappingOverlapsInflightPmem,
  CandidateMappingInBounds, CandidateMappingOverlapsExistingVmem,
  CandidateMappingOverlapsExistingPmem,
}

-- A write or a read through the mapping `pte` at `base`, by what the flags allow.
abbrev pub may_store : AbstractConstants → ℕ → ℕ → PageTableEntry → Bool
may_store c vaddr base pte =
    ltb (word_index (translate vaddr base pte)) c.phys_mem_size
    && not pte.flags.is_supervisor
    && pte.flags.is_writable

abbrev pub may_load : AbstractConstants → ℕ → ℕ → PageTableEntry → Bool → Bool
may_load c vaddr base pte is_exec =
    ltb (word_index (translate vaddr base pte)) c.phys_mem_size
    && not pte.flags.is_supervisor
    && (not is_exec || not pte.flags.disable_execute)

abbrev pub Access :
    AbstractConstants
    → AbstractVariables
    → AbstractVariables
    → ℕ
    → RwOp
    → ℕ
    → PageTableEntry
    → Type 0
Access c s1 s2 vaddr (store new_value result) base pte =
    if may_store c vaddr base pte
    then (result ≡ StoreResult.ok) × (s2.mem ≡ insert s1.mem (word_index vaddr) new_value)
    else (result ≡ StoreResult.undefined) × (s2.mem ≡ s1.mem)
Access c s1 s2 vaddr (load is_exec result) base pte =
    (s2.mem ≡ s1.mem)
    × (if may_load c vaddr base pte is_exec
        then ((v : ℕ) × (result ≡ value v) × (s1.mem (word_index vaddr) ≡ some v))
        else result ≡ LoadResult.undefined)

abbrev pub IsUndefined : RwOp → Type 0
IsUndefined (store new_value result) = result ≡ StoreResult.undefined
IsUndefined (load is_exec result) = result ≡ LoadResult.undefined

abbrev pub AccessAt :
    AbstractConstants
    → AbstractVariables
    → AbstractVariables
    → ℕ
    → RwOp
    → Option (ℕ × PageTableEntry)
    → Type 0
AccessAt c s1 s2 vaddr op (some (base, pte)) =
    (s1.mappings base ≡ some pte)
    × Between vaddr base (base + pte.frame.size)
    × Access c s1 s2 vaddr op base pte
AccessAt c s1 s2 vaddr op none =
    (¬ MemDomainFromMappings c.phys_mem_size s1.mappings (word_index vaddr))
    × (s2.mem ≡ s1.mem)
    × IsUndefined op

abbrev pub StepReadWrite :
    AbstractConstants
    → AbstractVariables
    → AbstractVariables
    → ℕ
    → ℕ
    → RwOp
    → Option (ℕ × PageTableEntry)
    → Type 0
StepReadWrite c s1 s2 thread_id vaddr op pte =
    (s2.sound ≡ s1.sound)
    × Aligned vaddr 8
    × (s2.mappings ≡ s1.mappings)
    × ValidThread c thread_id
    × (s1.thread_state thread_id ≡ some empty)
    × (s2.thread_state ≡ s1.thread_state)
    × AccessAt c s1 s2 vaddr op pte

abbrev pub StepMapSound :
    (ℕ → Option PageTableEntry) → (AbstractArguments → Type 0) → ℕ → PageTableEntry → Type 0
StepMapSound mappings inflights vaddr pte =
    (¬ CandidateMappingOverlapsInflightVmem inflights vaddr pte.frame.size)
    × (¬ CandidateMappingOverlapsExistingPmem mappings pte)
    × (¬ CandidateMappingOverlapsInflightPmem inflights pte)

abbrev pub max_phyaddr : AbstractConstants → ℕ
max_phyaddr c = 2 ^ c.phyaddr_width - 1

abbrev pub StepMapEnabled : AbstractConstants → ℕ → PageTableEntry → Type 0
StepMapEnabled c vaddr pte =
    Aligned vaddr pte.frame.size
    × Aligned pte.frame.base pte.frame.size
    × (pte.frame.base ≤ max_phyaddr c)
    × CandidateMappingInBounds vaddr pte
    × ((pte.frame.size ≡ l3_entry_size)
        ⊎ (pte.frame.size ≡ l2_entry_size)
        ⊎ (pte.frame.size ≡ l1_entry_size))

abbrev pub StepMapStart :
    AbstractConstants → AbstractVariables → AbstractVariables → ℕ → ℕ → PageTableEntry → Type 0
StepMapStart c s1 s2 thread_id vaddr pte =
    StepMapEnabled c vaddr pte
    × ValidThread c thread_id
    × (s1.thread_state thread_id ≡ some empty)
    × Cond (StepMapSound s1.mappings (Values s1.thread_state) vaddr pte)
        (StateUnchangedBesidesThreadState s1 s2 thread_id (map vaddr pte)) (UnsoundState s1 s2)

abbrev pub EndMap :
    AbstractConstants
    → AbstractVariables
    → AbstractVariables
    → Result
    → Option AbstractArguments
    → Type 0
EndMap c s1 s2 result (some (map vaddr pte)) =
    Cond (CandidateMappingOverlapsExistingVmem s1.mappings vaddr pte)
      ((result ≡ Result.err) × (s2.mappings ≡ s1.mappings) × (s2.mem ≡ s1.mem))
      ((result ≡ Result.ok)
        × (s2.mappings ≡ insert s1.mappings vaddr pte)
        × Agree s1.mem s2.mem
        × HasDomain c.phys_mem_size s2.mappings s2.mem)
EndMap c s1 s2 result (some (unmap vaddr pte)) = ⊥
EndMap c s1 s2 result (some empty) = ⊥
EndMap c s1 s2 result none = ⊥

abbrev pub StepMapEnd :
    AbstractConstants → AbstractVariables → AbstractVariables → ℕ → Result → Type 0
StepMapEnd c s1 s2 thread_id result =
    (s2.sound ≡ s1.sound)
    × ValidThread c thread_id
    × (s2.thread_state ≡ insert s1.thread_state thread_id empty)
    × EndMap c s1 s2 result (s1.thread_state thread_id)

abbrev pub StepUnmapSound : (AbstractArguments → Type 0) → ℕ → ℕ → Type 0
StepUnmapSound inflights vaddr pte_size =
    ¬ CandidateMappingOverlapsInflightVmem inflights vaddr pte_size

abbrev pub StepUnmapEnabled : ℕ → Type 0
StepUnmapEnabled vaddr =
    (vaddr < upper_vaddr x86_arch 0 0)
    × (Aligned vaddr l3_entry_size ⊎ Aligned vaddr l2_entry_size ⊎ Aligned vaddr l1_entry_size)

abbrev pub StartUnmap :
    AbstractConstants → AbstractVariables → AbstractVariables → ℕ → Option PageTableEntry → Type 0
StartUnmap c s1 s2 vaddr none = (s2.mappings ≡ s1.mappings) × (s2.mem ≡ s1.mem)
StartUnmap c s1 s2 vaddr (some pte) =
    (s2.mappings ≡ remove s1.mappings vaddr)
    × HasDomain c.phys_mem_size s2.mappings s2.mem
    × Agree s1.mem s2.mem

abbrev pub StepUnmapStart :
    AbstractConstants → AbstractVariables → AbstractVariables → ℕ → ℕ → Type 0
StepUnmapStart c s1 s2 thread_id vaddr =
    StepUnmapEnabled vaddr
    × ValidThread c thread_id
    × (s1.thread_state thread_id ≡ some empty)
    × Cond (StepUnmapSound (Values s1.thread_state) vaddr (size_of (s1.mappings vaddr)))
        ((s2.thread_state ≡ insert s1.thread_state thread_id (unmap vaddr (s1.mappings vaddr)))
          × StartUnmap c s1 s2 vaddr (s1.mappings vaddr)
          × HasDomain c.phys_mem_size (remove s1.mappings vaddr) s2.mem
          × (s2.sound ≡ s1.sound))
        (UnsoundState s1 s2)

abbrev pub EndUnmap : Result → Option AbstractArguments → Type 0
EndUnmap result (some (unmap vaddr (some pte))) = result ≡ Result.ok
EndUnmap result (some (unmap vaddr none)) = result ≡ Result.err
EndUnmap result (some (map vaddr pte)) = ⊥
EndUnmap result (some empty) = ⊥
EndUnmap result none = ⊥

abbrev pub StepUnmapEnd :
    AbstractConstants → AbstractVariables → AbstractVariables → ℕ → Result → Type 0
StepUnmapEnd c s1 s2 thread_id result =
    ValidThread c thread_id
    × (s2.thread_state ≡ insert s1.thread_state thread_id empty)
    × (s2.sound ≡ s1.sound)
    × (s2.mappings ≡ s1.mappings)
    × (s2.mem ≡ s1.mem)
    × EndUnmap result (s1.thread_state thread_id)

abbrev pub StepStutter : AbstractVariables → AbstractVariables → Type 0
StepStutter s1 s2 = s1 ≡ s2

-- What the call `step` does in a sound state.
abbrev pub SoundStep :
    AbstractConstants → AbstractVariables → AbstractVariables → AbstractStep → Type 0
SoundStep c s1 s2 (read_write thread_id vaddr op pte) = StepReadWrite c s1 s2 thread_id vaddr op pte
SoundStep c s1 s2 (map_start thread_id vaddr pte) = StepMapStart c s1 s2 thread_id vaddr pte
SoundStep c s1 s2 (map_end thread_id result) = StepMapEnd c s1 s2 thread_id result
SoundStep c s1 s2 (unmap_start thread_id vaddr) = StepUnmapStart c s1 s2 thread_id vaddr
SoundStep c s1 s2 (unmap_end thread_id result) = StepUnmapEnd c s1 s2 thread_id result
SoundStep c s1 s2 stutter = StepStutter s1 s2

abbrev pub NextStep :
    AbstractConstants → AbstractVariables → AbstractVariables → AbstractStep → Type 0
NextStep c s1 s2 step = if s1.sound then SoundStep c s1 s2 step else UnsoundState s1 s2

-- The states that the process can see.
pub data Reach (c : AbstractConstants) : AbstractVariables → Type 0 where
  start : {s : AbstractVariables} → IsInit c s → Reach c s
  next :
      {s1 s2 : AbstractVariables} (step : AbstractStep)
      → Reach c s1
      → NextStep c s1 s2 step
      → Reach c s2
