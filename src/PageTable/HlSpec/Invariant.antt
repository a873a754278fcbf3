-- ===== src/PageTable/HlSpec/Invariant.antt =====
-- The invariant of page-table/spec_t/hlspec.rs, and the same by thread numbers.
--
-- The source speaks of the set of the arguments in flight, and so says apart that no two threads
-- map alike. `Core` says both at once, of the threads.
use mathlib.Core.Option.{some-injective}
use verified_nrkernel.Prelude.{
  ℕ, ◌<◌, ◌≡◌, ◌≢◌, refl, sym, Bool, true, false, Option, some, arith, ◌∙◌, ℕ_discrete, ap,
}
use verified_nrkernel.PageTable.Arch.{MemRegion, overlap, PageTableEntry}
use verified_nrkernel.PageTable.HlSpec.{
  AbstractConstants, AbstractArguments, AbstractVariables, map, Values, IsWellFormed, OverlapsPmem,
  CandidateMappingOverlapsInflightPmem, CandidateMappingOverlapsExistingPmem,
}

abbrev pub PmemNoOverlap : (ℕ → Option PageTableEntry) → Type 0
PmemNoOverlap mappings =
    (b1 b2 : ℕ) (p1 p2 : PageTableEntry)
    → mappings b1 ≡ some p1
    → mappings b2 ≡ some p2
    → overlap p1.frame p2.frame ≡ true
    → b1 ≡ b2

abbrev pub InflightMapNoOverlapPmem :
    (AbstractArguments → Type 0) → (ℕ → Option PageTableEntry) → Type 0
InflightMapNoOverlapPmem inflights mappings =
    (vaddr : ℕ) (pte : PageTableEntry)
    → inflights (map vaddr pte)
    → ¬ CandidateMappingOverlapsExistingPmem mappings pte

abbrev pub InflightMapNoOverlapInflightPmem : (AbstractArguments → Type 0) → Type 0
InflightMapNoOverlapInflightPmem inflights =
    (vaddr : ℕ) (pte : PageTableEntry)
    → inflights (map vaddr pte)
    → ¬ CandidateMappingOverlapsInflightPmem (λ b. inflights b × (b ≢ map vaddr pte)) pte

abbrev pub MappingsFrameSizesOverZero : (ℕ → Option PageTableEntry) → Type 0
MappingsFrameSizesOverZero mappings =
    (base : ℕ) (pte : PageTableEntry) → mappings base ≡ some pte → 0 < pte.frame.size

abbrev pub InflightMemSizeOverZero : (AbstractArguments → Type 0) → Type 0
InflightMemSizeOverZero inflights =
    (vaddr : ℕ) (pte : PageTableEntry) → inflights (map vaddr pte) → 0 < pte.frame.size

-- No two threads have the same mapping in flight.
abbrev pub InflightMapsUnique : (ℕ → Option AbstractArguments) → Type 0
InflightMapsUnique thread_state =
    (id1 id2 vaddr : ℕ) (pte : PageTableEntry)
    → thread_state id1 ≡ some (map vaddr pte)
    → thread_state id2 ≡ some (map vaddr pte)
    → id1 ≡ id2

-- The source's `inv`.
pub record Inv (c : AbstractConstants) (s : AbstractVariables) : Type 0 where
  pub well_formed : IsWellFormed c s
  pub no_overlap : PmemNoOverlap s.mappings
  pub inflight_no_overlap : InflightMapNoOverlapPmem (Values s.thread_state) s.mappings
  pub inflight_no_inflight : InflightMapNoOverlapInflightPmem (Values s.thread_state)
  pub frame_sizes : MappingsFrameSizesOverZero s.mappings
  pub inflight_sizes : InflightMemSizeOverZero (Values s.thread_state)
  pub maps_unique : InflightMapsUnique s.thread_state

pub record Core (threads : ℕ → Option AbstractArguments) (mappings : ℕ → Option PageTableEntry)
    : Type 0 where
  pub no_overlap : PmemNoOverlap mappings
  pub existing :
      (id vaddr : ℕ) (pte : PageTableEntry)
      → threads id ≡ some (map vaddr pte)
      → (b : ℕ) (p : PageTableEntry) → mappings b ≡ some p
      → overlap pte.frame p.frame ≡ false
  pub inflight :
      (id1 id2 vaddr : ℕ) (pte : PageTableEntry) (b : AbstractArguments)
      → id1 ≢ id2
      → threads id1 ≡ some (map vaddr pte)
      → threads id2 ≡ some b
      → ¬ OverlapsPmem b pte
  pub frame_sizes : MappingsFrameSizesOverZero mappings
  pub inflight_sizes :
      (id vaddr : ℕ) (pte : PageTableEntry) → threads id ≡ some (map vaddr pte) → 0 < pte.frame.size

pub overlap_comm : (r s : MemRegion) → overlap r s ≡ overlap s r
overlap_comm r s = ground arith

pub overlap_refl : (r : MemRegion) → overlap r r ≡ true
overlap_refl r = ground arith

module _ {c : AbstractConstants} {s : AbstractVariables} where
  pub Inv-Core : Inv c s → Core s.thread_state s.mappings
  Inv-Core v = record {
    no_overlap = v.no_overlap;
    existing = λ id vaddr pte h b p k.
        existing_of _ (λ o. v.inflight_no_overlap vaddr pte (id, h) (b, p, k, o));
    inflight = λ id1 id2 vaddr pte b ne h k o.
        v.inflight_no_inflight vaddr pte (id1, h)
          (b, ((id2, k), λ e. ne (v.maps_unique id1 id2 vaddr pte h (k ∙ ap some e))), o);
    frame_sizes = v.frame_sizes;
    inflight_sizes = λ id vaddr pte h. v.inflight_sizes vaddr pte (id, h);
  }
    where
      existing_of : (b : Bool) → ¬ (b ≡ true) → b ≡ false
      existing_of true h = absurd (h refl)
      existing_of false h = refl

  pub Core-Inv : IsWellFormed c s → Core s.thread_state s.mappings → Inv c s
  Core-Inv w v = record {
    well_formed = w;
    no_overlap = v.no_overlap;
    inflight_no_overlap =
        λ vaddr pte (id, h) (b, p, k, o). cc (sym o ∙ v.existing id vaddr pte h b p k);
    inflight_no_inflight = λ vaddr pte (id, h) (b, ((id2, k), ne), o).
        v.inflight id id2 vaddr pte b
          (λ e. ne (some-injective _ _ (sym k ∙ ap s.thread_state (sym e) ∙ h))) h k o;
    frame_sizes = v.frame_sizes;
    inflight_sizes = λ vaddr pte (id, h). v.inflight_sizes id vaddr pte h;
    maps_unique = λ id1 id2 vaddr pte h k. elim (ℕ_discrete id1 id2) [
      | yes e ↦ e
      | no ne ↦
          absurd (v.inflight id1 id2 vaddr pte (map vaddr pte) ne h k (overlap_refl pte.frame))
    ];
  }
