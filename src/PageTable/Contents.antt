-- ===== src/PageTable/Contents.antt =====
-- page-table/impl_u/l0.rs: what a page table promises, as a map from base addresses to entries.
--
-- A map is a function into options. Its domain lies between `lower` and `upper`, so the source's
-- condition that the domain is finite has no counterpart. What the source decides by a quantifier
-- (`ValidMapping`, `resolve`) is a relation to the result here.
use verified_nrkernel.Prelude.{ℕ, ◌+◌, ◌≤◌, ◌≡◌, false, Option, none, some, ◌⊎◌, insert, remove}
use verified_nrkernel.PageTable.Arch.{
  Arch, IsArch, MemRegion, overlap, Aligned, Between, PageTableEntry, ContainsEntrySize,
}

pub record PageTableContents : Type 0 where
  pub map : ℕ → Option PageTableEntry
  pub arch : Arch
  pub lower : ℕ
  pub upper : ℕ

abbrev pub region : ℕ → PageTableEntry → MemRegion
region base pte = record { base = base; size = pte.frame.size }

abbrev pub CandidateMappingInBounds : PageTableContents → ℕ → PageTableEntry → Type 0
CandidateMappingInBounds c base pte = (c.lower ≤ base) × (base + pte.frame.size ≤ c.upper)

-- The source's `inv`.
pub record IsContents (c : PageTableContents) : Type 0 where
  pub arch_inv : IsArch c.arch
  pub mappings_are_of_valid_size :
      (va : ℕ) (p : PageTableEntry) → c.map va ≡ some p → ContainsEntrySize c.arch p.frame.size
  pub mappings_are_aligned :
      (va : ℕ) (p : PageTableEntry)
      → c.map va ≡ some p
      → Aligned va p.frame.size × Aligned p.frame.base p.frame.size
  pub mappings_dont_overlap :
      (b1 b2 : ℕ) (p1 p2 : PageTableEntry)
      → c.map b1 ≡ some p1
      → c.map b2 ≡ some p2
      → (b1 ≡ b2) ⊎ (overlap (region b1 p1) (region b2 p2) ≡ false)
  pub mappings_in_bounds :
      (b : ℕ) (p : PageTableEntry) → c.map b ≡ some p → CandidateMappingInBounds c b p

abbrev pub AcceptedMapping : PageTableContents → ℕ → PageTableEntry → Type 0
AcceptedMapping c base pte =
    Aligned base pte.frame.size
    × Aligned pte.frame.base pte.frame.size
    × CandidateMappingInBounds c base pte
    × ContainsEntrySize c.arch pte.frame.size

-- The candidate overlaps no mapping that is there.
abbrev pub ValidMapping : PageTableContents → ℕ → PageTableEntry → Type 0
ValidMapping c base pte =
    (b : ℕ) (p : PageTableEntry) → c.map b ≡ some p → overlap (region base pte) (region b p) ≡ false

-- `Result<PageTableContents, PageTableContents>`.
pub data Outcome : Type 0 where
  ok : PageTableContents → Outcome
  err : PageTableContents → Outcome

-- The outcome of `map_frame`, by whether the candidate is valid.
abbrev pub MapsFrame : PageTableContents → ℕ → PageTableEntry → Outcome → Type 0
MapsFrame c base pte (ok c') =
    ValidMapping c base pte × (c' ≡ record c { map = insert c.map base pte })
MapsFrame c base pte (err c') = ¬ ValidMapping c base pte × (c' ≡ c)

abbrev pub AcceptedResolve : PageTableContents → ℕ → Type 0
AcceptedResolve c vaddr = Between vaddr c.lower c.upper

-- The outcome of `resolve`: a mapping that contains the address, or that there is none.
abbrev pub Finds : PageTableContents → ℕ → ℕ → PageTableEntry → Type 0
Finds c vaddr base pte = (c.map base ≡ some pte) × Between vaddr base (base + pte.frame.size)

abbrev pub FindsNone : PageTableContents → ℕ → Type 0
FindsNone c vaddr =
    (base : ℕ) (pte : PageTableEntry)
    → c.map base ≡ some pte
    → ¬ Between vaddr base (base + pte.frame.size)

abbrev pub unmap_at : PageTableContents → ℕ → Option PageTableEntry → Outcome
unmap_at c base none = err c
unmap_at c base (some p) = ok (record c { map = remove c.map base })

abbrev pub unmap : PageTableContents → ℕ → Outcome
unmap c base = unmap_at c base (c.map base)
