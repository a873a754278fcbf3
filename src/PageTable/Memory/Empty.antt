-- ===== src/PageTable/Memory/Empty.antt =====
-- page-table/impl_u/l2_impl.rs: the test whether a directory in memory has no entries
-- (`is_directory_empty`), and what it tells of the memory management unit's view.
use verified_nrkernel.Prelude.{
  ℕ, zero, suc, ◌+◌, ◌≤◌, ◌<◌, ◌≡◌, ◌↔◌, inl, inr, refl, sym, ◌∙◌, ap, Bool, true, false,
  Bool-cases, arith, ℕ_discrete, if◌then◌else◌,
}
use verified_nrkernel.PageTable.Arch.{x86_arch, x86_num_entries, num_entries}
use verified_nrkernel.PageTable.Hardware.{Word, bit, has, all_mb0_bits_are_zero, view}
use verified_nrkernel.PageTable.Entry.{is_mapping}
use verified_nrkernel.PageTable.Entry.Reading.{
  view_unmapped, view_0, view_1_page, view_1_directory, view_2_page, view_2_directory, view_3,
}
use verified_nrkernel.PageTable.Memory.{PageTableMemory, spec_read}
use verified_nrkernel.PageTable.Memory.Resolve.{entry_at, is_empty_view, EmptyAt}

-- The loop of `is_directory_empty`, with the number of entries that are left.
unfoldable pub empty_from : PageTableMemory → (layer ptr left idx : ℕ) → Bool
empty_from mem layer ptr zero idx = true
empty_from mem layer ptr (suc left) idx =
    let rest = empty_from mem layer ptr left (idx + 1) in
    if is_mapping (entry_at mem layer ptr idx) then false else rest

abbrev pub is_directory_empty : PageTableMemory → (layer ptr : ℕ) → Bool
is_directory_empty mem layer ptr = empty_from mem layer ptr (num_entries x86_arch layer) 0

module _ (m : ℕ) (v : Word) where
  -- An entry that is present, with its must-be-zero bits zero, is not seen as empty.
  mapped_not_empty :
      (layer : ℕ)
      → layer < 4
      → all_mb0_bits_are_zero m (record { entry = v; layer = layer }) ≡ true
      → has v (bit 0) ≡ true
      → is_empty_view (view m (record { entry = v; layer = layer })) ≡ false
  mapped_not_empty zero lt mb0 p = ap is_empty_view (view_0 m v p mb0)
  mapped_not_empty (suc zero) lt mb0 p = elim (Bool-cases (has v (bit 7))) [
    | inl ps ↦ ap is_empty_view (view_1_page m v p mb0 ps)
    | inr ps ↦ ap is_empty_view (view_1_directory m v p mb0 ps)
  ]
  mapped_not_empty (suc (suc zero)) lt mb0 p = elim (Bool-cases (has v (bit 7))) [
    | inl ps ↦ ap is_empty_view (view_2_page m v p mb0 ps)
    | inr ps ↦ ap is_empty_view (view_2_directory m v p mb0 ps)
  ]
  mapped_not_empty (suc (suc (suc zero))) lt mb0 p = ap is_empty_view (view_3 m v p mb0)
  mapped_not_empty (suc (suc (suc (suc n)))) lt mb0 p = absurd (omega arith)

num_entries_512 : (l : ℕ) → l < 4 → num_entries x86_arch l ≡ 512
unfolding num_entries
num_entries_512 zero lt = refl
num_entries_512 (suc zero) lt = refl
num_entries_512 (suc (suc zero)) lt = refl
num_entries_512 (suc (suc (suc zero))) lt = refl
num_entries_512 (suc (suc (suc (suc n)))) lt = absurd (omega arith)

module _ (m : ℕ) (mem : PageTableMemory) (layer ptr : ℕ) where
  empty_from-unmapped :
      (left idx : ℕ)
      → empty_from mem layer ptr left idx ≡ true
      → (i : ℕ) → idx ≤ i
      → i < idx + left
      → is_mapping (entry_at mem layer ptr i) ≡ false
  unfolding empty_from
  empty_from-unmapped zero idx h i le lt = absurd (omega arith)
  empty_from-unmapped (suc left) idx h i le lt =
      elim (Bool-cases (is_mapping (entry_at mem layer ptr idx))) [
        | inl used ↦ absurd (
            cc (
              sym (ap (λ b. if b then false else empty_from mem layer ptr left (idx + 1)) used)
              ∙ h))
        | inr free ↦
            let rest =
              sym (ap (λ b. if b then false else empty_from mem layer ptr left (idx + 1)) free)
              ∙ h in
            elim (ℕ_discrete i idx) [
              | yes e ↦ ap (λ k. is_mapping (entry_at mem layer ptr k)) e ∙ free
              | no ne ↦ empty_from-unmapped left (idx + 1) rest i (omega arith) (omega arith)
            ]
      ]

  unmapped-empty_from :
      (left idx : ℕ)
      → ((i : ℕ) → idx ≤ i → i < idx + left → is_mapping (entry_at mem layer ptr i) ≡ false)
      → empty_from mem layer ptr left idx ≡ true
  unfolding empty_from
  unmapped-empty_from zero idx h = refl
  unmapped-empty_from (suc left) idx h =
      ap (λ b. if b then false else empty_from mem layer ptr left (idx + 1))
        (h idx (omega arith) (omega arith))
      ∙ unmapped-empty_from left (idx + 1) (λ i le lt. h i (omega arith) (omega arith))

  -- A directory whose entries have their must-be-zero bits zero is found to be empty just when the
  -- memory management unit sees an empty entry at each of its indices.
  pub is_directory_empty_iff :
      layer < 4
      → ((i : ℕ) → i < x86_num_entries → all_mb0_bits_are_zero m (entry_at mem layer ptr i) ≡ true)
      → (is_directory_empty mem layer ptr ≡ true) ↔ EmptyAt m mem layer ptr
  is_directory_empty_iff lt mb0 =
      let all : is_directory_empty mem layer ptr ≡ empty_from mem layer ptr 512 0 =
        ap (λ n. empty_from mem layer ptr n 0) (num_entries_512 layer lt) in
      (
        λ h i l. ap is_empty_view (
            view_unmapped m (spec_read mem i ptr) layer
              (empty_from-unmapped 512 0 (sym all ∙ h) i (omega arith) (omega arith))),
        λ e.
            all
            ∙ unmapped-empty_from 512 0 (λ i le l.
              elim (Bool-cases (is_mapping (entry_at mem layer ptr i))) [
                | inl used ↦
                    let l' : i < x86_num_entries = omega arith in
                    absurd (
                      cc (
                        sym (mapped_not_empty m (spec_read mem i ptr) layer lt (mb0 i l') used)
                        ∙ e i l'))
                | inr free ↦ free
              ]),
      )
