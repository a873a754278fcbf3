-- ===== src/PageTable/Entry/Reading.antt =====
-- page-table/impl_u/l2_impl.rs: what the implementation reads from an entry whose must-be-zero bits
-- are zero is what the memory management unit sees in it.
use verified_nrkernel.Prelude.{
  ℕ, ◌-◌, ◌≤◌, ◌<◌, ◌≡◌, refl, sym, ◌∙◌, ap, fun_ext, Bool, true, false, ◌&&◌, arith, ◌==◌,
  if◌then◌else◌, dec_lt,
}
use verified_nrkernel.PageTable.Hardware.{
  Word, bit_and, bit, bitmask_inc, has, has_none, mask_addr, mask_l1_pg_addr, mask_l2_pg_addr,
  mask_l3_pg_addr, page_view, directory_view, empty, PageDirectoryEntry, all_mb0_bits_are_zero,
  view,
}
use verified_nrkernel.PageTable.Hardware.Words.{has_none-clear}
use verified_nrkernel.PageTable.Entry.{is_page_view, hp_pat_is_zero}

module _ (m : ℕ) (v : Word) where
  abbrev entry : ℕ → PageDirectoryEntry
  entry layer = record { entry = v; layer = layer }

  pub view_unmapped : (layer : ℕ) → has v (bit 0) ≡ false → view m (entry layer) ≡ empty
  view_unmapped layer h = rw h refl

  module _ (present : has v (bit 0) ≡ true) where
    pub view_0 : all_mb0_bits_are_zero m (entry 0) ≡ true → view m (entry 0) ≡ directory_view m v
    view_0 mb0 = rw (mb0, present) refl

    pub view_1_page :
        all_mb0_bits_are_zero m (entry 1) ≡ true
        → has v (bit 7) ≡ true
        → view m (entry 1) ≡ page_view m v (mask_l1_pg_addr m) (bit 12)
    view_1_page mb0 ps = rw (mb0, present, ps) refl

    pub view_1_directory :
        all_mb0_bits_are_zero m (entry 1) ≡ true
        → has v (bit 7) ≡ false
        → view m (entry 1) ≡ directory_view m v
    view_1_directory mb0 ps = rw (mb0, present, ps) refl

    pub view_2_page :
        all_mb0_bits_are_zero m (entry 2) ≡ true
        → has v (bit 7) ≡ true
        → view m (entry 2) ≡ page_view m v (mask_l2_pg_addr m) (bit 12)
    view_2_page mb0 ps = rw (mb0, present, ps) refl

    pub view_2_directory :
        all_mb0_bits_are_zero m (entry 2) ≡ true
        → has v (bit 7) ≡ false
        → view m (entry 2) ≡ directory_view m v
    view_2_directory mb0 ps = rw (mb0, present, ps) refl

    pub view_3 :
        all_mb0_bits_are_zero m (entry 3) ≡ true
        → view m (entry 3) ≡ page_view m v (mask_l3_pg_addr m) (bit 7)
    view_3 mb0 = rw (mb0, present) refl

    and_second : (a b : Bool) → a && b ≡ true → b ≡ true
    and_second true b h = h
    and_second false b h = absurd (cc h)

    -- The padding of a big page.
    padding_1 :
        all_mb0_bits_are_zero m (entry 1) ≡ true
        → has v (bit 7) ≡ true
        → has_none v (bitmask_inc 13 29) ≡ true
    padding_1 mb0 ps =
        and_second (has_none v (bitmask_inc m 51)) (has_none v (bitmask_inc 13 29)) (open_up ∙ mb0)
      where
        open_up :
            has_none v (bitmask_inc m 51) && has_none v (bitmask_inc 13 29)
            ≡ all_mb0_bits_are_zero m (entry 1)
        open_up = rw (present, ps) refl

    padding_2 :
        all_mb0_bits_are_zero m (entry 2) ≡ true
        → has v (bit 7) ≡ true
        → has_none v (bitmask_inc 13 20) ≡ true
    padding_2 mb0 ps =
        and_second (has_none v (bitmask_inc m 62)) (has_none v (bitmask_inc 13 20)) (open_up ∙ mb0)
      where
        open_up :
            has_none v (bitmask_inc m 62) && has_none v (bitmask_inc 13 20)
            ≡ all_mb0_bits_are_zero m (entry 2)
        open_up = rw (present, ps) refl

    -- The mask of all layers gives the address of a big page too, when the bits between are clear.
    same_address :
        (lo : ℕ)
        → 12 < lo
        → lo < 63
        → has_none v (bit 12) ≡ true
        → has_none v (bitmask_inc 13 (lo - 1)) ≡ true
        → bit_and v (bitmask_inc lo (m - 1)) ≡ bit_and v (mask_addr m)
    same_address lo lt small pat pad = fun_ext λ i. elim (dec_lt i lo) [
      | yes below ↦ elim (dec_lt i 12) [
        | yes low ↦ ap (λ b. v i && b) (both_out i below low)
        | no mid ↦
            ap (λ b. b && bitmask_inc lo (m - 1) i) (clear i below (omega arith))
            ∙ sym (ap (λ b. b && mask_addr m i) (clear i below (omega arith)))
      ]
      | no above ↦ ap (λ b. v i && b) (both_in i (omega arith))
    ]
      where
        both_out : (i : ℕ) → i < lo → i < 12 → bitmask_inc lo (m - 1) i ≡ mask_addr m i
        both_out i a b = ground arith

        both_in : (i : ℕ) → lo ≤ i → bitmask_inc lo (m - 1) i ≡ mask_addr m i
        both_in i a = ground arith

        in_13 : (i : ℕ) → i < lo → 13 ≤ i → bitmask_inc 13 (lo - 1) i ≡ true
        in_13 i a b = ground arith

        is_12 : (i : ℕ) → i ≡ 12 → (i == 12) ≡ true
        is_12 i e = ground arith

        clear : (i : ℕ) → i < lo → 12 ≤ i → v i ≡ false
        clear i a b = elim (dec_lt 12 i) [
          | yes c ↦
              has_none-clear v (bitmask_inc 13 (lo - 1)) pad i (omega arith)
                (in_13 i a (omega arith))
          | no d ↦ has_none-clear v (bit 12) pat i (omega arith) (is_12 i (omega arith))
        ]

    pub address_1 :
        all_mb0_bits_are_zero m (entry 1) ≡ true
        → hp_pat_is_zero m (entry 1) ≡ true
        → has v (bit 7) ≡ true
        → bit_and v (mask_l1_pg_addr m) ≡ bit_and v (mask_addr m)
    address_1 mb0 hp ps =
        same_address 30 (omega arith) (omega arith)
          (sym (ap (λ x. if is_page_view x then has_none v (bit 12) else true) (view_1_page mb0 ps))
            ∙ hp)
          (padding_1 mb0 ps)

    pub address_2 :
        all_mb0_bits_are_zero m (entry 2) ≡ true
        → hp_pat_is_zero m (entry 2) ≡ true
        → has v (bit 7) ≡ true
        → bit_and v (mask_l2_pg_addr m) ≡ bit_and v (mask_addr m)
    address_2 mb0 hp ps =
        same_address 21 (omega arith) (omega arith)
          (sym (ap (λ x. if is_page_view x then has_none v (bit 12) else true) (view_2_page mb0 ps))
            ∙ hp)
          (padding_2 mb0 ps)
