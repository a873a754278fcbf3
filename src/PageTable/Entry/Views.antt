-- ===== src/PageTable/Entry/Views.antt =====
-- page-table/spec_t/hardware.rs: what the view of an entry is, by its layer and its size bit.
use verified_nrkernel.Prelude.{ℕ, ◌≡◌, refl, true, false}
use verified_nrkernel.PageTable.Hardware.{
  Word, bit, bitmask_inc, has, has_none, mask_l1_pg_addr, mask_l2_pg_addr, mask_l3_pg_addr,
  page_view, directory_view, view,
}

-- The view of a word that is present and has its reserved bits clear, by the layer.
module _ (m : ℕ) (v : Word) (present : has v (bit 0) ≡ true) where
  pub view_page_1 :
      has v (bit 7) ≡ true
      → has_none v (bitmask_inc m 51) ≡ true
      → has_none v (bitmask_inc 13 29) ≡ true
      → view m (record { entry = v; layer = 1 }) ≡ page_view m v (mask_l1_pg_addr m) (bit 12)
  view_page_1 ps r1 r2 = rw (present, ps, r1, r2) refl

  pub view_page_2 :
      has v (bit 7) ≡ true
      → has_none v (bitmask_inc m 62) ≡ true
      → has_none v (bitmask_inc 13 20) ≡ true
      → view m (record { entry = v; layer = 2 }) ≡ page_view m v (mask_l2_pg_addr m) (bit 12)
  view_page_2 ps r1 r2 = rw (present, ps, r1, r2) refl

  pub view_page_3 :
      has_none v (bitmask_inc m 62) ≡ true
      → view m (record { entry = v; layer = 3 }) ≡ page_view m v (mask_l3_pg_addr m) (bit 7)
  view_page_3 r1 = rw (present, r1) refl

  pub view_directory_0 :
      has_none v (bitmask_inc m 51) ≡ true
      → has_none v (bit 7) ≡ true
      → view m (record { entry = v; layer = 0 }) ≡ directory_view m v
  view_directory_0 r1 r2 = rw (present, r1, r2) refl

  pub view_directory_1 :
      has v (bit 7) ≡ false
      → has_none v (bitmask_inc m 51) ≡ true
      → has_none v (bit 7) ≡ true
      → view m (record { entry = v; layer = 1 }) ≡ directory_view m v
  view_directory_1 ps r1 r2 = rw (present, ps, r1, r2) refl

  pub view_directory_2 :
      has v (bit 7) ≡ false
      → has_none v (bitmask_inc m 62) ≡ true
      → has_none v (bit 7) ≡ true
      → view m (record { entry = v; layer = 2 }) ≡ directory_view m v
  view_directory_2 ps r1 r2 = rw (present, ps, r1, r2) refl
