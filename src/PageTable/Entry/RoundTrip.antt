-- ===== src/PageTable/Entry/RoundTrip.antt =====
-- page-table/impl_u/l2_impl.rs: what the implementation writes into an entry is what the memory
-- management unit reads from it, and what the implementation reads back.
use verified_nrkernel.Prelude.{
  ℕ, zero, suc, ◌-◌, ◌≤◌, ◌<◌, ◌≡◌, refl, ◌∙◌, ap, Bool, true, false, not, ◌&&◌, arith, ◌==◌,
}
use verified_nrkernel.PageTable.Arch.{Flags}
use verified_nrkernel.PageTable.Hardware.{
  Word, bit_and, bit, bitmask_inc, word_eq, has, has_none, page_view, directory_view, page,
  directory, view,
}
use verified_nrkernel.PageTable.Hardware.Words.{has-bit, clear-has_none, masked-outside, in_mask}
use verified_nrkernel.PageTable.Entry.{
  addr_is_zero_padded, address, new_page_entry, new_dir_entry, flags, is_mapping,
}
use verified_nrkernel.PageTable.Entry.Bits.{
  word, word-present, word-writable, word-user, word-writethrough, word-cache, word-accessed,
  word-dirty, word-size, word-global, word-execute, word-outside,
}
use verified_nrkernel.PageTable.Entry.Address.{
  IsEntryAddress, low, high, address_back, reserved_clear,
}
use verified_nrkernel.PageTable.Entry.Views.{
  view_page_1, view_page_2, view_page_3, view_directory_0, view_directory_1, view_directory_2,
}

abbrev the_flags : Bool → Bool → Bool → Flags
the_flags a b c = record { is_writable = a; is_supervisor = b; disable_execute = c }

page-eq :
    {a a' : Word} {p p' rw rw' us us' pwt pwt' pcd pcd' ac ac' d d' g g' pat pat' xd xd' : Bool}
    → a ≡ a'
    → p ≡ p'
    → rw ≡ rw'
    → us ≡ us'
    → pwt ≡ pwt'
    → pcd ≡ pcd'
    → ac ≡ ac'
    → d ≡ d'
    → g ≡ g'
    → pat ≡ pat'
    → xd ≡ xd'
    → page a p rw us pwt pcd ac d g pat xd ≡ page a' p' rw' us' pwt' pcd' ac' d' g' pat' xd'
page-eq h1 h2 h3 h4 h5 h6 h7 h8 h9 h10 h11 = cc

directory-eq :
    {a a' : Word} {p p' rw rw' us us' pwt pwt' pcd pcd' ac ac' xd xd' : Bool}
    → a ≡ a'
    → p ≡ p'
    → rw ≡ rw'
    → us ≡ us'
    → pwt ≡ pwt'
    → pcd ≡ pcd'
    → ac ≡ ac'
    → xd ≡ xd'
    → directory a p rw us pwt pcd ac xd ≡ directory a' p' rw' us' pwt' pcd' ac' xd'
directory-eq h1 h2 h3 h4 h5 h6 h7 h8 = cc

module _ (m : ℕ) (addr : Word) (ok : IsEntryAddress m addr) where
  top : addr 63 ≡ false
  top = high m addr ok 63 (omega (arith, ok.narrow))

  module _ (layer : ℕ) (is_page w s xd : Bool) where
    abbrev v : Word
    v = word layer addr is_page w s false false xd

    flag : (k : ℕ) (b : Bool) → k < 64 → v k ≡ b → has v (bit k) ≡ b
    flag k b lt h = has-bit v k lt ∙ h

    none-bit : (k : ℕ) → k < 64 → v k ≡ false → has_none v (bit k) ≡ true
    none-bit k lt h = clear-has_none v (bit k) (λ i l e. ap v (is_k i e) ∙ h)
      where
        is_k : (i : ℕ) → (i == k) ≡ true → i ≡ k
        is_k i e = ground arith

    size : v 7 ≡ is_page && not (layer == 3)
    size = word-size layer addr is_page w s false false xd (low m addr ok) top

    -- The page that the word means, by the masks of its layer.
    page_of :
        (lo pat : ℕ)
        → 12 ≤ lo
        → word_eq (bit_and addr (bitmask_inc lo (m - 1))) addr ≡ true
        → pat < 64
        → v pat ≡ false
        → page_view m v (bitmask_inc lo (m - 1)) (bit pat)
          ≡ page addr true w (not s) false false false false false false xd
    page_of lo pat le masked lt no_pat =
        page-eq (address_back m addr ok layer is_page w s false false xd lo le masked)
          (flag 0 true (omega arith)
            (word-present layer addr is_page w s false false xd (low m addr ok) top))
          (flag 1 w (omega arith)
            (word-writable layer addr is_page w s false false xd (low m addr ok) top))
          (flag 2 (not s) (omega arith)
            (word-user layer addr is_page w s false false xd (low m addr ok) top))
          (flag 3 false (omega arith)
            (word-writethrough layer addr is_page w s false false xd (low m addr ok) top))
          (flag 4 false (omega arith)
            (word-cache layer addr is_page w s false false xd (low m addr ok) top))
          (flag 5 false (omega arith)
            (word-accessed layer addr is_page w s false false xd (low m addr ok) top))
          (flag 6 false (omega arith)
            (word-dirty layer addr is_page w s false false xd (low m addr ok) top))
          (flag 8 false (omega arith)
            (word-global layer addr is_page w s false false xd (low m addr ok) top))
          (flag pat false lt no_pat)
          (flag 63 xd (omega arith)
            (word-execute layer addr is_page w s false false xd (low m addr ok) top))

    directory_of : directory_view m v ≡ directory addr true w (not s) false false false xd
    directory_of =
        directory-eq
          (address_back m addr ok layer is_page w s false false xd 12 (omega arith) ok.masked)
          (flag 0 true (omega arith)
            (word-present layer addr is_page w s false false xd (low m addr ok) top))
          (flag 1 w (omega arith)
            (word-writable layer addr is_page w s false false xd (low m addr ok) top))
          (flag 2 (not s) (omega arith)
            (word-user layer addr is_page w s false false xd (low m addr ok) top))
          (flag 3 false (omega arith)
            (word-writethrough layer addr is_page w s false false xd (low m addr ok) top))
          (flag 4 false (omega arith)
            (word-cache layer addr is_page w s false false xd (low m addr ok) top))
          (flag 5 false (omega arith)
            (word-accessed layer addr is_page w s false false xd (low m addr ok) top))
          (flag 63 xd (omega arith)
            (word-execute layer addr is_page w s false false xd (low m addr ok) top))

    present : has v (bit 0) ≡ true
    present =
        flag 0 true (omega arith)
          (word-present layer addr is_page w s false false xd (low m addr ok) top)

    -- The must-be-zero bits of a big page, below its address.
    padding_clear :
        (lo hi : ℕ)
        → hi < lo
        → lo < 63
        → word_eq (bit_and addr (bitmask_inc lo (m - 1))) addr ≡ true
        → has_none v (bitmask_inc 13 hi) ≡ true
    padding_clear lo hi lt small masked = clear-has_none v (bitmask_inc 13 hi) (λ i l inside.
        let (a, b) = in_mask 13 hi i inside in
        word-outside layer addr is_page w s false false xd (low m addr ok) top i (omega arith)
          (λ e. absurd (omega arith))
        ∙ masked-outside addr lo (m - 1) i masked (omega arith) (λ (c, d). absurd (omega arith)))

    big_pat :
        (lo : ℕ)
        → 12 < lo
        → word_eq (bit_and addr (bitmask_inc lo (m - 1))) addr ≡ true
        → v 12 ≡ false
    big_pat lo lt masked =
        word-outside layer addr is_page w s false false xd (low m addr ok) top 12 (omega arith)
          (λ e. absurd (omega arith))
        ∙ masked-outside addr lo (m - 1) 12 masked (omega arith) (λ (c, d). absurd (omega arith))

  -- An entry that the implementation makes of a frame's base and flags, at a layer that may hold
  -- pages and with a base that is aligned for it, is read by the hardware as the present page with
  -- this base and these flags, and with no other flag.
  pub view-new_page_entry :
      (layer : ℕ) (fl : Flags)
      → 0 < layer
      → layer ≤ 3
      → addr_is_zero_padded m layer addr true ≡ true
      → view m (new_page_entry layer addr fl)
        ≡ page addr true fl.is_writable
            (not fl.is_supervisor)
            false
            false
            false
            false
            false
            false
            fl.disable_execute
  view-new_page_entry zero fl pos le padded = absurd (omega arith)
  view-new_page_entry (suc zero) fl pos le padded =
      let w = fl.is_writable in
      let s = fl.is_supervisor in
      let xd = fl.disable_execute in
      view_page_1 m (v 1 true w s xd) (present 1 true w s xd)
        (flag 1 true w s xd 7 true (omega arith) (size 1 true w s xd))
        (reserved_clear m addr ok 1 true w s false false xd 51 (omega arith))
        (padding_clear 1 true w s xd 30 29 (omega arith) (omega arith) padded)
      ∙ page_of 1 true w s xd 30 12 (omega arith) padded (omega arith)
          (big_pat 1 true w s xd 30 (omega arith) padded)
  view-new_page_entry (suc (suc zero)) fl pos le padded =
      let w = fl.is_writable in
      let s = fl.is_supervisor in
      let xd = fl.disable_execute in
      view_page_2 m (v 2 true w s xd) (present 2 true w s xd)
        (flag 2 true w s xd 7 true (omega arith) (size 2 true w s xd))
        (reserved_clear m addr ok 2 true w s false false xd 62 (omega arith))
        (padding_clear 2 true w s xd 21 20 (omega arith) (omega arith) padded)
      ∙ page_of 2 true w s xd 21 12 (omega arith) padded (omega arith)
          (big_pat 2 true w s xd 21 (omega arith) padded)
  view-new_page_entry (suc (suc (suc zero))) fl pos le padded =
      let w = fl.is_writable in
      let s = fl.is_supervisor in
      let xd = fl.disable_execute in
      view_page_3 m (v 3 true w s xd) (present 3 true w s xd)
        (reserved_clear m addr ok 3 true w s false false xd 62 (omega arith))
      ∙ page_of 3 true w s xd 12 7 (omega arith) padded (omega arith) (size 3 true w s xd)
  view-new_page_entry (suc (suc (suc (suc n)))) fl pos le padded = absurd (omega arith)

  -- An entry that the implementation makes of the address of a directory, at a layer that may hold
  -- directories, is read by the hardware as the present directory at this address with the most
  -- permissive flags.
  pub new_dir_entry-view :
      (layer : ℕ)
      → layer < 3
      → view m (new_dir_entry layer addr) ≡ directory addr true true true false false false false
  new_dir_entry-view zero lt =
      view_directory_0 m (v 0 false true false false) (present 0 false true false false)
        (reserved_clear m addr ok 0 false true false false false false 51 (omega arith))
        (none-bit 0 false true false false 7 (omega arith) (size 0 false true false false))
      ∙ directory_of 0 false true false false
  new_dir_entry-view (suc zero) lt =
      view_directory_1 m (v 1 false true false false) (present 1 false true false false)
        (flag 1 false true false false 7 false (omega arith) (size 1 false true false false))
        (reserved_clear m addr ok 1 false true false false false false 51 (omega arith))
        (none-bit 1 false true false false 7 (omega arith) (size 1 false true false false))
      ∙ directory_of 1 false true false false
  new_dir_entry-view (suc (suc zero)) lt =
      view_directory_2 m (v 2 false true false false) (present 2 false true false false)
        (flag 2 false true false false 7 false (omega arith) (size 2 false true false false))
        (reserved_clear m addr ok 2 false true false false false false 62 (omega arith))
        (none-bit 2 false true false false 7 (omega arith) (size 2 false true false false))
      ∙ directory_of 2 false true false false
  new_dir_entry-view (suc (suc (suc n))) lt = absurd (omega arith)

  -- The implementation reads back from a page entry that it made that it maps, the base of the frame
  -- and its flags.
  pub page_entry_read_back :
      (layer : ℕ) (fl : Flags)
      → (is_mapping (new_page_entry layer addr fl) ≡ true)
        × (address m (new_page_entry layer addr fl) ≡ addr)
        × (flags (new_page_entry layer addr fl) ≡ fl)
  page_entry_read_back layer fl =
      let w = fl.is_writable in
      let s = fl.is_supervisor in
      let xd = fl.disable_execute in
      (
        present layer true w s xd,
        address_back m addr ok layer true w s false false xd 12 (omega arith) ok.masked,
        flags-eq
            (flag layer true w s xd 1 w (omega arith)
              (word-writable layer addr true w s false false xd (low m addr ok) top))
            (ap not (
                flag layer true w s xd 2 (not s) (omega arith)
                  (word-user layer addr true w s false false xd (low m addr ok) top))
              ∙ twice s)
            (flag layer true w s xd 63 xd (omega arith)
              (word-execute layer addr true w s false false xd (low m addr ok) top)),
      )
    where
      twice : (b : Bool) → not (not b) ≡ b
      twice true = refl
      twice false = refl

      flags-eq :
          {a b c a' b' c' : Bool} → a ≡ a' → b ≡ b' → c ≡ c' → the_flags a b c ≡ the_flags a' b' c'
      flags-eq h1 h2 h3 = cc
