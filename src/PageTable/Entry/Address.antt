-- ===== src/PageTable/Entry/Address.antt =====
-- page-table/impl_u/l2_impl.rs: the address in an entry, and its reserved bits.
use verified_nrkernel.Prelude.{
  ℕ, ◌-◌, ◌≤◌, ◌<◌, ◌≡◌, inl, inr, sym, ◌∙◌, ap, ap₂, fun_ext, Bool, true, false, ◌&&◌, arith,
  Bool-cases, dec_lt,
}
use verified_nrkernel.PageTable.Hardware.{Word, bit_and, bitmask_inc, word_eq, has_none, mask_addr}
use verified_nrkernel.PageTable.Hardware.Words.{
  IsWord, clear-has_none, masked-outside, in_mask, and_false, and_true,
}
use verified_nrkernel.PageTable.Entry.Bits.{word, word-outside}

-- An address that an entry can hold: a word with bits from 12 up to the physical address width.
pub record IsEntryAddress (max_phyaddr_width : ℕ) (addr : Word) : Type 0 where
  pub wide : 32 ≤ max_phyaddr_width
  pub narrow : max_phyaddr_width ≤ 52
  pub is_word : IsWord addr
  pub masked : word_eq (bit_and addr (mask_addr max_phyaddr_width)) addr ≡ true

module _ (m : ℕ) (addr : Word) (ok : IsEntryAddress m addr) where
  pub outside : (i : ℕ) → ¬ ((12 ≤ i) × (i ≤ m - 1)) → addr i ≡ false
  outside i out = elim (dec_lt i 64) [
    | yes lt ↦ masked-outside addr 12 (m - 1) i ok.masked lt out
    | no ge ↦ ok.is_word i (omega arith)
  ]

  pub low : (i : ℕ) → i < 12 → addr i ≡ false
  low i lt = outside i (λ (a, b). absurd (omega arith))

  pub high : (i : ℕ) → m ≤ i → addr i ≡ false
  high i le = outside i (λ (a, b). absurd (omega (arith, ok.wide)))

  module _ (layer : ℕ) (is_page w s wt dc xd : Bool) where
    -- The address that is in an entry is the one it was made of, by any mask that leaves the
    -- address as it is and has no other bits.
    pub address_back :
        (lo : ℕ)
        → 12 ≤ lo
        → word_eq (bit_and addr (bitmask_inc lo (m - 1))) addr ≡ true
        → bit_and (word layer addr is_page w s wt dc xd) (bitmask_inc lo (m - 1)) ≡ addr
    address_back lo le masked = fun_ext λ i. elim (Bool-cases (bitmask_inc lo (m - 1) i)) [
      | inl inside ↦
          let (a, b) = in_mask lo (m - 1) i inside in
          ap₂ (λ x y. x && y)
            (word-outside layer addr is_page w s wt dc xd low (high 63 (omega (arith, ok.narrow))) i
              (omega arith) (λ e. absurd (omega (arith, ok.narrow, ok.wide))))
            inside
          ∙ and_true (addr i)
      | inr out ↦
          ap (λ b. word layer addr is_page w s wt dc xd i && b) out
          ∙ and_false (word layer addr is_page w s wt dc xd i)
          ∙ sym (elim (dec_lt i 64) [
            | yes lt ↦
                masked-outside addr lo (m - 1) i masked lt
                  (λ (a, b). absurd (cc (sym out ∙ in_range lo (m - 1) i a b)))
            | no ge ↦ ok.is_word i (omega arith)
          ])
    ]
      where
        in_range : (lo hi i : ℕ) → lo ≤ i → i ≤ hi → bitmask_inc lo hi i ≡ true
        in_range lo hi i a b = ground arith

    -- No bit from the physical address width up to 62 is set.
    pub reserved_clear :
        (top : ℕ)
        → top ≤ 62
        → has_none (word layer addr is_page w s wt dc xd) (bitmask_inc m top) ≡ true
    reserved_clear top le =
        clear-has_none (word layer addr is_page w s wt dc xd) (bitmask_inc m top) (λ i lt inside.
          let (a, b) = in_mask m top i inside in
          word-outside layer addr is_page w s wt dc xd low (high 63 (omega (arith, ok.narrow))) i
            (omega (arith, ok.wide)) (λ e. absurd (omega arith))
          ∙ high i a)
