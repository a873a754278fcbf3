-- ===== src/PageTable/Hardware/Words.antt =====
-- page-table/spec_t/hardware.rs: how words compare, bit by bit.
use verified_nrkernel.Prelude.{
  ℕ, zero, suc, ◌≤◌, ◌<◌, ◌≡◌, ◌≢◌, inl, inr, refl, sym, ◌∙◌, ap, ap₂, Bool, true, false, ◌&&◌,
  arith, ◌==◌, Bool-cases, ℕ_discrete,
}
use verified_nrkernel.PageTable.Hardware.{
  Word, bit_and, bit, bitmask_inc, zero_word, same_bit, same_below, word_eq, has, has_none,
}

-- A word of 64 bits.
abbrev pub IsWord : Word → Type 0
IsWord w = (i : ℕ) → 64 ≤ i → w i ≡ false

same_bit-eq : (a b : Bool) → same_bit a b ≡ true → a ≡ b
same_bit-eq true b h = sym h
same_bit-eq false true h = absurd (cc h)
same_bit-eq false false h = refl

same_bit_refl : (a : Bool) → same_bit a a ≡ true
same_bit_refl true = refl
same_bit_refl false = refl

and_left : (a b : Bool) → a && b ≡ true → a ≡ true
and_left true b h = refl
and_left false b h = absurd (cc h)

and_right : (a b : Bool) → a && b ≡ true → b ≡ true
and_right true b h = h
and_right false b h = absurd (cc h)

pub and_false : (a : Bool) → a && false ≡ false
and_false true = refl
and_false false = refl

pub and_true : (a : Bool) → a && true ≡ a
and_true true = refl
and_true false = refl

pub same_below-bits : (n : ℕ) (a b : Word) → same_below n a b ≡ true → (i : ℕ) → i < n → a i ≡ b i
same_below-bits zero a b h i lt = absurd (omega arith)
same_below-bits (suc n) a b h i lt = elim (ℕ_discrete i n) [
  | yes e ↦
      ap a e
      ∙ same_bit-eq (a n) (b n) (and_left (same_bit (a n) (b n)) (same_below n a b) h)
      ∙ ap b (sym e)
  | no ne ↦
      same_below-bits n a b (and_right (same_bit (a n) (b n)) (same_below n a b) h) i (omega arith)
]

pub bits-same_below : (n : ℕ) (a b : Word) → ((i : ℕ) → i < n → a i ≡ b i) → same_below n a b ≡ true
bits-same_below zero a b h = refl
bits-same_below (suc n) a b h =
    ap₂ (λ x y. x && y) (ap (same_bit (a n)) (sym (h n (omega arith))) ∙ same_bit_refl (a n))
      (bits-same_below n a b (λ i lt. h i (omega arith)))

eq_refl : (k : ℕ) → (k == k) ≡ true
eq_refl k = ground arith

ne_false : (i k : ℕ) → i ≢ k → (i == k) ≡ false
ne_false i k ne = ground arith

-- A word has a single bit when it is set.
pub has-bit : (v : Word) (k : ℕ) → k < 64 → has v (bit k) ≡ v k
unfolding has word_eq
has-bit v k lt = elim (Bool-cases (v k)) [
  | inl set ↦
      bits-same_below 64 (bit_and v (bit k)) (bit k) (λ i l. elim (ℕ_discrete i k) [
        | yes e ↦ ap (λ b. b && (i == k)) (ap v e ∙ set)
        | no ne ↦ ap (λ b. v i && b) (ne_false i k ne) ∙ and_false (v i) ∙ sym (ne_false i k ne)
      ])
      ∙ sym set
  | inr clear ↦ elim (Bool-cases (has v (bit k))) [
    | inl yes_has ↦
        let here = same_below-bits 64 (bit_and v (bit k)) (bit k) yes_has k lt in
        absurd (cc (sym (ap (λ b. b && (k == k)) clear) ∙ here ∙ eq_refl k))
    | inr no_has ↦ no_has ∙ sym clear
  ]
]

-- A word has none of a mask's bits when each is clear in it.
pub clear-has_none :
    (v mask : Word) → ((i : ℕ) → i < 64 → mask i ≡ true → v i ≡ false) → has_none v mask ≡ true
unfolding has_none word_eq
clear-has_none v mask h = bits-same_below 64 (bit_and v mask) zero_word (λ i lt.
    elim (Bool-cases (mask i)) [
      | inl m ↦ ap (λ b. b && mask i) (h i lt m)
      | inr m ↦ ap (λ b. v i && b) m ∙ and_false (v i)
    ])

pub has_none-clear :
    (v mask : Word) → has_none v mask ≡ true → (i : ℕ) → i < 64 → mask i ≡ true → v i ≡ false
unfolding has_none word_eq
has_none-clear v mask h i lt m =
    sym (and_true (v i))
    ∙ ap (λ b. v i && b) (sym m)
    ∙ same_below-bits 64 (bit_and v mask) zero_word h i lt

pub in_mask : (low high i : ℕ) → bitmask_inc low high i ≡ true → (low ≤ i) × (i ≤ high)
in_mask low high i h = (ground arith, ground arith)

-- A word that a mask leaves as it is has no bit outside of it.
pub masked-outside :
    (v : Word) (low high i : ℕ)
    → word_eq (bit_and v (bitmask_inc low high)) v ≡ true
    → i < 64
    → ¬ ((low ≤ i) × (i ≤ high))
    → v i ≡ false
unfolding word_eq
masked-outside v low high i h lt out = elim (Bool-cases (bitmask_inc low high i)) [
  | inl m ↦ absurd (out (in_mask low high i m))
  | inr m ↦
      sym (same_below-bits 64 (bit_and v (bitmask_inc low high)) v h i lt)
      ∙ ap (λ b. v i && b) m
      ∙ and_false (v i)
]
