-- ===== src/PageTable/Entry/Bits.antt =====
-- page-table/impl_u/l2_impl.rs: the bits of an entry that the implementation builds.
use verified_nrkernel.Prelude.{
  ℕ, ◌≤◌, ◌<◌, ◌≡◌, ◌≢◌, refl, Bool, true, false, not, ◌&&◌, ◌||◌, arith, ◌==◌,
}
use verified_nrkernel.PageTable.Hardware.{Word}
use verified_nrkernel.PageTable.Entry.{new_entry}

or_false : (b : Bool) → b || false ≡ b
or_false true = refl
or_false false = refl

or_false_2 : (b : Bool) → (b || false) || false ≡ b
or_false_2 true = refl
or_false_2 false = refl

or_false_3 : (b : Bool) → ((b || false) || false) || false ≡ b
or_false_3 true = refl
or_false_3 false = refl

or_false_4 : (b : Bool) → (((b || false) || false) || false) || false ≡ b
or_false_4 true = refl
or_false_4 false = refl

or_false_5 : (b : Bool) → ((((b || false) || false) || false) || false) || false ≡ b
or_false_5 true = refl
or_false_5 false = refl

-- The flags of an entry, as its word has them.
module _ (layer : ℕ) (address : Word)
    (is_page is_writable is_supervisor is_writethrough disable_cache disable_execute : Bool) where
  abbrev pub word : Word
  word =
      (new_entry layer address is_page is_writable is_supervisor is_writethrough disable_cache
        disable_execute).entry

  module _ (low_clear : (i : ℕ) → i < 12 → address i ≡ false) (top_clear : address 63 ≡ false) where
    pub word-present : word 0 ≡ true
    word-present = let h = low_clear 0 (omega arith) in rw h refl

    pub word-writable : word 1 ≡ is_writable
    word-writable = let h = low_clear 1 (omega arith) in rw h (or_false_4 is_writable)

    pub word-user : word 2 ≡ not is_supervisor
    word-user = let h = low_clear 2 (omega arith) in rw h (or_false_3 (not is_supervisor))

    pub word-writethrough : word 3 ≡ is_writethrough
    word-writethrough = let h = low_clear 3 (omega arith) in rw h (or_false_2 is_writethrough)

    pub word-cache : word 4 ≡ disable_cache
    word-cache = let h = low_clear 4 (omega arith) in rw h (or_false disable_cache)

    pub word-accessed : word 5 ≡ false
    word-accessed = let h = low_clear 5 (omega arith) in rw h refl

    pub word-dirty : word 6 ≡ false
    word-dirty = let h = low_clear 6 (omega arith) in rw h refl

    pub word-size : word 7 ≡ is_page && not (layer == 3)
    word-size = let h = low_clear 7 (omega arith) in rw h (or_false_5 (is_page && not (layer == 3)))

    pub word-global : word 8 ≡ false
    word-global = let h = low_clear 8 (omega arith) in rw h refl

    pub word-execute : word 63 ≡ disable_execute
    word-execute = rw top_clear refl

    -- Elsewhere the word is the address.
    pub word-outside : (i : ℕ) → 12 ≤ i → i ≢ 63 → word i ≡ address i
    word-outside i le ne = ground arith
