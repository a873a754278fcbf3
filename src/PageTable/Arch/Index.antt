-- ===== src/PageTable/Arch/Index.antt =====
-- The index arithmetic of page-table/impl_u/indexing.rs and definitions_u.rs.
use native.Mathlib.Nat.{div-add-mod, mod-lt, mul-mod_right, mul_comm, mod_self, add-zero}
use verified_nrkernel.Prelude.{
  ℕ, zero, suc, ◌+◌, ◌-◌, ◌*◌, ◌/◌, ◌%◌, ◌≤◌, ◌<◌, ◌≡◌, subst, ap, arith, length, dec_lt,
}
use verified_nrkernel.PageTable.Arch.{
  Arch, IsArch, entry_size, num_entries, Aligned, index_from_base_and_addr,
}

-- An aligned address is a multiple.
pub Aligned-mul : (a s : ℕ) → Aligned a s → a ≡ s * (a / s)
Aligned-mul a s h = omega (arith, div-add-mod a s)

pub mul-Aligned : (s q : ℕ) → Aligned (s * q) s
mul-Aligned s q = mul-mod_right s q

-- Multiples of a positive size that are ordered are a whole size apart.
pub mul_gap : (s p q : ℕ) → s * p < s * q → s * p + s ≤ s * q
mul_gap s p q h = elim (dec_lt p q) [ yes lt ↦ grind arith | no ge ↦ absurd (grind arith) ]

-- For a positive entry size and an address not below the base, the address lies in the entry that its
-- index names.
pub index_bounds :
    (base addr size : ℕ)
    → 0 < size
    → base ≤ addr
    → (base + index_from_base_and_addr base addr size * size ≤ addr)
      × (addr < base + (index_from_base_and_addr base addr size + 1) * size)
index_bounds base addr size h le =
    let q : ℕ = (addr - base) / size in
    let e : size * q + (addr - base) % size ≡ addr - base = div-add-mod (addr - base) size in
    let l : (addr - base) % size < size = mod-lt (addr - base) h in (omega arith, omega arith)

-- For a positive entry size, an address that lies in entry `i` has the index `i`.
pub index_unique :
    (base addr size i : ℕ)
    → 0 < size
    → base + i * size ≤ addr
    → addr < base + (i + 1) * size
    → index_from_base_and_addr base addr size ≡ i
index_unique base addr size i h lo hi =
    let (a, b) = index_bounds base addr size h (omega arith) in
    let q : ℕ = index_from_base_and_addr base addr size in
    elim (dec_lt q i) [
      | yes lt ↦ absurd (grind arith)
      | no ge ↦ elim (dec_lt i q) [ yes gt ↦ absurd (grind arith) | no le ↦ omega arith ]
    ]

pub index_lt :
    (base addr size n : ℕ)
    → 0 < size
    → base ≤ addr
    → addr < base + n * size
    → index_from_base_and_addr base addr size < n
index_lt base addr size n h lo hi =
    let (a, b) = index_bounds base addr size h lo in
    let q : ℕ = index_from_base_and_addr base addr size in
    elim (dec_lt q n) [ yes lt ↦ lt | no ge ↦ absurd (grind arith) ]

-- If the base and the entry size are multiples of the block size, an aligned block that begins below
-- the end of entry `i` does not reach past it.
pub block_fits :
    (base addr size es i : ℕ)
    → Aligned base size
    → Aligned addr size
    → Aligned es size
    → addr < base + (i + 1) * es
    → addr + size ≤ base + (i + 1) * es
block_fits base addr size es i hb ha he lt =
    let top : base + (i + 1) * es ≡ size * (base / size + (i + 1) * (es / size)) =
      omega (arith, Aligned-mul base size hb, ap (λ t. (i + 1) * t) (Aligned-mul es size he)) in
    let q : addr ≡ size * (addr / size) = Aligned-mul addr size ha in
    omega (arith, mul_gap size (addr / size) (base / size + (i + 1) * (es / size)) (omega arith))

-- An address that is aligned to the entry size is the base of its entry.
pub Aligned-entry_base :
    (base addr size : ℕ)
    → 0 < size
    → base ≤ addr
    → Aligned base size
    → Aligned addr size
    → base + index_from_base_and_addr base addr size * size ≡ addr
Aligned-entry_base base addr size h le hb ha =
    let (a, b) = index_bounds base addr size h le in
    let k : base ≡ size * (base / size) = Aligned-mul base size hb in
    let q : addr ≡ size * (addr / size) = Aligned-mul addr size ha in
    let i : ℕ = index_from_base_and_addr base addr size in
    elim (dec_lt (base + i * size) addr) [
      | yes lt ↦ absurd (omega (arith, mul_gap size (base / size + i) (addr / size) (omega arith)))
      | no ge ↦ omega arith
    ]

-- A multiple of an aligned number is aligned.
pub Aligned-mul_left : (m x s : ℕ) → Aligned x s → Aligned (m * x) s
Aligned-mul_left m x s h =
    let e : m * x ≡ s * (m * (x / s)) = omega (arith, ap (λ t. m * t) (Aligned-mul x s h)) in
    rw e (mul-Aligned s (m * (x / s)))

module _ {a : Arch} (v : IsArch a) where
  -- In an architecture that meets its invariant, the entry size of a layer is a multiple of that of
  -- each layer below it.
  pub entry_sizes-Aligned :
      (k i : ℕ) → i + k < length a.layers → Aligned (entry_size a i) (entry_size a (i + k))
  entry_sizes-Aligned zero i h = rw add-zero (mod_self (entry_size a i))
  entry_sizes-Aligned (suc k) i h =
      let next = v.next_layer_size i (omega arith) in
      let e : i + 1 + k ≡ i + suc k = omega arith in
      let ih = entry_sizes-Aligned k (i + 1) (omega arith) in
      rw (next, mul_comm)
        (Aligned-mul_left (num_entries a (i + 1)) _ _
          (subst (λ j. Aligned (entry_size a (i + 1)) (entry_size a j)) e ih))

  pub entry_size_pos : (i : ℕ) → i < length a.layers → 0 < entry_size a i
  entry_size_pos i h = (v.layer_bounds i h).0
