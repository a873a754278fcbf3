-- ===== src/PageTable/HlSpec/Finite.antt =====
-- The domains of the maps of page-table/spec_t/hlspec.rs stay finite (spec_t/hlproof.rs).
use verified_nrkernel.Prelude.{
  ℕ, zero, suc, ◌+◌, ◌≤◌, ◌<◌, ◌≡◌, sym, ◌∙◌, ap, inl, inr, Option, none, some, arith, insert,
  remove, max, dec_lt, Option-cases, is_some,
}
use verified_nrkernel.PageTable.Arch.{PageTableEntry}
use verified_nrkernel.PageTable.HlSpec.{IsFinite, HasDomain, size_of}

module _ {V : Type 0} where
  pub insert-IsFinite : (m : ℕ → Option V) (k : ℕ) (v : V) → IsFinite m → IsFinite (insert m k v)
  insert-IsFinite m k v (n, h) = (n + k + 1, λ j le. outside j le (h j (omega arith)))
    where
      outside : (j : ℕ) → n + k + 1 ≤ j → m j ≡ none → insert m k v j ≡ none
      outside j le e = ground arith

  pub remove-IsFinite : (m : ℕ → Option V) (k : ℕ) → IsFinite m → IsFinite (remove m k)
  remove-IsFinite m k (n, h) = (n, λ j le. outside j (h j le))
    where
      outside : (j : ℕ) → m j ≡ none → remove m k j ≡ none
      outside j e = ground arith

-- An address above all mappings whose base is below `n`.
top : (ℕ → Option PageTableEntry) → ℕ → ℕ
top m zero = 0
top m (suc n) = max (top m n) (n + size_of (m n))

top_lem :
    (m : ℕ → Option PageTableEntry) (n k : ℕ) (p : PageTableEntry)
    → k < n
    → m k ≡ some p
    → k + p.frame.size ≤ top m n
unfolding top
top_lem m zero k p lt e = absurd (omega arith)
top_lem m (suc n) k p lt e = elim (dec_lt k n) [
  | yes h ↦ let ih = top_lem m n k p h e in omega arith
  | no h ↦
      let q : k ≡ n = omega arith in
      let z : size_of (m n) ≡ p.frame.size = ap (λ j. size_of (m j)) (sym q) ∙ ap size_of e in
      omega arith
]

-- The words under finitely many mappings are finitely many.
pub HasDomain-IsFinite :
    (n : ℕ) (mappings : ℕ → Option PageTableEntry) (mem : ℕ → Option ℕ)
    → HasDomain n mappings mem
    → IsFinite mappings
    → IsFinite mem
HasDomain-IsFinite n mappings mem d (m, h) = (
  top mappings m,
  λ w le. elim (Option-cases (mem w)) [
    | inl e ↦ e
    | inr p ↦
        let (v, e) = p in
        let (base, pte, k, (b, _)) = (d w).0 (ap is_some e) in
        elim (dec_lt base m) [
          | yes lt ↦ let t = top_lem mappings m base pte lt k in absurd (omega arith)
          | no ge ↦ absurd (cc (sym k ∙ h base (omega arith)))
        ]
  ],
)
