-- ===== src/PageTable/HlSpec/Stores.antt =====
-- What changes a word of the memory of page-table/spec_t/hlspec.rs.
use mathlib.Core.Option.{some-injective}
use verified_nrkernel.Prelude.{
  insert-cases, ℕ, ◌+◌, ◌≡◌, sym, ◌∙◌, ap, true, ◌⊎◌, inl, inr, Bool-cases, if_true, if_false,
  Option, none, some,
}
use verified_nrkernel.PageTable.Arch.{PageTableEntry, Between}
use verified_nrkernel.PageTable.HlSpec.{
  AbstractConstants, AbstractArguments, AbstractVariables, AbstractStep, RwOp, StoreResult, Result,
  store, load, map, unmap, empty, read_write, map_start, map_end, unmap_start, unmap_end, stutter,
  word_index,
}
use verified_nrkernel.PageTable.HlSpec.Steps.{
  AccessAt, may_store, EndMap, StartUnmap, SoundStep, NextStep,
}

-- The access that gives the word `w` the value `y`: a store that is allowed.
abbrev pub StoresAt :
    AbstractConstants → AbstractVariables → ℕ → ℕ → ℕ → RwOp → Option (ℕ × PageTableEntry) → Type 0
StoresAt c s w y vaddr (store new_value result) (some (base, pte)) =
    (new_value ≡ y)
    × (result ≡ StoreResult.ok)
    × (word_index vaddr ≡ w)
    × (s.mappings base ≡ some pte)
    × Between vaddr base (base + pte.frame.size)
    × (may_store c vaddr base pte ≡ true)
StoresAt c s w y vaddr (store new_value result) none = ⊥
StoresAt c s w y vaddr (load is_exec result) pte = ⊥

abbrev pub Stores : AbstractConstants → AbstractVariables → ℕ → ℕ → AbstractStep → Type 0
Stores c s w y (read_write thread_id vaddr op pte) =
    (s.thread_state thread_id ≡ some empty) × StoresAt c s w y vaddr op pte
Stores c s w y (map_start thread_id vaddr pte) = ⊥
Stores c s w y (map_end thread_id result) = ⊥
Stores c s w y (unmap_start thread_id vaddr) = ⊥
Stores c s w y (unmap_end thread_id result) = ⊥
Stores c s w y stutter = ⊥

module _ (c : AbstractConstants) (s1 s2 : AbstractVariables) (w x y : ℕ)
    (before : s1.mem w ≡ some x) (after : s2.mem w ≡ some y) where
  unchanged : s2.mem ≡ s1.mem → y ≡ x
  unchanged e = some-injective _ _ (sym after ∙ ap (λ m. m w) e ∙ before)

  Access-word :
      (vaddr : ℕ) (op : RwOp) (pte : Option (ℕ × PageTableEntry))
      → AccessAt c s1 s2 vaddr op pte
      → (y ≡ x) ⊎ StoresAt c s1 w y vaddr op pte
  Access-word vaddr op none h = inl (unchanged h.1)
  Access-word vaddr (load e r) (some (base, pte)) h = inl (unchanged h.2.0)
  Access-word vaddr (store n r) (some (base, pte)) (m, b, h) =
      elim (Bool-cases (may_store c vaddr base pte)) [
        | inl e ↦
            let (ok, k) = if_true _ _ e h in
            elim (insert-cases s1.mem (word_index vaddr) n w y (ap (λ t. t w) (sym k) ∙ after)) [
              | inl g ↦ inr (g.1, ok, g.0, m, b, e)
              | inr g ↦ inl (some-injective _ _ (sym g.1 ∙ before))
            ]
        | inr e ↦ inl (unchanged (if_false _ _ e h).1)
      ]

  EndMap-word : (result : Result) (a : Option AbstractArguments) → EndMap c s1 s2 result a → y ≡ x
  EndMap-word result none h = elim h [ ]
  EndMap-word result (some (unmap vaddr pte)) h = elim h [ ]
  EndMap-word result (some empty) h = elim h [ ]
  EndMap-word result (some (map vaddr pte)) (inl (o, (r, m, k))) = unchanged k
  EndMap-word result (some (map vaddr pte)) (inr (o, (r, m, k, h))) = k w x y before after

  StartUnmap-word : (vaddr : ℕ) (a : Option PageTableEntry) → StartUnmap c s1 s2 vaddr a → y ≡ x
  StartUnmap-word vaddr none (m, k) = unchanged k
  StartUnmap-word vaddr (some pte) (m, h, k) = k w x y before after

  SoundStep-word :
      (step : AbstractStep)
      → SoundStep c s1 s2 step
      → s2.sound ≡ true
      → (y ≡ x) ⊎ Stores c s1 w y step
  SoundStep-word (read_write tid vaddr op pte) (_, al, m, _, idle, t, h) q =
      elim (Access-word vaddr op pte h) [ inl e ↦ inl e | inr k ↦ inr (idle, k) ]
  SoundStep-word (map_start tid vaddr pte) (en, lt, idle, inr (ns, u)) q = absurd (cc (sym q ∙ u))
  SoundStep-word (map_start tid vaddr pte) (en, lt, idle, inl (ns, (t, k, m, _))) q =
      inl (unchanged k)
  SoundStep-word (map_end tid result) (_, lt, t, h) q = inl (EndMap-word result _ h)
  SoundStep-word (unmap_start tid vaddr) (en, lt, idle, inr (ns, u)) q = absurd (cc (sym q ∙ u))
  SoundStep-word (unmap_start tid vaddr) (en, lt, idle, inl (ns, (t, h, _, _))) q =
      inl (StartUnmap-word vaddr _ h)
  SoundStep-word (unmap_end tid result) (lt, t, _, m, k, h) q = inl (unchanged k)
  SoundStep-word stutter e q = inl (unchanged (ap (λ s. s.mem) (sym e)))

-- A word that a transition between sound states keeps either keeps its value, or the transition is a
-- store of the new value by an idle thread, through a mapping of the word whose flags allow it.
pub word_changes :
    (c : AbstractConstants) (s1 s2 : AbstractVariables) (step : AbstractStep) (w x y : ℕ)
    → NextStep c s1 s2 step
    → s1.sound ≡ true
    → s2.sound ≡ true
    → s1.mem w ≡ some x
    → s2.mem w ≡ some y
    → (y ≡ x) ⊎ Stores c s1 w y step
word_changes c s1 s2 step w x y h e q before after =
    SoundStep-word c s1 s2 w x y before after step (if_true _ _ e h) q
