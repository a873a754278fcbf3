-- ===== src/Prelude/Maps.antt =====
-- Finite maps with number keys, as functions into options.
use Prim.Native.Nat.{ℕ, ◌<◌}
use mathlib.Core.Path.{◌≡◌, sym, ◌∙◌}
use mathlib.Core.Logic.{◌≢◌, ◌⊎◌, inl, inr}
use mathlib.Core.Option.{Option, none, some, some-injective}
use native.Mathlib.Omega.{arith}
use native.Mathlib.Decide.{ℕ_discrete}
use verified_nrkernel.Prelude.Tests.{◌==◌, ltb, is_some, if◌then◌else◌}

module _ {ℓ} {V : Type ℓ} where
  abbrev pub empty_map : ℕ → Option V
  empty_map k = none

  abbrev pub insert : (ℕ → Option V) → ℕ → V → (ℕ → Option V)
  insert m k v j = if k == j then some v else m j

  abbrev pub remove : (ℕ → Option V) → ℕ → (ℕ → Option V)
  remove m k j = if k == j then none else m j

  -- The map that sends each key below `n` to `v`.
  unfoldable pub new_map : ℕ → V → (ℕ → Option V)
  new_map n v i = if ltb i n then some v else none

  pub is_some-new_map : (n : ℕ) (v : V) (i : ℕ) → is_some (new_map n v i) ≡ ltb i n
  unfolding new_map
  is_some-new_map n v i = ground arith

  pub new_map-eq : (n : ℕ) (v : V) (i : ℕ) {w : V} → new_map n v i ≡ some w → w ≡ v
  unfolding new_map
  new_map-eq n v i h = ground arith

  pub new_map_lt : (n : ℕ) (v : V) (i : ℕ) → i < n → new_map n v i ≡ some v
  unfolding new_map
  new_map_lt n v i h = ground arith

  pub new_map-lt : (n : ℕ) (v : V) (i : ℕ) {w : V} → new_map n v i ≡ some w → i < n
  unfolding new_map
  new_map-lt n v i h = ground arith

module _ {ℓ} {V : Type ℓ} where
  -- What a key of a changed map holds: the new value at the changed key, the old one elsewhere.
  pub insert-cases :
      (m : ℕ → Option V) (k : ℕ) (v : V) (j : ℕ) (w : V)
      → insert m k v j ≡ some w
      → ((k ≡ j) × (v ≡ w)) ⊎ ((k ≢ j) × (m j ≡ some w))
  insert-cases m k v j w h = elim (ℕ_discrete k j) [
    | yes e ↦ inl (e, some-injective _ _ (sym (inserted e) ∙ h))
    | no ne ↦ inr (ne, sym (kept ne) ∙ h)
  ]
    where
      inserted : k ≡ j → insert m k v j ≡ some v
      inserted e = ground arith

      kept : k ≢ j → insert m k v j ≡ m j
      kept ne = ground arith

  pub remove-some :
      (m : ℕ → Option V) (k j : ℕ) (w : V) → remove m k j ≡ some w → (k ≢ j) × (m j ≡ some w)
  remove-some m k j w h = elim (ℕ_discrete k j) [
    | yes e ↦ absurd (cc (sym (removed e) ∙ h))
    | no ne ↦ (ne, sym (kept ne) ∙ h)
  ]
    where
      removed : k ≡ j → remove m k j ≡ none
      removed e = ground arith

      kept : k ≢ j → remove m k j ≡ m j
      kept ne = ground arith
