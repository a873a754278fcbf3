-- ===== src/NodeReplication/RwLock/Guards.antt =====
-- The readers that spec/rwlock.rs counts: those that are pending and the guards that are held.

use verified_nrkernel.Prelude.{
  ℕ, ◌+◌, ◌<◌, ◌≤◌, ◌≡◌, refl, Option, none, some, List, [], ◌∷◌, ◌++◌, arith, ◌==◌, if◌then◌else◌,
}

-- How often the counter `r` stands in a list of pending readers.
unfoldable pub count : ℕ → List ℕ → ℕ
count r [] = 0
count r (x ∷ xs) = (if x == r then 1 else 0) + count r xs

pub count-split :
    (r x : ℕ) (before after : List ℕ)
    → count r (before ++ (x ∷ after)) ≡ (if x == r then 1 else 0) + count r (before ++ after)
unfolding count
count-split r x [] after = refl
count-split r x (y ∷ before) after = ground (arith, count-split r x before after)

module _ {T : Type 0} where
  -- How many guards are held at the counter `r`: the length of the source's `filter_r`.
  unfoldable pub count_guards : ℕ → List (ℕ × T) → ℕ
  count_guards r [] = 0
  count_guards r ((x, t) ∷ xs) = (if x == r then 1 else 0) + count_guards r xs

  pub count_guards-split :
      (r x : ℕ) (t : T) (before after : List (ℕ × T))
      → count_guards r (before ++ ((x, t) ∷ after))
        ≡ (if x == r then 1 else 0) + count_guards r (before ++ after)
  unfolding count_guards
  count_guards-split r x t [] after = refl
  count_guards-split r x t ((y, u) ∷ before) after =
      ground (arith, count_guards-split r x t before after)

  -- Every guard that is held satisfies `P`.
  abbrev pub AllGuards : (ℕ → T → Type 0) → List (ℕ × T) → Type 0
  AllGuards P [] = Unit
  AllGuards P ((r, t) ∷ xs) = P r t × AllGuards P xs

  pub AllGuards-map :
      {P Q : ℕ → T → Type 0} (xs : List (ℕ × T))
      → ((r : ℕ) (t : T) → 0 < count_guards r xs → P r t → Q r t)
      → AllGuards P xs
      → AllGuards Q xs
  unfolding count_guards
  AllGuards-map [] f h = tt
  AllGuards-map ((r, t) ∷ xs) f h =
      (f r t (ground arith) h.0, AllGuards-map xs (λ q u lt. f q u (omega arith)) h.1)

  pub AllGuards-remove :
      (P : ℕ → T → Type 0) (before : List (ℕ × T)) (r : ℕ) (t : T) (after : List (ℕ × T))
      → AllGuards P (before ++ ((r, t) ∷ after))
      → P r t × AllGuards P (before ++ after)
  AllGuards-remove P [] r t after h = h
  AllGuards-remove P ((q, u) ∷ before) r t after h =
      let (p, rest) = AllGuards-remove P before r t after h.1 in (p, (h.0, rest))

-- What a writer that checks the counters knows: those below its own are free of guards.
abbrev pub ExcPending : {T : Type 0} → ℕ → Option (Unit {0}) → List (ℕ × T) → Option ℕ → Type 0
ExcPending width guard guards none = Unit
ExcPending width guard guards (some cur) =
    (cur ≤ width) × (guard ≡ none) × AllGuards (λ r t. cur ≤ r) guards

module _ {T : Type 0} where
  pub AllGuards-zip :
      (P Q : ℕ → T → Type 0) (xs : List (ℕ × T))
      → AllGuards P xs
      → AllGuards Q xs
      → AllGuards (λ r t. P r t × Q r t) xs
  AllGuards-zip P Q [] h k = tt
  AllGuards-zip P Q ((r, t) ∷ xs) h k = ((h.0, k.0), AllGuards-zip P Q xs h.1 k.1)

  pub ExcPending-remove :
      (width : ℕ) (guard : Option (Unit {0})) (before : List (ℕ × T)) (r : ℕ) (t : T)
      (after : List (ℕ × T)) (pending : Option ℕ)
      → ExcPending width guard (before ++ ((r, t) ∷ after)) pending
      → ExcPending width guard (before ++ after) pending
  ExcPending-remove width guard before r t after none h = tt
  ExcPending-remove width guard before r t after (some cur) h =
      (h.0, h.1, (AllGuards-remove (λ q u. cur ≤ q) before r t after h.2).1)
