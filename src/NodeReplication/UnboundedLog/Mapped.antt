-- ===== src/NodeReplication/UnboundedLog/Mapped.antt =====
-- spec/unbounded_log_refines_simplelog.rs: what a change of a map of the unbounded log is to the map
-- that stands for it (the `assert_maps_equal!` of the source).
use verified_nrkernel.Prelude.{
  ℕ, ◌<◌, ◌≡◌, ◌≢◌, sym, ◌∙◌, ap, ap₂, fun_ext, Option, none, some, arith, insert, remove, ltb,
  lt→ltb, if◌then◌else◌, ℕ_discrete,
}
use verified_nrkernel.NodeReplication.Dispatch.{NodeId, LogIdx}
use verified_nrkernel.NodeReplication.UnboundedLog.{CombinerState, current_local_version}
use verified_nrkernel.NodeReplication.UnboundedLog.Invariant.{version_at}
use verified_nrkernel.NodeReplication.UnboundedLog.Interp.{interp_versions}
use verified_nrkernel.NodeReplication.UnboundedLog.Combiner.{insert-here, insert-there}

module _ {A : Type 0} (m : ℕ → Option A) (k : ℕ) where
  remove-here : remove m k k ≡ none
  remove-here = ground arith

  remove-there : (j : ℕ) → k ≢ j → remove m k j ≡ m j
  remove-there j ne = ground arith

-- Two maps that agree at a key and elsewhere.
agree :
    {B : Type 0} (k : ℕ) (g h : ℕ → Option B) → g k ≡ h k → ((j : ℕ) → k ≢ j → g j ≡ h j) → g ≡ h
agree k g h at elsewhere =
    fun_ext
      λ j. elim (ℕ_discrete k j) [ yes e ↦ ap g (sym e) ∙ at ∙ ap h e | no ne ↦ elsewhere j ne ]

abbrev pub mapped : {A B : Type 0} → (Option A → Option B) → (ℕ → Option A) → ℕ → Option B
mapped f m j = f (m j)

module _ {A B : Type 0} (f : Option A → Option B) (m : ℕ → Option A) (k : ℕ) where
  pub mapped-insert :
      (v : A) (w : B) → f (some v) ≡ some w → mapped f (insert m k v) ≡ insert (mapped f m) k w
  mapped-insert v w e =
      agree k _ _ (ap f (insert-here m k v) ∙ e ∙ sym (insert-here (mapped f m) k w))
        (λ j ne. ap f (insert-there m k v j ne) ∙ sym (insert-there (mapped f m) k w j ne))

  pub mapped-insert_removes :
      (v : A) → f (some v) ≡ none → mapped f (insert m k v) ≡ remove (mapped f m) k
  mapped-insert_removes v e =
      agree k _ _ (ap f (insert-here m k v) ∙ e ∙ sym (remove-here (mapped f m) k))
        (λ j ne. ap f (insert-there m k v j ne) ∙ sym (remove-there (mapped f m) k j ne))

  pub mapped-insert_same : (v : A) → f (some v) ≡ f (m k) → mapped f (insert m k v) ≡ mapped f m
  mapped-insert_same v e =
      agree k _ _ (ap f (insert-here m k v) ∙ e) (λ j ne. ap f (insert-there m k v j ne))

  pub mapped-remove : f none ≡ none → mapped f (remove m k) ≡ remove (mapped f m) k
  mapped-remove e =
      agree k _ _ (ap f (remove-here m k) ∙ e ∙ sym (remove-here (mapped f m) k))
        (λ j ne. ap f (remove-there m k j ne) ∙ sym (remove-there (mapped f m) k j ne))

  pub mapped-remove_same : f none ≡ f (m k) → mapped f (remove m k) ≡ mapped f m
  mapped-remove_same e =
      agree k _ _ (ap f (remove-here m k) ∙ e) (λ j ne. ap f (remove-there m k j ne))

module _ (num_replicas : ℕ) (combiner : NodeId → Option CombinerState)
    (local_versions : NodeId → Option LogIdx) (n : NodeId) (c c' : CombinerState) (local : LogIdx)
    (here : combiner n ≡ some c) (published : local_versions n ≡ some local) where
  -- A combiner that stays at its version.
  pub versions-same :
      current_local_version c' local ≡ current_local_version c local
      → interp_versions num_replicas (insert combiner n c') local_versions
        ≡ interp_versions num_replicas combiner local_versions
  versions-same e =
      agree n _ _
        (ap (λ x. if ltb n num_replicas then x else none)
          (ap₂ version_at (insert-here combiner n c') published
            ∙ ap some e
            ∙ sym (ap₂ version_at here published)))
        (λ j ne.
          ap (λ x. if ltb j num_replicas then version_at x (local_versions j) else none)
            (insert-there combiner n c' j ne))

  -- A combiner that publishes the version that it is at.
  pub versions-publish :
      (v : LogIdx)
      → current_local_version c' v ≡ current_local_version c local
      → interp_versions num_replicas (insert combiner n c') (insert local_versions n v)
        ≡ interp_versions num_replicas combiner local_versions
  versions-publish v e =
      agree n _ _
        (ap (λ x. if ltb n num_replicas then x else none)
          (ap₂ version_at (insert-here combiner n c') (insert-here local_versions n v)
            ∙ ap some e
            ∙ sym (ap₂ version_at here published)))
        (λ j ne.
          ap (λ x. if ltb j num_replicas then x else none)
            (ap₂ version_at (insert-there combiner n c' j ne)
              (insert-there local_versions n v j ne)))

  -- A combiner that goes on to another version.
  pub versions-insert :
      (v : LogIdx)
      → n < num_replicas
      → current_local_version c' local ≡ v
      → interp_versions num_replicas (insert combiner n c') local_versions
        ≡ insert (interp_versions num_replicas combiner local_versions) n v
  versions-insert v lt e =
      agree n _ _
        (ap₂ (λ b x. if b then x else none) (lt→ltb n num_replicas lt)
            (ap₂ version_at (insert-here combiner n c') published ∙ ap some e)
          ∙ sym (insert-here (interp_versions num_replicas combiner local_versions) n v))
        (λ j ne.
          ap (λ x. if ltb j num_replicas then version_at x (local_versions j) else none)
            (insert-there combiner n c' j ne)
          ∙ sym (insert-there (interp_versions num_replicas combiner local_versions) n v j ne))
