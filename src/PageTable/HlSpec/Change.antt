-- ===== src/PageTable/HlSpec/Change.antt =====
-- How the invariant of page-table/spec_t/hlspec.rs fares when a thread's call or a mapping changes.
use verified_nrkernel.Prelude.{
  insert-cases, remove-some, ℕ, ◌<◌, ◌≡◌, ◌≢◌, refl, sym, Bool, true, false, inl, inr, Option, none,
  some, insert, remove, ◌∙◌, subst,
}
use verified_nrkernel.PageTable.Arch.{overlap, PageTableEntry}
use verified_nrkernel.PageTable.HlSpec.{AbstractArguments, map, unmap, empty, OverlapsPmem}
use verified_nrkernel.PageTable.HlSpec.Invariant.{Core, overlap_comm}

-- What a call that a thread begins must leave free.
abbrev pub Free :
    (ℕ → Option AbstractArguments) → (ℕ → Option PageTableEntry) → ℕ → AbstractArguments → Type 0
Free threads mappings tid (map vaddr pte) =
    (0 < pte.frame.size)
    × ((b : ℕ) (p : PageTableEntry) → mappings b ≡ some p → overlap pte.frame p.frame ≡ false)
    × ((id : ℕ) (b : AbstractArguments) → id ≢ tid → threads id ≡ some b → ¬ OverlapsPmem b pte)
Free threads mappings tid (unmap vaddr none) = Unit
Free threads mappings tid (unmap vaddr (some pte)) = mappings vaddr ≡ some pte
Free threads mappings tid empty = Unit

module _ {threads : ℕ → Option AbstractArguments} {mappings : ℕ → Option PageTableEntry} where
  -- Nothing that another thread maps overlaps a call that leaves free what it must.
  Free-others :
      Core threads mappings
      → (tid : ℕ) (a : AbstractArguments) → Free threads mappings tid a
      → (id vaddr : ℕ) (pte : PageTableEntry) → id ≢ tid
      → threads id ≡ some (map vaddr pte)
      → ¬ OverlapsPmem a pte
  Free-others v tid (map va p) f id vaddr pte ne h o =
      f.2 id (map vaddr pte) ne h (overlap_comm p.frame pte.frame ∙ o)
  Free-others v tid (unmap va none) f id vaddr pte ne h o = o
  Free-others v tid (unmap va (some p)) f id vaddr pte ne h o =
      cc (sym o ∙ v.existing id vaddr pte h va p f)
  Free-others v tid empty f id vaddr pte ne h o = o

  pub set_thread :
      Core threads mappings
      → (tid : ℕ) (a : AbstractArguments) → Free threads mappings tid a
      → Core (insert threads tid a) mappings
  set_thread v tid a f = record {
    no_overlap = v.no_overlap;
    existing = λ id vaddr pte h. elim (insert-cases threads tid a id _ h) [
      | inl e ↦ (subst (Free threads mappings tid) e.1 f).1
      | inr k ↦ v.existing id vaddr pte k.1
    ];
    inflight = λ id1 id2 vaddr pte b ne h k. elim (insert-cases threads tid a id1 _ h) [
      | inl e ↦ elim (insert-cases threads tid a id2 _ k) [
        | inl e2 ↦ absurd (ne (sym e.0 ∙ e2.0))
        | inr k2 ↦ (subst (Free threads mappings tid) e.1 f).2 id2 b (λ q. k2.0 (sym q)) k2.1
      ]
      | inr h1 ↦ elim (insert-cases threads tid a id2 _ k) [
        | inl e2 ↦ λ o.
            Free-others v tid a f id1 vaddr pte (λ q. h1.0 (sym q)) h1.1
              (subst (λ x. OverlapsPmem x pte) (sym e2.1) o)
        | inr k2 ↦ v.inflight id1 id2 vaddr pte b ne h1.1 k2.1
      ]
    ];
    frame_sizes = v.frame_sizes;
    inflight_sizes = λ id vaddr pte h. elim (insert-cases threads tid a id _ h) [
      | inl e ↦ (subst (Free threads mappings tid) e.1 f).0
      | inr k ↦ v.inflight_sizes id vaddr pte k.1
    ];
  }

  pub remove_mapping : Core threads mappings → (k : ℕ) → Core threads (remove mappings k)
  remove_mapping v k = record {
    no_overlap = λ b1 b2 p1 p2 h1 h2.
        v.no_overlap b1 b2 p1 p2 (remove-some mappings k b1 p1 h1).1
          (remove-some mappings k b2 p2 h2).1;
    existing =
        λ id vaddr pte h b p e. v.existing id vaddr pte h b p (remove-some mappings k b p e).1;
    inflight = v.inflight;
    frame_sizes = λ b p e. v.frame_sizes b p (remove-some mappings k b p e).1;
    inflight_sizes = v.inflight_sizes;
  }

  -- A thread that ends its mapping puts it among the mappings.
  pub insert_mapping :
      Core threads mappings
      → (tid vaddr : ℕ) (pte : PageTableEntry) → threads tid ≡ some (map vaddr pte)
      → Core (insert threads tid empty) (insert mappings vaddr pte)
  insert_mapping v tid vaddr pte h = record {
    no_overlap = λ b1 b2 p1 p2 h1 h2 o. elim (insert-cases mappings vaddr pte b1 p1 h1) [
      | inl e1 ↦ elim (insert-cases mappings vaddr pte b2 p2 h2) [
        | inl e2 ↦ sym e1.0 ∙ e2.0
        | inr k2 ↦ absurd (cc (clash b2 p2 k2.1 ∙ refl, e1.1, o))
      ]
      | inr k1 ↦ elim (insert-cases mappings vaddr pte b2 p2 h2) [
        | inl e2 ↦ absurd (cc (clash b1 p1 k1.1, e2.1, overlap_comm p1.frame p2.frame, o))
        | inr k2 ↦ v.no_overlap b1 b2 p1 p2 k1.1 k2.1 o
      ]
    ];
    existing = λ id va p g b q e. elim (insert-cases threads tid empty id _ g) [
      | inl e1 ↦ absurd (cc (e1.1))
      | inr k1 ↦ elim (insert-cases mappings vaddr pte b q e) [
        | inl e2 ↦ subst (λ x. overlap p.frame x.frame ≡ false) e2.1 (free id va p k1.0 k1.1)
        | inr k2 ↦ v.existing id va p k1.1 b q k2.1
      ]
    ];
    inflight = cleared.inflight;
    frame_sizes = λ b p e. elim (insert-cases mappings vaddr pte b p e) [
      | inl e1 ↦ subst (λ x. 0 < x.frame.size) e1.1 (v.inflight_sizes tid vaddr pte h)
      | inr k ↦ v.frame_sizes b p k.1
    ];
    inflight_sizes = cleared.inflight_sizes;
  }
    where
      cleared : Core (insert threads tid empty) mappings
      cleared = set_thread v tid empty tt

      clash : (b : ℕ) (p : PageTableEntry) → mappings b ≡ some p → overlap pte.frame p.frame ≡ false
      clash b p k = v.existing tid vaddr pte h b p k

      false_of : (b : Bool) → ¬ (b ≡ true) → b ≡ false
      false_of true n = absurd (n refl)
      false_of false n = refl

      free :
          (id va : ℕ) (p : PageTableEntry)
          → tid ≢ id
          → threads id ≡ some (map va p)
          → overlap p.frame pte.frame ≡ false
      free id va p ne g = false_of _ (v.inflight id tid va p (map vaddr pte) (λ q. ne (sym q)) g h)
