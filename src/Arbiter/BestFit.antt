-- ===== src/Arbiter/BestFit.antt =====
-- What a pop gives, and what it leaves.
use not_ahivemind.Base.{
  ◌≡◌, ◌≢◌, refl, sym, ap, ◌∙◌, ◌⊎◌, inl, inr, Bool, true, false, ◌&&◌, none, some, [], arith,
  Option-cases, All, Text, text_eq_iff, Map, remove, has, lookup-remove,
}
use not_ahivemind.Base.Int.{ℤ}
use not_ahivemind.Arbiter.Queue.{
  Accessors, Queue, sort_and_compact, take_first, compacted, fits, pop_best_fit_heuristic,
}
use not_ahivemind.Arbiter.Packing.{IsQueue, compacted-Sorted}
use not_ahivemind.Arbiter.First.{IsTaken, take_first-some, take_first-none}

module _ {ℓ} {T : Type ℓ} (f : Accessors T) (avail_cpu avail_mem : ℤ) (heuristic : T → Bool) where
  -- What the search of PopBestFitHeuristic looks for.
  abbrev pub suits : T → Bool
  suits item = fits f avail_cpu avail_mem item && heuristic item

  pub compacted-items : (q : Queue T) → (compacted f q).items ≡ q.items
  unfolding compacted sort_and_compact
  compacted-items q = ground arith

  pub pop_some :
      (q q' : Queue T) (item : T)
      → pop_best_fit_heuristic f avail_cpu avail_mem heuristic q ≡ (some item, q')
      → (take_first f suits (compacted f q).order ≡ some (item, q'.order))
        × (q'.items ≡ remove (f.id_fn item) q.items)
        × (q'.dirty ≡ (compacted f q).dirty)
  unfolding pop_best_fit_heuristic
  pop_some q q' item e = elim (Option-cases (take_first f suits (compacted f q).order)) [
    | inl o ↦ absurd (ground (arith, o, e))
    | inr (r, o) ↦ ground (arith, o, e, compacted-items q)
  ]

  pub pop_none :
      (q q' : Queue T)
      → pop_best_fit_heuristic f avail_cpu avail_mem heuristic q ≡ (none, q')
      → ((q.items ≡ []) × (q' ≡ q))
        ⊎ ((take_first f suits (compacted f q).order ≡ none) × (q' ≡ compacted f q))
  unfolding pop_best_fit_heuristic
  pop_none q q' e = elim (Option-cases (take_first f suits (compacted f q).order)) [
    | inl o ↦ ground (arith, o, e)
    | inr (r, o) ↦ ground (arith, o, e)
  ]

has_removed {ℓ} :
    {V : Type ℓ} (k id : Text) (m : Map V)
    → has k (remove id m) ≡ true
    → (id ≢ k) × (has k m ≡ true)
has_removed k id m h = (
  (λ e. ground (arith, lookup-remove id k m, text_eq_iff id k)),
  ground (arith, lookup-remove id k m),
)

module _ {ℓ} {T : Type ℓ} (f : Accessors T) (avail_cpu avail_mem : ℤ) (heuristic : T → Bool) where
  popped-IsQueue :
      (q q' : Queue T) (item : T)
      → IsQueue f (compacted f q)
      → IsTaken f (suits f avail_cpu avail_mem heuristic) (compacted f q).order item q'.order
      → q'.items ≡ remove (f.id_fn item) q.items
      → IsQueue f q'
  popped-IsQueue q q' item v t e = record {
    keyed = λ k w h. ground (
      arith,
      e,
      lookup-remove (f.id_fn item) k q.items,
      compacted-items f avail_cpu avail_mem heuristic q,
      v.keyed k w,
    );
    covered = λ k h.
        let (other, held) = has_removed k (f.id_fn item) q.items (ap (has k) (sym e) ∙ h) in
        t.others k other
          (v.covered k (ap (has k) (compacted-items f avail_cpu avail_mem heuristic q) ∙ held));
    sorted = λ d. t.sorted;
  }

  -- A pop of a well-formed queue that gives an item gives one of the queue's order, that fits and
  -- passes the heuristic; every other such item has a lower priority, or the same and no more memory. The
  -- order keeps all the others, the item's ID leaves the table, and the queue is well-formed.
  pub pop_best_fit_heuristic-some :
      (q q' : Queue T) (item : T)
      → IsQueue f q
      → pop_best_fit_heuristic f avail_cpu avail_mem heuristic q ≡ (some item, q')
      → IsTaken f (suits f avail_cpu avail_mem heuristic) (compacted f q).order item q'.order
        × (q'.items ≡ remove (f.id_fn item) q.items)
        × IsQueue f q'
  pop_best_fit_heuristic-some q q' item v e =
      let (found, items, dirty) = pop_some f avail_cpu avail_mem heuristic q q' item e in
      let (valid, sorted) = compacted-Sorted f q v in
      let taken =
        take_first-some f (suits f avail_cpu avail_mem heuristic) (compacted f q).order item
          q'.order sorted found in
      (taken, items, popped-IsQueue q q' item valid taken items)

  -- A pop of a well-formed queue that gives nothing leaves the table as it was and the queue
  -- well-formed, and it does so only if the table is empty, or no item of the order both fits and
  -- passes the heuristic.
  pub pop_best_fit_heuristic-none :
      (q q' : Queue T)
      → IsQueue f q
      → pop_best_fit_heuristic f avail_cpu avail_mem heuristic q ≡ (none, q')
      → IsQueue f q'
        × (q'.items ≡ q.items)
        × ((q.items ≡ []) ⊎ All (λ y. suits f avail_cpu avail_mem heuristic y ≡ false) q'.order)
  pop_best_fit_heuristic-none q q' v e = elim (pop_none f avail_cpu avail_mem heuristic q q' e) [
    | inl (empty, same) ↦ rw same (v, refl, inl empty)
    | inr (missed, same) ↦ rw same (
      (compacted-Sorted f q v).0,
      compacted-items f avail_cpu avail_mem heuristic q,
      inr (take_first-none f (suits f avail_cpu avail_mem heuristic) (compacted f q).order missed),
    )
  ]
