-- ===== src/Arbiter/Packing.antt =====
-- The queue's invariant, and what a pop gives.
use not_ahivemind.Base.{
  ◌≡◌, refl, inl, inr, Bool, true, false, ◌||◌, some, List, [], ◌∷◌, ◌++◌, arith, Bool-cases, Text,
  text_eq, text_eq_iff, lookup, has, lookup-insert, lookup-remove,
}
use not_ahivemind.Arbiter.Queue.{
  Accessors, Queue, filter, remove_by_id, push, place_item, slice_stable, sort_and_compact,
  compacted,
}
use not_ahivemind.Arbiter.Sorting.{Sorted, slice_stable-Sorted}

module _ {ℓ} {T : Type ℓ} (f : Accessors T) where
  -- Whether the order has an item of the ID.
  unfoldable pub orders : Text → List T → Bool
  orders id [] = false
  orders id (x ∷ xs) = text_eq (f.id_fn x) id || orders id xs

  -- Every item stands under its own ID, every ID of the table is in the order, and an order that is
  -- not marked dirty is sorted.
  pub record IsQueue (q : Queue T) : Type ℓ where
    pub keyed : (k : Text) (v : T) → lookup k q.items ≡ some v → f.id_fn v ≡ k
    pub covered : (k : Text) → has k q.items ≡ true → orders k q.order ≡ true
    pub sorted : q.dirty ≡ false → Sorted f q.order

  pub orders-append :
      (k : Text) (xs ys : List T) → orders k (xs ++ ys) ≡ (orders k xs || orders k ys)
  unfolding orders
  orders-append k [] ys = refl
  orders-append k (x ∷ xs) ys = ground (arith, orders-append k xs ys)

  orders-filter :
      (k : Text) (p : Text → Bool) (xs : List T)
      → p k ≡ true
      → orders k (filter (λ x. p (f.id_fn x)) xs) ≡ orders k xs
  unfolding orders filter
  orders-filter k p [] h = refl
  orders-filter k p (x ∷ xs) h = ground (arith, orders-filter k p xs h, text_eq_iff (f.id_fn x) k)

  pub orders-place_item :
      (k : Text) (x : T) (xs : List T)
      → orders k (place_item f x xs) ≡ (text_eq (f.id_fn x) k || orders k xs)
  unfolding orders place_item
  orders-place_item k x [] = refl
  orders-place_item k x (y ∷ ys) = ground (arith, orders-place_item k x ys)

  pub orders-slice_stable : (k : Text) (xs : List T) → orders k (slice_stable f xs) ≡ orders k xs
  unfolding orders slice_stable
  orders-slice_stable k [] = refl
  orders-slice_stable k (x ∷ xs) =
      ground (arith, orders-place_item k x (slice_stable f xs), orders-slice_stable k xs)

  pub push-IsQueue : (item : T) (q : Queue T) → IsQueue q → IsQueue (push f item q)
  unfolding push orders
  push-IsQueue item q v = record {
    keyed = λ k w h. ground (
      arith,
      lookup-insert (f.id_fn item) k item q.items,
      text_eq_iff (f.id_fn item) k,
      v.keyed k w,
    );
    covered = λ k h. ground (
      arith,
      lookup-insert (f.id_fn item) k item q.items,
      text_eq_iff (f.id_fn item) k,
      v.covered k,
      orders-append k q.order (item ∷ []),
    );
    sorted = λ h. ground (arith, v.sorted);
  }

  pub remove_by_id-IsQueue : (id : Text) (q : Queue T) → IsQueue q → IsQueue (remove_by_id id q)
  unfolding remove_by_id
  remove_by_id-IsQueue id q v = record {
    keyed = λ k w h. ground (arith, lookup-remove id k q.items, v.keyed k w);
    covered = λ k h. ground (arith, lookup-remove id k q.items, v.covered k);
    sorted = λ h. ground (arith, v.sorted);
  }

  sort_and_compact-IsQueue : (q : Queue T) → IsQueue q → IsQueue (sort_and_compact f q)
  unfolding sort_and_compact
  sort_and_compact-IsQueue q v = record {
    keyed = v.keyed;
    covered = λ k h.
        rw (orders-slice_stable k _, orders-filter k (λ i. has i q.items) q.order h)
          (v.covered k h);
    sorted = λ h. slice_stable-Sorted f _;
  }

  pub compacted_dirty : (q : Queue T) → q.dirty ≡ true → compacted f q ≡ sort_and_compact f q
  unfolding compacted
  compacted_dirty q d = ground arith

  pub compacted_clean : (q : Queue T) → q.dirty ≡ false → compacted f q ≡ q
  unfolding compacted
  compacted_clean q d = ground arith

  -- What every pop starts from: a queue that is well-formed and whose order is sorted.
  pub compacted-Sorted :
      (q : Queue T) → IsQueue q → IsQueue (compacted f q) × Sorted f (compacted f q).order
  compacted-Sorted q v = elim (Bool-cases q.dirty) [
    | inl d ↦ rw (compacted_dirty q d) (
      sort_and_compact-IsQueue q v,
      (sort_and_compact-IsQueue q v).sorted (unfold sort_and_compact in refl),
    )
    | inr d ↦ rw (compacted_clean q d) (v, v.sorted d)
  ]
