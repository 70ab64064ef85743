-- ===== src/Arbiter/Sorting.antt =====
-- The sort of sortAndCompact.
use mathlib.Core.List.{Perm}
use mathlib.Core.List.Perm
use not_ahivemind.Base.Int.{◌<ℤ◌, ◌≤ℤ◌, eq_ℤ, eq_ℤ_iff}
use not_ahivemind.Base.{
  ◌⊎◌, ◌≡◌, refl, Bool, true, false, ◌&&◌, List, [], ◌∷◌, arith, Bool-cases, inl, inr, All,
}
use not_ahivemind.Arbiter.Queue.{Accessors, filter, less, place_item, slice_stable}

module _ {ℓ} {T : Type ℓ} (f : Accessors T) where
  -- No item of the list belongs before the one in front of it, or before any earlier one.
  unfoldable pub Sorted : List T → Type 0
  Sorted [] = Unit
  Sorted (x ∷ xs) = All (λ y. less f y x ≡ false) xs × Sorted xs

  -- The first item has the higher priority, or the same and no less memory.
  abbrev pub IsAtLeast : T → T → Type 0
  IsAtLeast x y =
      (f.prio_fn y <ℤ f.prio_fn x) ⊎ ((f.prio_fn y ≡ f.prio_fn x) × (f.mem_fn y ≤ℤ f.mem_fn x))

  pub less-IsAtLeast : (x y : T) → less f y x ≡ false → IsAtLeast x y
  unfolding less
  less-IsAtLeast x y h = ground (arith, eq_ℤ_iff (f.prio_fn y) (f.prio_fn x))

  -- Every item is at least each later one.
  unfoldable pub Descending : List T → Type 0
  Descending [] = Unit
  Descending (x ∷ xs) = All (IsAtLeast x) xs × Descending xs

  All-IsAtLeast : (x : T) (xs : List T) → All (λ y. less f y x ≡ false) xs → All (IsAtLeast x) xs
  All-IsAtLeast x [] h = tt
  All-IsAtLeast x (y ∷ ys) (p, h) = (less-IsAtLeast x y p, All-IsAtLeast x ys h)

  Sorted-Descending : (xs : List T) → Sorted xs → Descending xs
  unfolding Sorted Descending
  Sorted-Descending [] h = tt
  Sorted-Descending (x ∷ xs) (p, h) = (All-IsAtLeast x xs p, Sorted-Descending xs h)

  less_trans : (x y z : T) → less f y x ≡ false → less f z y ≡ false → less f z x ≡ false
  unfolding less
  less_trans x y z p q = ground arith

  pub less-asym : (x y : T) → less f y x ≡ true → less f x y ≡ false
  unfolding less
  less-asym x y p = ground arith

  All-trans :
      (x y : T) (xs : List T)
      → less f y x ≡ false
      → All (λ z. less f z y ≡ false) xs
      → All (λ z. less f z x ≡ false) xs
  All-trans x y [] p h = tt
  All-trans x y (z ∷ zs) p (q, h) = (less_trans x y z p q, All-trans x y zs p h)

module _ {ℓ} {T : Type ℓ} (f : Accessors T) (x y : T) (ys : List T) where
  place_item_behind : less f y x ≡ true → place_item f x (y ∷ ys) ≡ y ∷ place_item f x ys
  unfolding place_item
  place_item_behind c = ground arith

  place_item_here : less f y x ≡ false → place_item f x (y ∷ ys) ≡ x ∷ y ∷ ys
  unfolding place_item
  place_item_here c = ground arith

module _ {ℓ} {T : Type ℓ} (f : Accessors T) where
  pub place_item-All :
      (P : T → Type 0) (x : T) (xs : List T) → P x → All P xs → All P (place_item f x xs)
  unfolding place_item
  place_item-All P x [] p h = (p, h)
  place_item-All P x (y ∷ ys) p (q, h) = elim (Bool-cases (less f y x)) [
    | inl c ↦ rw (place_item_behind f x y ys c) (q, place_item-All P x ys p h)
    | inr c ↦ rw (place_item_here f x y ys c) (p, (q, h))
  ]

  place_item-Sorted : (x : T) (xs : List T) → Sorted f xs → Sorted f (place_item f x xs)
  unfolding place_item Sorted
  place_item-Sorted x [] h = (tt, tt)
  place_item-Sorted x (y ∷ ys) (q, h) = elim (Bool-cases (less f y x)) [
    | inl c ↦ rw (place_item_behind f x y ys c) (
      place_item-All (λ z. less f z y ≡ false) x ys (less-asym f x y c) q,
      place_item-Sorted x ys h,
    )
    | inr c ↦ rw (place_item_here f x y ys c) ((c, All-trans f x y ys c q), (q, h))
  ]

  place_item-Perm : (x : T) (xs : List T) → Perm (place_item f x xs) (x ∷ xs)
  unfolding place_item
  place_item-Perm x [] = Perm.refl (x ∷ [])
  place_item-Perm x (y ∷ ys) = elim (Bool-cases (less f y x)) [
    | inl c ↦
        rw (place_item_behind f x y ys c)
          (Perm.trans (Perm.cons y (place_item-Perm x ys)) (Perm.swap x y ys))
    | inr c ↦ rw (place_item_here f x y ys c) (Perm.refl (x ∷ y ∷ ys))
  ]

  -- The items have the same priority and the same memory.
  abbrev pub is_equal : T → T → Bool
  is_equal x y = eq_ℤ (f.prio_fn x) (f.prio_fn y) && eq_ℤ (f.mem_fn x) (f.mem_fn y)

  equal-less : (x y z : T) → less f y x ≡ true → is_equal z x ≡ true → is_equal z y ≡ false
  unfolding less
  equal-less x y z p q = ground arith

  place_item-equal :
      (x z : T) (xs : List T)
      → filter (is_equal z) (place_item f x xs) ≡ filter (is_equal z) (x ∷ xs)
  unfolding place_item filter
  place_item-equal x z [] = refl
  place_item-equal x z (y ∷ ys) = elim (Bool-cases (less f y x)) [
    | inl c ↦ ground (arith, place_item-equal x z ys, equal-less x y z c)
    | inr c ↦ ground (arith, place_item_here f x y ys c)
  ]

  pub slice_stable-Sorted : (xs : List T) → Sorted f (slice_stable f xs)
  unfolding slice_stable Sorted
  slice_stable-Sorted [] = tt
  slice_stable-Sorted (x ∷ xs) = place_item-Sorted x (slice_stable f xs) (slice_stable-Sorted xs)

  slice_stable-Perm : (xs : List T) → Perm (slice_stable f xs) xs
  unfolding slice_stable
  slice_stable-Perm [] = Perm.refl []
  slice_stable-Perm (x ∷ xs) =
      Perm.trans (place_item-Perm x (slice_stable f xs)) (Perm.cons x (slice_stable-Perm xs))

  slice_stable-equal :
      (z : T) (xs : List T) → filter (is_equal z) (slice_stable f xs) ≡ filter (is_equal z) xs
  unfolding slice_stable filter
  slice_stable-equal z [] = refl
  slice_stable-equal z (x ∷ xs) =
      ground (arith, place_item-equal x z (slice_stable f xs), slice_stable-equal z xs)

  -- Sorting an order gives a permutation of it in which every item has a higher priority than each
  -- later one, or the same priority and no less memory; items of the same priority and memory keep the
  -- order that they had.
  slice_stable_lem :
      (z : T) (xs : List T)
      → Descending f (slice_stable f xs)
        × Perm (slice_stable f xs) xs
        × (filter (is_equal z) (slice_stable f xs) ≡ filter (is_equal z) xs)
  slice_stable_lem z xs = (
    Sorted-Descending f (slice_stable f xs) (slice_stable-Sorted xs),
    slice_stable-Perm xs,
    slice_stable-equal z xs,
  )
