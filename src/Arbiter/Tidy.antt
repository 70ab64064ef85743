-- ===== src/Arbiter/Tidy.antt =====
-- A queue whose order names every ID once. An item is then popped once for each push.
use not_ahivemind.Base.{
  ◌≡◌, refl, ◌∙◌, ◌⊎◌, inl, inr, Bool, true, false, none, some, List, [], ◌∷◌, ◌++◌, arith,
  Bool-cases, All, All-append, Text, text_eq, text_eq_iff, text_eq_refl, has, lookup, insert,
  lookup-insert, lookup-remove,
}
use not_ahivemind.Arbiter.Queue.{
  Accessors, Queue, filter, remove_by_id, push, place_item, slice_stable,
}
use not_ahivemind.Arbiter.Sorting.{place_item-All}
use not_ahivemind.Arbiter.Packing.{orders, orders-append, orders-place_item, orders-slice_stable}

module _ {T : Type 0} (f : Accessors T) where
  -- No ID stands twice.
  abbrev pub Distinct : List T → Type 0
  Distinct [] = Unit {0}
  Distinct (x ∷ xs) = (orders f (f.id_fn x) xs ≡ false) × Distinct xs

  -- The table has the item itself under its ID, or nothing.
  abbrev pub IsHeld : Queue T → T → Type 0
  IsHeld q x = (lookup (f.id_fn x) q.items ≡ some x) ⊎ (lookup (f.id_fn x) q.items ≡ none)

  pub record IsTidy (q : Queue T) : Type 0 where
    pub distinct : Distinct q.order
    pub held : All (IsHeld q) q.order
    pub live : q.dirty ≡ false → (k : Text) → orders f k q.order ≡ true → has k q.items ≡ true

  pub All-impl : (P Q : T → Type 0) (xs : List T) → ((x : T) → P x → Q x) → All P xs → All Q xs
  All-impl P Q [] g h = tt
  All-impl P Q (x ∷ xs) g (p, h) = (g x p, All-impl P Q xs g h)

  -- Of the items whose ID is another.
  All-other :
      (P Q : T → Type 0) (k : Text) (xs : List T)
      → orders f k xs ≡ false
      → ((x : T) → text_eq (f.id_fn x) k ≡ false → P x → Q x)
      → All P xs
      → All Q xs
  unfolding orders
  All-other P Q k [] o g h = tt
  All-other P Q k (x ∷ xs) o g (p, h) =
      (g x (ground arith) p, All-other P Q k xs (ground arith) g h)

  orders-filter_le :
      (k : Text) (p : T → Bool) (xs : List T)
      → orders f k xs ≡ false
      → orders f k (filter p xs) ≡ false
  unfolding orders filter
  orders-filter_le k p [] o = refl
  orders-filter_le k p (x ∷ xs) o = ground (arith, orders-filter_le k p xs)

  pub orders-filter_passes :
      (k : Text) (p : Text → Bool) (xs : List T)
      → orders f k (filter (λ x. p (f.id_fn x)) xs) ≡ true
      → p k ≡ true
  unfolding orders filter
  orders-filter_passes k p [] o = absurd (ground arith)
  orders-filter_passes k p (x ∷ xs) o =
      ground (arith, orders-filter_passes k p xs, text_eq_iff (f.id_fn x) k)

  pub filter-All : (P : T → Type 0) (p : T → Bool) (xs : List T) → All P xs → All P (filter p xs)
  unfolding filter
  filter-All P p [] h = tt
  filter-All P p (x ∷ xs) (q, h) = ground (arith, filter-All P p xs h)

  pub filter-Distinct : (p : T → Bool) (xs : List T) → Distinct xs → Distinct (filter p xs)
  unfolding filter
  filter-Distinct p [] d = tt
  filter-Distinct p (x ∷ xs) (o, d) =
      ground (arith, orders-filter_le (f.id_fn x) p xs o, filter-Distinct p xs d)

  place_item-Distinct :
      (x : T) (xs : List T)
      → orders f (f.id_fn x) xs ≡ false
      → Distinct xs
      → Distinct (place_item f x xs)
  unfolding orders place_item
  place_item-Distinct x [] o d = (refl, tt)
  place_item-Distinct x (y ∷ ys) o (n, d) = ground (
    arith,
    place_item-Distinct x ys,
    orders-place_item f (f.id_fn y) x ys,
    text_eq_iff (f.id_fn y) (f.id_fn x),
    text_eq_iff (f.id_fn x) (f.id_fn y),
  )

  pub slice_stable-Distinct : (xs : List T) → Distinct xs → Distinct (slice_stable f xs)
  unfolding slice_stable
  slice_stable-Distinct [] d = tt
  slice_stable-Distinct (x ∷ xs) (o, d) =
      place_item-Distinct x (slice_stable f xs) (orders-slice_stable f (f.id_fn x) xs ∙ o)
        (slice_stable-Distinct xs d)

  pub slice_stable-All : (P : T → Type 0) (xs : List T) → All P xs → All P (slice_stable f xs)
  unfolding slice_stable
  slice_stable-All P [] h = tt
  slice_stable-All P (x ∷ xs) (q, h) =
      place_item-All f P x (slice_stable f xs) q (slice_stable-All P xs h)

  push_old :
      (item : T) (q : Queue T)
      → has (f.id_fn item) q.items ≡ true
      → push f item q ≡ record q { items = insert (f.id_fn item) item q.items }
  unfolding push
  push_old item q h = ground arith

  push_new :
      (item : T) (q : Queue T)
      → has (f.id_fn item) q.items ≡ false
      → push f item q ≡ record {
        items = insert (f.id_fn item) item q.items;
        order = q.order ++ item ∷ [];
        dirty = true;
      }
  unfolding push
  push_new item q h = ground arith

  insert-IsHeld_same :
      (item : T) (q : Queue T) (x : T)
      → lookup (f.id_fn item) q.items ≡ some item
      → IsHeld q x
      → IsHeld (record q { items = insert (f.id_fn item) item q.items }) x
  insert-IsHeld_same item q x old h = ground (
    arith,
    lookup-insert (f.id_fn item) (f.id_fn x) item q.items,
    text_eq_iff (f.id_fn item) (f.id_fn x),
  )

  insert-IsHeld_other :
      (item : T) (q : Queue T) (x : T)
      → text_eq (f.id_fn x) (f.id_fn item) ≡ false
      → IsHeld q x
      → IsHeld (record q { items = insert (f.id_fn item) item q.items }) x
  insert-IsHeld_other item q x ne h = ground (
    arith,
    lookup-insert (f.id_fn item) (f.id_fn x) item q.items,
    text_eq_iff (f.id_fn item) (f.id_fn x),
    text_eq_iff (f.id_fn x) (f.id_fn item),
  )

  insert-IsHeld :
      (item : T) (q : Queue T)
      → (lookup (f.id_fn item) q.items ≡ some item) ⊎ (orders f (f.id_fn item) q.order ≡ false)
      → All (IsHeld q) q.order
      → All (IsHeld (record q { items = insert (f.id_fn item) item q.items })) q.order
  insert-IsHeld item q (inl same) h =
      All-impl (IsHeld q) _ q.order (λ x. insert-IsHeld_same item q x same) h
  insert-IsHeld item q (inr new) h =
      All-other (IsHeld q) _ (f.id_fn item) q.order new (λ x. insert-IsHeld_other item q x) h

  snoc-Distinct :
      (item : T) (xs : List T)
      → orders f (f.id_fn item) xs ≡ false
      → Distinct xs
      → Distinct (xs ++ item ∷ [])
  unfolding orders
  snoc-Distinct item [] o d = (refl, tt)
  snoc-Distinct item (x ∷ xs) o (n, d) = ground (
    arith,
    snoc-Distinct item xs,
    orders-append f (f.id_fn x) xs (item ∷ []),
    text_eq_iff (f.id_fn x) (f.id_fn item),
    text_eq_iff (f.id_fn item) (f.id_fn x),
  )

  -- A push of an item that the table has, or of one whose ID the order has not.
  pub push-IsTidy :
      (item : T) (q : Queue T)
      → (lookup (f.id_fn item) q.items ≡ some item) ⊎ (orders f (f.id_fn item) q.order ≡ false)
      → IsTidy q
      → IsTidy (push f item q)
  push-IsTidy item q old v = elim (Bool-cases (has (f.id_fn item) q.items)) [
    | inl h ↦ rw (push_old item q h) (record {
      distinct = v.distinct;
      held = insert-IsHeld item q old v.held;
      live = λ d k o. ground (arith, v.live d k o, lookup-insert (f.id_fn item) k item q.items);
    })
    | inr h ↦
        let new : orders f (f.id_fn item) q.order ≡ false = ground arith in
        rw (push_new item q h) (record {
          distinct = snoc-Distinct item q.order new v.distinct;
          held = All-append _ q.order (item ∷ []) (insert-IsHeld item q old v.held) (
            inl (
                ground (
                  arith,
                  lookup-insert (f.id_fn item) (f.id_fn item) item q.items,
                  text_eq_refl (f.id_fn item),
                )),
            tt,
          );
          live = λ d. absurd (ground arith);
        })
  ]

  pub remove_by_id-IsTidy : (id : Text) (q : Queue T) → IsTidy q → IsTidy (remove_by_id id q)
  unfolding remove_by_id
  remove_by_id-IsTidy id q v = elim (Bool-cases (has id q.items)) [
    | inl h ↦ rw h (record {
      distinct = v.distinct;
      held =
          All-impl (IsHeld q) _ q.order
            (λ x p. ground (arith, p, lookup-remove id (f.id_fn x) q.items)) v.held;
      live = λ d. absurd (ground arith);
    })
    | inr h ↦ rw h v
  ]
