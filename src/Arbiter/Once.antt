-- ===== src/Arbiter/Once.antt =====
-- A pop of a queue whose order names every ID once.
use not_ahivemind.Base.{
  ◌≡◌, refl, sym, ap, ◌∙◌, ◌⊎◌, inl, inr, Bool, true, false, none, some, List, [], ◌∷◌, arith,
  Bool-cases, All, Text, text_eq_iff, text_eq_refl, has, lookup, remove, lookup-remove,
}
use not_ahivemind.Base.Int.{ℤ}
use not_ahivemind.Arbiter.Queue.{
  Accessors, Queue, sort_and_compact, take_first, compacted, pop_best_fit,
}
use not_ahivemind.Arbiter.Packing.{orders, orders-slice_stable, compacted_dirty, compacted_clean}
use not_ahivemind.Arbiter.First.{take_first_miss, take_first_hit_inv, take_first-All}
use not_ahivemind.Arbiter.BestFit.{suits, compacted-items, pop_some, pop_none}
use not_ahivemind.Arbiter.Reachable.{pop_best_fit-heuristic}
use not_ahivemind.Arbiter.Tidy.{
  Distinct, IsHeld, IsTidy, filter-Distinct, filter-All, slice_stable-Distinct, slice_stable-All,
  orders-filter_passes, All-impl,
}

module _ {T : Type 0} (f : Accessors T) where
  -- What a pop starts from.
  compacted-IsTidy :
      (q : Queue T)
      → IsTidy f q
      → IsTidy f (compacted f q)
        × ((k : Text) → orders f k (compacted f q).order ≡ true → has k q.items ≡ true)
  compacted-IsTidy q v = elim (Bool-cases q.dirty) [
    | inl d ↦ rw (compacted_dirty f q d) (
        unfold sort_and_compact in
        (
          record {
            distinct = slice_stable-Distinct f _ (filter-Distinct f _ q.order v.distinct);
            held = slice_stable-All f _ _ (filter-All f _ _ q.order v.held);
            live = λ e k o.
                orders-filter_passes f k (λ i. has i q.items) q.order
                  (sym (orders-slice_stable f k _) ∙ o);
          },
          λ k o.
              orders-filter_passes f k (λ i. has i q.items) q.order
                (sym (orders-slice_stable f k _) ∙ o),
        ))
    | inr d ↦ rw (compacted_clean f q d) (v, v.live d)
  ]

  -- Taking an item from a list that names every ID once.
  take_first-Distinct :
      (p : T → Bool) (xs : List T) (item : T) (rest : List T)
      → take_first f p xs ≡ some (item, rest)
      → Distinct f xs
      → Distinct f rest
        × (orders f (f.id_fn item) rest ≡ false)
        × (orders f (f.id_fn item) xs ≡ true)
        × ((k : Text) → orders f k rest ≡ true → orders f k xs ≡ true)
  unfolding orders
  take_first-Distinct p [] item rest e d = absurd (unfold take_first in ground arith)
  take_first-Distinct p (x ∷ xs) item rest e (n, d) = elim (Bool-cases (p x)) [
    | inl c ↦
        let (same, left) = take_first_hit_inv f p x xs item rest c e in
        rw (same, left) (d, n, ground (arith, text_eq_refl (f.id_fn x)), λ k o. ground arith)
    | inr c ↦
        let (rest', found, eq) = take_first_miss f p x xs item rest c e in
        let (d', o, i, sub) = take_first-Distinct p xs item rest' found d in
        rw eq (
          (ground (arith, sub (f.id_fn x)), d'),
          ground (arith, text_eq_iff (f.id_fn x) (f.id_fn item)),
          ground arith,
          λ k h. ground (arith, sub k),
        )
  ]

  take_first-item :
      (p : T → Bool) (P : T → Type 0) (xs : List T) (item : T) (rest : List T)
      → take_first f p xs ≡ some (item, rest)
      → All P xs
      → P item
  take_first-item p P [] item rest e h = absurd (unfold take_first in ground arith)
  take_first-item p P (x ∷ xs) item rest e (q, h) = elim (Bool-cases (p x)) [
    | inl c ↦ rw ((take_first_hit_inv f p x xs item rest c e).0) q
    | inr c ↦
        let (rest', found, eq) = take_first_miss f p x xs item rest c e in
        take_first-item p P xs item rest' found h
  ]

  remove-IsHeld :
      (q q' : Queue T) (x : T) (id : Text)
      → q'.items ≡ remove id q.items
      → IsHeld f q x
      → IsHeld f q' x
  remove-IsHeld q q' x id e h = ground (arith, e, lookup-remove id (f.id_fn x) q.items)

  IsHeld-found :
      (q q' : Queue T) (x : T)
      → q'.items ≡ q.items
      → has (f.id_fn x) q.items ≡ true
      → IsHeld f q' x
      → lookup (f.id_fn x) q.items ≡ some x
  IsHeld-found q q' x e here h = ground (arith, e)

  -- A pop that gives an item: the table had that item under its ID, the queue stays tidy, the ID is
  -- gone from the order, and the IDs that stay in the order are in the table.
  pub record IsPopped (q : Queue T) (item : T) (q' : Queue T) : Type 0 where
    pub tidy : IsTidy f q'
    pub found : lookup (f.id_fn item) q.items ≡ some item
    pub items : q'.items ≡ remove (f.id_fn item) q.items
    pub gone : orders f (f.id_fn item) q'.order ≡ false
    pub rest : (k : Text) → orders f k q'.order ≡ true → has k q.items ≡ true

  pub pop-IsPopped :
      (cpu mem : ℤ) (q q' : Queue T) (item : T)
      → pop_best_fit f cpu mem q ≡ (some item, q')
      → IsTidy f q
      → IsPopped q item q'
  pop-IsPopped cpu mem q q' item e v =
      let e' = sym (pop_best_fit-heuristic f cpu mem q) ∙ e in
      let all : T → Bool = λ x. true in
      let (found, items, dirty) = pop_some f cpu mem all q q' item e' in
      let (t, live) = compacted-IsTidy q v in
      let (d, gone, here, sub) =
        take_first-Distinct (suits f cpu mem all) (compacted f q).order item q'.order found
          t.distinct in
      let same = compacted-items f cpu mem all q in
      let rest : (k : Text) → orders f k q'.order ≡ true → has k q.items ≡ true =
        λ k o. live k (sub k o) in
      record {
        tidy = record {
          distinct = d;
          held =
              All-impl f (IsHeld f (compacted f q)) (IsHeld f q') q'.order
                (λ x.
                  remove-IsHeld (compacted f q) q' x (f.id_fn item)
                    (items ∙ ap (remove (f.id_fn item)) (sym same)))
                (take_first-All f (suits f cpu mem all) _ (compacted f q).order item q'.order found
                  t.held);
          live = λ clean k o. ground (
            arith,
            rest k o,
            items,
            gone,
            o,
            lookup-remove (f.id_fn item) k q.items,
            text_eq_iff (f.id_fn item) k,
          );
        };
        found = IsHeld-found q (compacted f q) item same (live (f.id_fn item) here) (
            take_first-item (suits f cpu mem all) (IsHeld f (compacted f q)) (compacted f q).order
              item q'.order found t.held);
        items = items;
        gone = gone;
        rest = rest;
      }

  -- A pop that gives nothing.
  pub record IsMissed (q q' : Queue T) : Type 0 where
    pub tidy : IsTidy f q'
    pub items : q'.items ≡ q.items
    pub rest :
        (k : Text)
        → orders f k q'.order ≡ true
        → (orders f k q.order ≡ true) ⊎ (has k q.items ≡ true)

  pub pop-IsMissed :
      (cpu mem : ℤ) (q q' : Queue T)
      → pop_best_fit f cpu mem q ≡ (none, q')
      → IsTidy f q
      → IsMissed q q'
  pop-IsMissed cpu mem q q' e v =
      let all : T → Bool = λ x. true in
      elim (pop_none f cpu mem all q q' (sym (pop_best_fit-heuristic f cpu mem q) ∙ e)) [
        | inl (empty, same) ↦ rw same (record { tidy = v; items = refl; rest = λ k o. inl o })
        | inr (missed, same) ↦ rw same (record {
          tidy = (compacted-IsTidy q v).0;
          items = compacted-items f cpu mem all q;
          rest = λ k o. inr ((compacted-IsTidy q v).1 k o);
        })
      ]
