-- ===== src/Arbiter/First.antt =====
-- The search of a pop: the first item of the order that passes.
use mathlib.Core.List.{Perm}
use mathlib.Core.List.Perm
use not_ahivemind.Base.{
  ◌≡◌, ◌≢◌, ◌⊎◌, inl, inr, Bool, true, false, none, some, List, [], ◌∷◌, arith, Bool-cases,
  Option-cases, All, Text, text_eq_iff,
}
use not_ahivemind.Arbiter.Queue.{Accessors, less, take_first}
use not_ahivemind.Arbiter.Sorting.{Sorted, IsAtLeast, less-IsAtLeast}
use not_ahivemind.Arbiter.Packing.{orders}

module _ {ℓ} {T : Type ℓ} (f : Accessors T) (p : T → Bool) where
  -- An item that does not pass, or that the given one is at least.
  abbrev pub IsBest : T → T → Type 0
  IsBest item y = (p y ≡ false) ⊎ IsAtLeast f item y

  All-IsBest : (item : T) (xs : List T) → All (λ y. less f y item ≡ false) xs → All (IsBest item) xs
  All-IsBest item [] h = tt
  All-IsBest item (x ∷ xs) (q, h) = (inr (less-IsAtLeast f item x q), All-IsBest item xs h)

  take_first_hit : (x : T) (xs : List T) → p x ≡ true → take_first f p (x ∷ xs) ≡ some (x, xs)
  unfolding take_first
  take_first_hit x xs h = ground arith

  pub take_first_miss :
      (x : T) (xs : List T) (item : T) (rest : List T)
      → p x ≡ false
      → take_first f p (x ∷ xs) ≡ some (item, rest)
      → (rest' : List T) × (take_first f p xs ≡ some (item, rest')) × (rest ≡ x ∷ rest')
  unfolding take_first
  take_first_miss x xs item rest h e = elim (Option-cases (take_first f p xs)) [
    | inl q ↦ absurd (ground (arith, q, e))
    | inr (r, q) ↦ (r.1, ground (arith, q, e), ground (arith, q, e))
  ]

  -- What an item taken from a sorted list is, and what is left.
  pub record IsTaken (xs : List T) (item : T) (rest : List T) : Type ℓ where
    pub passes : p item ≡ true
    pub perm : Perm (item ∷ rest) xs
    pub sorted : Sorted f rest
    pub best : All (IsBest item) rest
    pub others : (k : Text) → f.id_fn item ≢ k → orders f k xs ≡ true → orders f k rest ≡ true

  IsTaken-here : (x : T) (xs : List T) → Sorted f (x ∷ xs) → p x ≡ true → IsTaken (x ∷ xs) x xs
  unfolding Sorted orders
  IsTaken-here x xs (b, s) h = record {
    passes = h;
    perm = Perm.refl (x ∷ xs);
    sorted = s;
    best = All-IsBest x xs b;
    others = λ k ne o. ground (arith, text_eq_iff (f.id_fn x) k);
  }

  pub take_first-All :
      (P : T → Type 0) (xs : List T) (item : T) (rest : List T)
      → take_first f p xs ≡ some (item, rest)
      → All P xs
      → All P rest
  unfolding take_first
  take_first-All P [] item rest e h = absurd (ground arith)
  take_first-All P (x ∷ xs) item rest e (q, h) = elim (Bool-cases (p x)) [
    | inl c ↦ ground (arith, take_first_hit x xs c, e, h)
    | inr c ↦
        let (rest', found, eq) = take_first_miss x xs item rest c e in
        rw eq (q, take_first-All P xs item rest' found h)
  ]

  pub take_first_hit_inv :
      (x : T) (xs : List T) (item : T) (rest : List T)
      → p x ≡ true
      → take_first f p (x ∷ xs) ≡ some (item, rest)
      → (item ≡ x) × (rest ≡ xs)
  take_first_hit_inv x xs item rest c e = ground (arith, take_first_hit x xs c, e)

  IsTaken-behind :
      (x : T) (xs : List T) (item : T) (rest : List T)
      → Sorted f (x ∷ xs)
      → p x ≡ false
      → take_first f p xs ≡ some (item, rest)
      → IsTaken xs item rest
      → IsTaken (x ∷ xs) item (x ∷ rest)
  unfolding Sorted orders
  IsTaken-behind x xs item rest (b, s) c e t = record {
    passes = t.passes;
    perm = Perm.trans (Perm.swap x item rest) (Perm.cons x t.perm);
    sorted = (take_first-All (λ y. less f y x ≡ false) xs item rest e b, t.sorted);
    best = (inl c, t.best);
    others = λ k ne o. ground (arith, t.others k ne);
  }

  pub take_first-some :
      (xs : List T) (item : T) (rest : List T)
      → Sorted f xs
      → take_first f p xs ≡ some (item, rest)
      → IsTaken xs item rest
  unfolding Sorted
  take_first-some [] item rest s e = absurd (unfold take_first in ground arith)
  take_first-some (x ∷ xs) item rest s e = elim (Bool-cases (p x)) [
    | inl c ↦
        rw ((take_first_hit_inv x xs item rest c e).0, (take_first_hit_inv x xs item rest c e).1)
          (IsTaken-here x xs s c)
    | inr c ↦
        let (rest', found, eq) = take_first_miss x xs item rest c e in
        rw eq (IsTaken-behind x xs item rest' s c found (take_first-some xs item rest' s.1 found))
  ]

  pub take_first-none : (xs : List T) → take_first f p xs ≡ none → All (λ y. p y ≡ false) xs
  unfolding take_first
  take_first-none [] e = tt
  take_first-none (x ∷ xs) e = ground (arith, take_first-none xs)
