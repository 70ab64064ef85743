-- ===== src/Arbiter/Reachable.antt =====
-- Every queue that the operations lead to is well-formed; and two runs in which the order is stale.
use not_ahivemind.Base.{
  ◌≡◌, refl, ap, inl, inr, Bool, true, false, ◌&&◌, some, List, [], ◌∷◌, arith, Option-cases, Text,
  text_eq_refl, lookup, insert, remove,
}
use not_ahivemind.Base.Int.{ℤ}
use not_ahivemind.Arbiter.Queue.{
  Accessors, Queue, new_queue, filter, clear, remove_by_id, push, push_batch, less, place_item,
  slice_stable, sort_and_compact, take_first, compacted, fits, pop_best_fit, pop_best_fit_heuristic,
}
use not_ahivemind.Arbiter.Sorting.{Sorted}
use not_ahivemind.Arbiter.Packing.{IsQueue, push-IsQueue, remove_by_id-IsQueue}
use not_ahivemind.Arbiter.BestFit.{pop_best_fit_heuristic-some, pop_best_fit_heuristic-none}

module _ {ℓ} {T : Type ℓ} (f : Accessors T) where
  -- One call of an operation that changes the queue.
  pub data Operation : Type ℓ where
    push_op : T → Operation
    push_batch_op : List T → Operation
    remove_op : Text → Operation
    clear_op : Operation
    pop_op : ℤ → ℤ → Operation
    pop_heuristic_op : ℤ → ℤ → (T → Bool) → Operation

  unfoldable pub apply : Operation → Queue T → Queue T
  apply (push_op item) q = push f item q
  apply (push_batch_op items) q = push_batch f items q
  apply (remove_op id) q = remove_by_id id q
  apply clear_op q = clear q
  apply (pop_op cpu mem) q = (pop_best_fit f cpu mem q).1
  apply (pop_heuristic_op cpu mem heuristic) q = (pop_best_fit_heuristic f cpu mem heuristic q).1

  unfoldable pub run : List Operation → Queue T → Queue T
  run [] q = q
  run (op ∷ ops) q = run ops (apply op q)

module _ {ℓ} {T : Type ℓ} (f : Accessors T) where
  pub new_queue-IsQueue : IsQueue f new_queue
  new_queue-IsQueue = record {
    keyed = λ k v h. absurd (unfold lookup in ground arith);
    covered = λ k h. absurd (unfold lookup in ground arith);
    sorted = λ h. unfold Sorted in tt;
  }

  push_batch-IsQueue :
      (items : List T) (q : Queue T) → IsQueue f q → IsQueue f (push_batch f items q)
  unfolding push_batch
  push_batch-IsQueue [] q v = v
  push_batch-IsQueue (item ∷ items) q v =
      push_batch-IsQueue items (push f item q) (push-IsQueue f item q v)

  take_first-all :
      (p : T → Bool) (xs : List T) → take_first f (λ x. p x && true) xs ≡ take_first f p xs
  unfolding take_first
  take_first-all p [] = refl
  take_first-all p (x ∷ xs) = ground (arith, take_first-all p xs)

  -- PopBestFit is PopBestFitHeuristic with a heuristic that every item passes.
  pub pop_best_fit-heuristic :
      (cpu mem : ℤ) (q : Queue T)
      → pop_best_fit f cpu mem q ≡ pop_best_fit_heuristic f cpu mem (λ x. true) q
  unfolding pop_best_fit pop_best_fit_heuristic
  pop_best_fit-heuristic cpu mem q =
      ground (arith, take_first-all (fits f cpu mem) (compacted f q).order)

  pub pop-IsQueue :
      (cpu mem : ℤ) (heuristic : T → Bool) (q : Queue T)
      → IsQueue f q
      → IsQueue f (pop_best_fit_heuristic f cpu mem heuristic q).1
  pop-IsQueue cpu mem heuristic q v =
      elim (Option-cases (pop_best_fit_heuristic f cpu mem heuristic q).0) [
        | inl o ↦
            (pop_best_fit_heuristic-none f cpu mem heuristic q _ v
              (ap (λ x. (x, (pop_best_fit_heuristic f cpu mem heuristic q).1)) o)).0
        | inr (item, o) ↦
            (pop_best_fit_heuristic-some f cpu mem heuristic q _ item v
              (ap (λ x. (x, (pop_best_fit_heuristic f cpu mem heuristic q).1)) o)).2
      ]

  apply-IsQueue : (op : Operation f) (q : Queue T) → IsQueue f q → IsQueue f (apply f op q)
  unfolding apply clear
  apply-IsQueue (push_op item) q v = push-IsQueue f item q v
  apply-IsQueue (push_batch_op items) q v = push_batch-IsQueue items q v
  apply-IsQueue (remove_op id) q v = remove_by_id-IsQueue f id q v
  apply-IsQueue clear_op q v = new_queue-IsQueue
  apply-IsQueue (pop_op cpu mem) q v =
      rw (apply, pop_best_fit-heuristic cpu mem q) (pop-IsQueue cpu mem (λ x. true) q v)
  apply-IsQueue (pop_heuristic_op cpu mem heuristic) q v = pop-IsQueue cpu mem heuristic q v

  run_from-IsQueue :
      (ops : List (Operation f)) (q : Queue T) → IsQueue f q → IsQueue f (run f ops q)
  unfolding run
  run_from-IsQueue [] q v = v
  run_from-IsQueue (op ∷ ops) q v = run_from-IsQueue ops (apply f op q) (apply-IsQueue op q v)

  -- Any calls of the operations lead from a new queue to one that is well-formed: each item stands
  -- under its own ID, each ID of the table is in the order, and an order not marked dirty is sorted.
  pub run-IsQueue : (ops : List (Operation f)) → IsQueue f (run f ops new_queue)
  run-IsQueue ops = run_from-IsQueue ops new_queue new_queue-IsQueue

  -- Pushing an item again under its ID changes what the table holds, but a pop gives the old item.
  pop_stale :
      (cpu mem : ℤ) (a b : T)
      → f.id_fn a ≡ f.id_fn b
      → fits f cpu mem a ≡ true
      → let q = push f b (push f a new_queue) in
        (lookup (f.id_fn b) q.items ≡ some b) × ((pop_best_fit f cpu mem q).0 ≡ some a)
  unfolding push pop_best_fit compacted sort_and_compact filter slice_stable place_item take_first
      lookup insert
  pop_stale cpu mem a b same fit =
      ground (arith, text_eq_refl (f.id_fn a), text_eq_refl (f.id_fn b), same)

  -- Where an item was removed and another was pushed under its ID that does not belong before it, a
  -- pop gives the removed item.
  pop_removed :
      (cpu mem : ℤ) (a b : T)
      → f.id_fn a ≡ f.id_fn b
      → less f b a ≡ false
      → fits f cpu mem a ≡ true
      → (pop_best_fit f cpu mem (push f b (remove_by_id (f.id_fn a) (push f a new_queue)))).0
        ≡ some a
  unfolding push remove_by_id pop_best_fit compacted sort_and_compact filter slice_stable place_item
      take_first lookup insert remove
  pop_removed cpu mem a b same behind fit =
      ground (arith, text_eq_refl (f.id_fn a), text_eq_refl (f.id_fn b), same)
