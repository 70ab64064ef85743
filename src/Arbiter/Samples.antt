-- ===== src/Arbiter/Samples.antt =====
-- Runs of the packing queue: the theorems about it, applied.
use not_ahivemind.Base.{ℕ, ◌≡◌, refl, true, false, List, [], ◌∷◌, text_eq, lookup, insert, remove}
use not_ahivemind.Base.Int.{pos}
use not_ahivemind.Arbiter.Queue.{
  Accessors, Queue, new_queue, filter, push, less, fits, slice_stable, place_item, take_first,
  compacted, sort_and_compact, pop_best_fit_heuristic,
}
use not_ahivemind.Arbiter.Packing.{IsQueue}
use not_ahivemind.Arbiter.First.{IsTaken}
use not_ahivemind.Arbiter.BestFit.{suits, pop_best_fit_heuristic-some}
use not_ahivemind.Arbiter.Reachable.{Operation, push_op, apply, run, run-IsQueue}

record Item : Type 0 where
  pub id : ℕ
  pub prio : ℕ
  pub size : ℕ

abbrev accessors : Accessors Item
accessors = record {
  id_fn = λ x. x.id ∷ [];
  prio_fn = λ x. pos x.prio;
  cpu_fn = λ x. pos x.size;
  mem_fn = λ x. pos x.size;
}

abbrev small : Item
small = record { id = 1; prio = 2; size = 3 }

abbrev large : Item
large = record { id = 2; prio = 2; size = 8 }

abbrev calls : List (Operation accessors)
calls = push_op small ∷ push_op large ∷ []

run-IsQueue_example : IsQueue accessors (run accessors calls new_queue)
run-IsQueue_example = run-IsQueue accessors calls

abbrev both : Queue Item
both = record {
  items = (1 ∷ [], small) ∷ (2 ∷ [], large) ∷ [];
  order = small ∷ large ∷ [];
  dirty = true;
}

both-run : run accessors calls new_queue ≡ both
unfolding run apply push lookup insert text_eq
both-run = refl

both-IsQueue : IsQueue accessors both
both-IsQueue = rw⁻¹ both-run run-IsQueue_example

abbrev after_pop : Queue Item
after_pop = record { items = (2 ∷ [], large) ∷ []; order = large ∷ []; dirty = false }

pop_best_fit_heuristic-some_example :
    IsTaken accessors
      (suits accessors (pos 5) (pos 5) (λ x. true))
      (compacted accessors both).order
      small
      after_pop.order
    × (after_pop.items ≡ remove (1 ∷ []) both.items)
    × IsQueue accessors after_pop
unfolding pop_best_fit_heuristic compacted sort_and_compact filter slice_stable place_item less
    take_first fits lookup remove text_eq
pop_best_fit_heuristic-some_example =
    pop_best_fit_heuristic-some accessors (pos 5) (pos 5) (λ x. true) both after_pop small
      both-IsQueue refl
