-- ===== src/Scheduler/Samples.antt =====
-- Runs of the tables of a scheduler and of its packer: the theorems about them, applied.
use not_ahivemind.Base.{
  ℕ, ◌≡◌, ◌<◌, ◌⊎◌, refl, true, false, none, some, List, [], ◌∷◌, text_eq, lookup, insert, remove,
  length,
}
use not_ahivemind.Base.Int.{pos}
use not_ahivemind.Models.{Status}
use not_ahivemind.Arbiter.Queue.{
  push, filter, less, fits, slice_stable, place_item, take_first, compacted, sort_and_compact,
  pop_best_fit,
}
use not_ahivemind.Arbiter.Packing.{orders}
use not_ahivemind.Scheduler.State.{
  JobRef, JobCell, ClusterState, State, new_state, append_job, next_pending_job, issue_popped,
  set_status, set_cluster,
}
use not_ahivemind.Scheduler.Lifecycle.{
  absent, phase, IsConsistent, Event, append, issue, complete, step,
}
use not_ahivemind.Scheduler.Runs.{run, AllAllowed, answers, Accepts, run_refines}
use not_ahivemind.Scheduler.Packer.{
  choose_cluster, get_elem?, has_room, RoutineIo, committed, taken, unconnected,
}
use not_ahivemind.Scheduler.Choice.{IsFirst, choose_cluster_lem}
use not_ahivemind.Scheduler.Settling.{IsIssued}

abbrev pub small_job : JobRef
small_job = record {
  address = 0;
  id = 1 ∷ [];
  image_alias = 97 ∷ [];
  cpu_requirement = pos 2;
  memory_requirement = pos 2;
  priority = pos 3;
  payload = [];
}

abbrev pub new_cell : JobCell
new_cell = record { status = Status.pending; assigned_cluster_id = []; response = [] }

abbrev pub large_cluster : ClusterState
large_cluster = record {
  id = 67 ∷ [];
  used_cpu = pos 0;
  used_mem = pos 0;
  max_cpu = pos 10;
  max_mem = pos 10;
  optimistic_updates = 0;
  last_updated = 0;
}

abbrev pub start : State
start = new_state [] [] (λ a. new_cell) (λ a. large_cluster)

abbrev waiting_run : List Event
waiting_run = append small_job ∷ []

abbrev issuing_run : List Event
issuing_run = append small_job ∷ issue (pos 5) (pos 5) ∷ complete (1 ∷ []) [] true ∷ []

issuing_run-AllAllowed : AllAllowed issuing_run start
unfolding AllAllowed lookup orders
issuing_run-AllAllowed = ((refl, refl), (tt, (tt, tt)))

run_refines_example :
    IsConsistent (run issuing_run start)
    × Accepts issuing_run (answers issuing_run start) (λ k. absent) (phase (run issuing_run start))
run_refines_example =
    run_refines [] [] (λ a. new_cell) (λ a. large_cluster) issuing_run issuing_run-AllAllowed

-- A small job waits.
abbrev pub one_waiting : State
one_waiting = run waiting_run start

waiting_run-AllAllowed : AllAllowed waiting_run start
unfolding AllAllowed lookup orders
waiting_run-AllAllowed = ((refl, refl), tt)

pub one_waiting-IsConsistent : IsConsistent one_waiting
one_waiting-IsConsistent =
    (run_refines [] [] (λ a. new_cell) (λ a. large_cluster) waiting_run waiting_run-AllAllowed).0

abbrev all_clusters : List ℕ
all_clusters = 0 ∷ []

choose_cluster_lem_example :
    ((c : ℕ) × (choose_cluster (length all_clusters) 3 small_job all_clusters one_waiting ≡ some c)
      × IsFirst small_job all_clusters one_waiting (length all_clusters) 3 c)
    ⊎ ((choose_cluster (length all_clusters) 3 small_job all_clusters one_waiting ≡ none)
        × ((n c : ℕ)
            → n < length all_clusters
            → get_elem? all_clusters n ≡ some c
            → has_room small_job (one_waiting.cluster_cells c) ≡ false))
choose_cluster_lem_example = choose_cluster_lem small_job all_clusters one_waiting 3

-- The small job is issued.
abbrev issued_run : List Event
issued_run = append small_job ∷ issue (pos 5) (pos 5) ∷ []

issued_run-AllAllowed : AllAllowed issued_run start
unfolding AllAllowed lookup orders
issued_run-AllAllowed = ((refl, refl), (tt, tt))

abbrev pub one_issued : State
one_issued = run issued_run start

pub one_issued-IsIssued : IsIssued small_job one_issued
unfolding run step append_job next_pending_job issue_popped set_status set_cluster pop_best_fit
    compacted sort_and_compact filter slice_stable place_item less take_first fits push lookup
    insert remove text_eq
one_issued-IsIssued = record { known = refl; running = refl }

-- The peers have no connection.
abbrev pub fine_outcome : RoutineIo
fine_outcome = record {
  commit = committed;
  dispatch = taken;
  offers = λ peer. unconnected;
  now = 0;
}

pub one_issued-IsConsistent : IsConsistent one_issued
one_issued-IsConsistent =
    (run_refines [] [] (λ a. new_cell) (λ a. large_cluster) issued_run issued_run-AllAllowed).0

pub start-IsConsistent : IsConsistent start
unfolding AllAllowed run
start-IsConsistent = (run_refines [] [] (λ a. new_cell) (λ a. large_cluster) [] tt).0
