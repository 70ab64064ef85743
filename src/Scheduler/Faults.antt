-- ===== src/Scheduler/Faults.antt =====
-- Calls in the wrong order: what AssignJob does to a job that waits, or that is completed.
use not_ahivemind.Base.{
  ℕ, ◌≡◌, ◌≢◌, refl, ap, ◌∙◌, Option, true, false, some, [], ◌∷◌, arith, Text, text_eq_refl,
  text_eq_iff, has, lookup, insert, remove, lookup-insert,
}
use not_ahivemind.Base.Int.{ℤ}
use not_ahivemind.Models.{Status}
use not_ahivemind.Arbiter.Queue.{
  Queue, filter, remove_by_id, push, less, place_item, slice_stable, sort_and_compact, take_first,
  compacted, fits, pop_best_fit,
}
use not_ahivemind.Arbiter.Sorting.{less-asym}
use not_ahivemind.Scheduler.State.{
  JobRef, JobCell, ClusterState, State, new_state, job_accessors, append_job, next_pending_job,
  assign_job, unassign_job,
}

-- AssignJob of a completed job leaves it completed, makes it assigned and running as well, and then
-- UnassignJob does nothing for it.
assign_completed :
    (id cluster : Text) (job : JobRef) (s : State)
    → lookup id s.jobs ≡ some job
    → has id s.completed_jobs ≡ true
    → let s' = (assign_job id cluster s).0 in
      (has id s'.completed_jobs ≡ true)
      × (has id s'.assigned_jobs ≡ true)
      × ((s'.job_cells job.address).status ≡ Status.running)
      × (unassign_job id s' ≡ s')
unfolding assign_job unassign_job
assign_completed id cluster job s known done = (
  ground (arith, known, done),
  ground (arith, known, lookup-insert id id tt s.assigned_jobs, text_eq_refl id),
  ground (arith, known),
  ground (arith, known, done),
)

module _ (cpu mem : ℤ) (s : State) where
  next-popped :
      (q : Queue JobRef) (job : JobRef)
      → pop_best_fit job_accessors cpu mem s.unassigned_jobs ≡ (some job, q)
      → ((next_pending_job cpu mem s).0 ≡ some job)
        × ((next_pending_job cpu mem s).1.unassigned_jobs ≡ q)
  unfolding next_pending_job
  next-popped q job e = (rw (next_pending_job, e) refl, rw (next_pending_job, e) refl)

  next-given :
      (job : JobRef)
      → (pop_best_fit job_accessors cpu mem s.unassigned_jobs).0 ≡ some job
      → (next_pending_job cpu mem s).0 ≡ some job
  unfolding next_pending_job
  next-given job e = ground (arith, e)

module _ (a b : JobRef) (id address cluster : Text) (job_cells : ℕ → JobCell)
    (cluster_cells : ℕ → ClusterState) where
  both_waiting : State
  both_waiting = append_job b (append_job a (new_state id address job_cells cluster_cells))

  -- The first of two jobs that wait is assigned without being popped, and then unassigned.
  pushed_back : State
  unfolding both_waiting
  pushed_back = unassign_job a.id (assign_job a.id cluster both_waiting).0

module _ (cpu mem : ℤ) (a b : JobRef) (apart : a.id ≢ b.id) (before : less job_accessors a b ≡ true)
    (fit : fits job_accessors cpu mem a ≡ true) where
  -- The order names `a` twice.
  doubled : Queue JobRef
  doubled = record { items = (b.id, b) ∷ (a.id, a) ∷ []; order = a ∷ b ∷ a ∷ []; dirty = true }

  once_popped : Queue JobRef
  once_popped = record { items = (b.id, b) ∷ []; order = a ∷ b ∷ []; dirty = false }

  less_self : less job_accessors a a ≡ false
  unfolding less
  less_self = ground arith

  pop_once : pop_best_fit job_accessors cpu mem doubled ≡ (some a, once_popped)
  unfolding doubled once_popped pop_best_fit compacted sort_and_compact filter slice_stable
      place_item take_first lookup remove
  pop_once = ground (
    arith,
    less-asym job_accessors b a before,
    less_self,
    text_eq_refl a.id,
    text_eq_refl b.id,
    text_eq_iff a.id b.id,
    text_eq_iff b.id a.id,
  )

  pop_again : (pop_best_fit job_accessors cpu mem once_popped).0 ≡ some a
  unfolding once_popped pop_best_fit compacted take_first
  pop_again = ground (arith, fit)

  module _ (id address cluster : Text) (job_cells : ℕ → JobCell)
      (cluster_cells : ℕ → ClusterState) where
    abbrev returned : State
    returned = pushed_back a b id address cluster job_cells cluster_cells

    pushed_back-queue : returned.unassigned_jobs ≡ doubled
    unfolding pushed_back both_waiting doubled append_job assign_job unassign_job push remove_by_id
        lookup insert remove
    pushed_back-queue =
        ground (
          arith,
          text_eq_refl a.id,
          text_eq_refl b.id,
          text_eq_iff a.id b.id,
          text_eq_iff b.id a.id,
        )

    abbrev popped : Queue JobRef → Option JobRef × Queue JobRef
    popped = pop_best_fit job_accessors cpu mem

    -- Where two jobs wait, and the one that comes first is assigned without being popped and then
    -- unassigned, NextPendingJob gives it twice in a row.
    issued_twice :
        let first =
          next_pending_job cpu mem (pushed_back a b id address cluster job_cells cluster_cells) in
        (first.0 ≡ some a) × ((next_pending_job cpu mem first.1).0 ≡ some a)
    issued_twice =
        let (given, left) =
          next-popped cpu mem returned once_popped a (ap popped pushed_back-queue ∙ pop_once) in
        (given, next-given cpu mem _ a (ap (λ (q : Queue JobRef). (popped q).0) left ∙ pop_again))
