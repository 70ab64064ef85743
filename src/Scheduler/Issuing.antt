-- ===== src/Scheduler/Issuing.antt =====
-- NextPendingJob keeps the tables consistent, and what it gives was waiting.
use not_ahivemind.Base.{
  ◌≡◌, ◌⊎◌, inl, inr, refl, ap, true, Option, none, some, arith, if◌then◌else◌, Option-cases, Text,
  text_eq, text_eq_iff, lookup, lookup-insert, lookup-remove,
}
use not_ahivemind.Base.Int.{ℤ}
use not_ahivemind.Arbiter.Queue.{Queue, pop_best_fit}
use not_ahivemind.Arbiter.Packing.{IsQueue}
use not_ahivemind.Arbiter.Reachable.{pop_best_fit-heuristic, pop-IsQueue}
use not_ahivemind.Arbiter.Once.{IsPopped, pop-IsPopped, IsMissed, pop-IsMissed}
use not_ahivemind.Scheduler.State.{JobRef, State, job_accessors, next_pending_job}
use not_ahivemind.Scheduler.Lifecycle.{waiting, active, phase, IsConsistent}

module _ (cpu mem : ℤ) (s : State) (v : IsConsistent s) where
  abbrev pub popped : Option JobRef × Queue JobRef
  popped = pop_best_fit job_accessors cpu mem s.unassigned_jobs

  popped-IsQueue : IsQueue job_accessors popped.1
  popped-IsQueue =
      rw (pop_best_fit-heuristic job_accessors cpu mem s.unassigned_jobs)
        (pop-IsQueue job_accessors cpu mem (λ x. true) s.unassigned_jobs v.queue)

  module _ (job : JobRef) (o : popped.0 ≡ some job) where
    taken : IsPopped job_accessors s.unassigned_jobs job popped.1
    taken =
        pop-IsPopped job_accessors cpu mem s.unassigned_jobs popped.1 job
          (ap (λ x. (x, popped.1)) o) v.tidy

    job_known : lookup job.id s.jobs ≡ some job
    job_known = v.shared job.id job taken.found

    pub job_waiting : phase s job.id ≡ waiting
    job_waiting = v.queued job.id (ground (arith, taken.found))

    pub issue-phase :
        (k : Text)
        → phase (next_pending_job cpu mem s).1 k ≡ (if text_eq job.id k then active else phase s k)
    unfolding next_pending_job
    issue-phase k = ground (
      arith,
      o,
      job_known,
      job_waiting,
      lookup-insert job.id k tt s.assigned_jobs,
      text_eq_iff job.id k,
    )

    pub issue-some : (next_pending_job cpu mem s).0 ≡ some job
    unfolding next_pending_job
    issue-some = ground (arith, o)

    issue-queue : (next_pending_job cpu mem s).1.unassigned_jobs ≡ popped.1
    unfolding next_pending_job
    issue-queue = ground (arith, o)

    issue-jobs : (next_pending_job cpu mem s).1.jobs ≡ s.jobs
    unfolding next_pending_job
    issue-jobs = ground (arith, o)

    pub issue-IsConsistent : IsConsistent (next_pending_job cpu mem s).1
    issue-IsConsistent = record {
      queue = rw issue-queue popped-IsQueue;
      tidy = rw issue-queue taken.tidy;
      keyed = λ k j h. ground (arith, issue-jobs, v.keyed k j);
      shared = λ k j h. ground (
        arith,
        issue-jobs,
        issue-queue,
        taken.items,
        lookup-remove job.id k s.unassigned_jobs.items,
        v.shared k j,
      );
      queued = λ k h. ground (
        arith,
        issue-phase k,
        issue-queue,
        taken.items,
        lookup-remove job.id k s.unassigned_jobs.items,
        v.queued k,
      );
      waiting_queued = λ k h. ground (
        arith,
        issue-phase k,
        issue-queue,
        taken.items,
        lookup-remove job.id k s.unassigned_jobs.items,
        v.waiting_queued k,
      );
      assigned = λ k h.
          unfold next_pending_job in
          ground (arith, o, issue-phase k, lookup-insert job.id k tt s.assigned_jobs, v.assigned k);
      completed = λ k h.
          unfold next_pending_job in
          ground (arith, o, issue-phase k, text_eq_iff job.id k, job_waiting, v.completed k);
      stale = λ k h. ground (
        arith,
        issue-phase k,
        issue-queue,
        taken.gone,
        taken.rest k,
        v.queued k,
        text_eq_iff job.id k,
      );
    }

  module _ (o : popped.0 ≡ none) where
    missed : IsMissed job_accessors s.unassigned_jobs popped.1
    missed =
        pop-IsMissed job_accessors cpu mem s.unassigned_jobs popped.1 (ap (λ x. (x, popped.1)) o)
          v.tidy

    pub miss-none : (next_pending_job cpu mem s).0 ≡ none
    unfolding next_pending_job
    miss-none = ground (arith, o)

    pub miss-state : (next_pending_job cpu mem s).1 ≡ record s { unassigned_jobs = popped.1 }
    unfolding next_pending_job
    miss-state = ground (arith, o)

    pub miss-IsConsistent : IsConsistent (next_pending_job cpu mem s).1
    miss-IsConsistent = rw miss-state (record {
      queue = popped-IsQueue;
      tidy = missed.tidy;
      keyed = v.keyed;
      shared = λ k j h. ground (arith, missed.items, v.shared k j);
      queued = λ k h. ground (arith, missed.items, v.queued k);
      waiting_queued = λ k h. ground (arith, missed.items, v.waiting_queued k h);
      assigned = v.assigned;
      completed = v.completed;
      stale = λ k h. ground (arith, missed.rest k h, v.stale k, v.queued k);
    })

-- A job that was given: it was known and waited, and is active; nothing else has moved.
pub record IsGiven (job : JobRef) (s t : State) : Type 0 where
  pub consistent : IsConsistent t
  pub jobs : t.jobs ≡ s.jobs
  pub known : lookup job.id s.jobs ≡ some job
  pub waited : phase s job.id ≡ waiting
  pub phases : (k : Text) → phase t k ≡ (if text_eq job.id k then active else phase s k)

-- Nothing was given, and nothing has moved.
pub record IsIdle (s t : State) : Type 0 where
  pub consistent : IsConsistent t
  pub jobs : t.jobs ≡ s.jobs
  pub phases : (k : Text) → phase t k ≡ phase s k

module _ (cpu mem : ℤ) (s : State) (v : IsConsistent s) where
  pub next_pending_job_cases :
      ((job : JobRef) × ((next_pending_job cpu mem s).0 ≡ some job)
        × IsGiven job s (next_pending_job cpu mem s).1)
      ⊎ (((next_pending_job cpu mem s).0 ≡ none) × IsIdle s (next_pending_job cpu mem s).1)
  next_pending_job_cases = elim (Option-cases (popped cpu mem s v).0) [
    | inl o ↦ inr (
      miss-none cpu mem s v o,
      record {
        consistent = miss-IsConsistent cpu mem s v o;
        jobs = rw (miss-state cpu mem s v o) refl;
        phases = λ k. rw (miss-state cpu mem s v o) refl;
      },
    )
    | inr (job, o) ↦ inl (
      job,
      issue-some cpu mem s v job o,
      record {
        consistent = issue-IsConsistent cpu mem s v job o;
        jobs = issue-jobs cpu mem s v job o;
        known = job_known cpu mem s v job o;
        waited = job_waiting cpu mem s v job o;
        phases = issue-phase cpu mem s v job o;
      },
    )
  ]
