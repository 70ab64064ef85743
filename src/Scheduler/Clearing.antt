-- ===== src/Scheduler/Clearing.antt =====
-- ClearCompletedJobs of internal/scheduler/states/state.go: which jobs it removes.
use not_ahivemind.Base.{
  ℕ, ◌-◌, ◌≡◌, refl, ap, Bool, true, false, not, ◌&&◌, ◌||◌, none, some, List, [], ◌∷◌, arith,
  length, Text, text_eq, text_eq_iff, text_eq_refl, has, lookup, insert, lookup-insert, has-remove,
  ltb,
}
use not_ahivemind.Models.{Status}
use not_ahivemind.Scheduler.State.{
  JobRef, Names, State, find_job, queue_free_completed_job, seconds, purge_job,
}
use not_ahivemind.Scheduler.Retention.{is_due, due_jobs, purge_all, clear_completed_jobs}
use not_ahivemind.Scheduler.Handler.{request_job_status, is_completed}

abbrev pub listed : Text → List Text → Bool
listed k [] = false
listed k (id ∷ ids) = text_eq id k || listed k ids

has-purge_job :
    (id k : Text) (s : State) → has k (purge_job id s).jobs ≡ (has k s.jobs && not (text_eq id k))
unfolding purge_job
has-purge_job id k s = ground (arith, has-remove id k s.jobs, text_eq_iff id k)

has-purge_all :
    (ids : List Text) (k : Text) (s : State)
    → has k (purge_all ids s).jobs ≡ (has k s.jobs && not (listed k ids))
unfolding purge_all
has-purge_all [] k s = ground arith
has-purge_all (id ∷ ids) k s =
    ground (arith, has-purge_all ids k (purge_job id s), has-purge_job id k s)

listed-due_jobs :
    (now : ℕ) (names : Names) (k : Text) (s : State)
    → listed k (due_jobs now names s)
      ≡ (has k names && is_due now (length s.completed_jobs) (lookup k s.read_jobs))
unfolding due_jobs lookup
listed-due_jobs now [] k s = refl
listed-due_jobs now ((id, u) ∷ names) k s =
    ground (arith, listed-due_jobs now names k s, text_eq_iff id k)

-- A tick of ClearCompletedJobs removes a job from the table exactly where it is completed and was read,
-- more than ten seconds ago or with more than a hundred completed jobs in the table.
pub clear_completed_jobs_lem :
    (now : ℕ) (k : Text) (s : State)
    → has k (clear_completed_jobs now s).jobs ≡ (
        has k s.jobs
        && not
            (has k s.completed_jobs && is_due now (length s.completed_jobs) (lookup k s.read_jobs)))
unfolding clear_completed_jobs
clear_completed_jobs_lem now k s = ground (
  arith,
  has-purge_all (due_jobs now s.completed_jobs s) k s,
  listed-due_jobs now s.completed_jobs k s,
)

module _ (id : Text) (job : JobRef) (s : State) (known : lookup id s.jobs ≡ some job)
    (unread : lookup id s.read_jobs ≡ none) where
  asked_failed :
      (now : ℕ)
      → (s.job_cells job.address).status ≡ Status.failed
      → (request_job_status id now s).0 ≡ s
  unfolding request_job_status find_job
  asked_failed now failed = ground (arith, known, ap is_completed failed)

  asked_completed :
      (now : ℕ)
      → (s.job_cells job.address).status ≡ Status.completed
      → (request_job_status id now s).0 ≡ record s { read_jobs = insert id now s.read_jobs }
  unfolding request_job_status find_job queue_free_completed_job
  asked_completed now done = ground (arith, known, unread, ap is_completed done)

  -- A failed job is never cleared: asking for its status, which is what marks a job as read, leaves the
  -- state as it was, and no tick removes it.
  failed_job_kept :
      (now later : ℕ)
      → (s.job_cells job.address).status ≡ Status.failed
      → ((request_job_status id now s).0 ≡ s)
        × (has id (clear_completed_jobs later (request_job_status id now s).0).jobs ≡ true)
  unfolding is_due
  failed_job_kept now later failed = (
    asked_failed now failed,
    rw (asked_failed now failed, clear_completed_jobs_lem later id s, known, unread) (ground arith),
  )

  -- A completed job whose status was asked for is cleared by a tick more than ten seconds later, and by
  -- none within them unless more than a hundred jobs are completed.
  completed_job_cleared :
      (now later : ℕ)
      → (s.job_cells job.address).status ≡ Status.completed
      → has id s.completed_jobs ≡ true
      → has id (clear_completed_jobs later (request_job_status id now s).0).jobs
        ≡ not (ltb (seconds 10) (later - now) || ltb 100 (length s.completed_jobs))
  unfolding is_due
  completed_job_cleared now later done finished =
      rw
        (
          asked_completed now done,
          clear_completed_jobs_lem later id (record s { read_jobs = insert id now s.read_jobs }),
          known,
          finished,
          lookup-insert id id now s.read_jobs,
          text_eq_refl id,
        )
        refl
