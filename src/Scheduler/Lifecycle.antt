-- ===== src/Scheduler/Lifecycle.antt =====
-- The phases of a job, the calls that move it from one to another, and the invariant of the tables of
-- internal/scheduler/states/state.go.
use not_ahivemind.Base.{
  ℕ, ◌≡◌, ◌≢◌, ◌⊎◌, Bool, true, false, Option, none, some, List, if◌then◌else◌, Text, text_eq, has,
  lookup,
}
use not_ahivemind.Base.Int.{ℤ}
use not_ahivemind.Arbiter.Packing.{IsQueue, orders}
use not_ahivemind.Arbiter.Tidy.{IsTidy}
use not_ahivemind.Scheduler.State.{
  JobRef, State, job_accessors, append_job, next_pending_job, assign_job, complete_job,
  unassign_job, purge_job, queue_free_completed_job,
}

pub data Phase : Type 0 where
  absent waiting active finished : Phase

abbrev pub phase_of : Bool → Bool → Bool → Phase
phase_of known completed assigned =
    if known then (if completed then finished else if assigned then active else waiting) else absent

-- The phase of an ID, read from the tables.
abbrev pub phase : State → Text → Phase
phase s k = phase_of (has k s.jobs) (has k s.completed_jobs) (has k s.assigned_jobs)

-- A job stands under its ID; the queue has the known jobs that are neither assigned nor completed, as
-- the table of jobs has them; none is both; and an ID that the order names still, though the queue has it
-- no more, is completed or unknown.
pub record IsConsistent (s : State) : Type 0 where
  pub queue : IsQueue job_accessors s.unassigned_jobs
  pub tidy : IsTidy job_accessors s.unassigned_jobs
  pub keyed : (k : Text) (j : JobRef) → lookup k s.jobs ≡ some j → j.id ≡ k
  pub shared :
      (k : Text) (j : JobRef) → lookup k s.unassigned_jobs.items ≡ some j → lookup k s.jobs ≡ some j
  pub queued : (k : Text) → has k s.unassigned_jobs.items ≡ true → phase s k ≡ waiting
  pub waiting_queued : (k : Text) → phase s k ≡ waiting → has k s.unassigned_jobs.items ≡ true
  pub assigned : (k : Text) → has k s.assigned_jobs ≡ true → phase s k ≡ active
  pub completed : (k : Text) → has k s.completed_jobs ≡ true → phase s k ≡ finished
  pub stale :
      (k : Text)
      → orders job_accessors k s.unassigned_jobs.order ≡ true
      → (phase s k ≡ waiting) ⊎ (phase s k ≡ finished) ⊎ (phase s k ≡ absent)

-- One call of an operation that changes the tables of jobs.
pub data Event : Type 0 where
  append : JobRef → Event
  issue : ℤ → ℤ → Event
  assign : Text → Text → Event
  complete : Text → List ℕ → Bool → Event
  unassign : Text → Event
  purge : Text → Event
  read : Text → ℕ → Event

unfoldable pub step : Event → State → State
step (append job) s = append_job job s
step (issue cpu mem) s = (next_pending_job cpu mem s).1
step (assign id cluster) s = (assign_job id cluster s).0
step (complete id result success) s = (complete_job id result success s).0
step (unassign id) s = unassign_job id s
step (purge id) s = purge_job id s
step (read id now) s = (queue_free_completed_job id now s).0

-- The ID of the job that NextPendingJob gives.
unfoldable pub issued : Event → State → Option Text
issued (issue cpu mem) s = elim (next_pending_job cpu mem s).0 [
  | none ↦ none
  | some job ↦ some job.id
]
issued _ s = none

-- A new job has an ID that neither a table nor the order has, and what is assigned is neither in the
-- queue nor completed.
abbrev pub IsAllowed : Event → State → Type 0
IsAllowed (append job) s =
    (phase s job.id ≡ absent) × (orders job_accessors job.id s.unassigned_jobs.order ≡ false)
IsAllowed (assign id cluster) s = (phase s id ≢ waiting) × (phase s id ≢ finished)
IsAllowed _ s = Unit {0}

-- What the calls promise: a table from IDs to phases, with no queue behind it.
abbrev pub move_to : Text → Phase → (Text → Phase) → Text → Phase
move_to id p phases k = if text_eq id k then p else phases k

abbrev pub move_known : Text → Phase → (Text → Phase) → Text → Phase
move_known id p phases = elim (phases id) [ absent ↦ phases | _ ↦ move_to id p phases ]

abbrev pub move_back : Text → (Text → Phase) → Text → Phase
move_back id phases = elim (phases id) [
  | absent ↦ phases
  | finished ↦ phases
  | _ ↦ move_to id waiting phases
]

unfoldable pub promised : Event → Option Text → (Text → Phase) → Text → Phase
promised (append job) _ phases = move_to job.id waiting phases
promised (issue cpu mem) none phases = phases
promised (issue cpu mem) (some id) phases = move_to id active phases
promised (assign id cluster) _ phases = move_known id active phases
promised (complete id result success) _ phases = move_known id finished phases
promised (unassign id) _ phases = move_back id phases
promised (purge id) _ phases = move_to id absent phases
promised (read id now) _ phases = phases
