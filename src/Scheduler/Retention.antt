-- ===== src/Scheduler/Retention.antt =====
-- ClearCompletedJobs of internal/scheduler/states/state.go.
use not_ahivemind.Base.{
  ℕ, ◌-◌, Bool, false, ◌||◌, Option, none, some, List, [], ◌∷◌, ltb, if◌then◌else◌, length, Text,
  lookup,
}
use not_ahivemind.Scheduler.State.{Names, State, purge_job, seconds}

-- `time.Since(value) > 10*time.Second || len(s.completedJobs) > 100`, of a job that was read.
unfoldable pub is_due : ℕ → ℕ → Option ℕ → Bool
is_due now completed none = false
is_due now completed (some read_at) = ltb (seconds 10) (now - read_at) || ltb 100 completed

unfoldable pub due_jobs : ℕ → Names → State → List Text
unfolding is_due
due_jobs now [] s = []
due_jobs now ((id, _) ∷ names) s =
    let rest = due_jobs now names s in
    if is_due now (length s.completed_jobs) (lookup id s.read_jobs) then id ∷ rest else rest

unfoldable pub purge_all : List Text → State → State
purge_all [] s = s
purge_all (job_id ∷ job_ids) s = purge_all job_ids (purge_job job_id s)

-- One tick of ClearCompletedJobs, with no other call between its lock and its purges.
unfoldable pub clear_completed_jobs : ℕ → State → State
unfolding due_jobs purge_all
clear_completed_jobs now s = purge_all (due_jobs now s.completed_jobs s) s
