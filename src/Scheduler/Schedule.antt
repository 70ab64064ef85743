-- ===== src/Scheduler/Schedule.antt =====
-- A tick of the loop of internal/scheduler/packer/pack.go: reallocateDeadClusterJobs of monitor.go, and a
-- batch of processPendingJobs with its routines.
use not_ahivemind.Base.{ℕ, List, [], ◌∷◌, Text}
use not_ahivemind.Scheduler.State.{JobRef, State, unassign_job, jobs_in_cluster, seconds}
use not_ahivemind.Scheduler.Externs.{stale_clusters}
use not_ahivemind.Scheduler.Peers.{PeerScore}
use not_ahivemind.Scheduler.Packer.{
  calculate_redistribution_quota, process_pending_jobs, RoutineIo, execute_job_assignment,
}

-- The routines of a batch, one after another.
unfoldable pub execute_each :
    (List PeerScore → List PeerScore)
    → (JobRef → RoutineIo)
    → List (JobRef × Text)
    → ℕ
    → ℕ
    → State
    → State
unfolding execute_job_assignment
execute_each sort_slice outcomes [] redistributed quota s = s
execute_each sort_slice outcomes ((job, target) ∷ jobs) redistributed quota s =
    let r = execute_job_assignment sort_slice (outcomes job) job target redistributed quota s in
    execute_each sort_slice outcomes jobs r.1 quota r.0

-- processPendingJobs, with the routines after the turns.
unfoldable pub process_batch :
    (List PeerScore → List PeerScore)
    → (JobRef → RoutineIo)
    → ℕ
    → (ℕ → ℕ)
    → State
    → List (JobRef × Text) × State
unfolding execute_each process_pending_jobs
process_batch sort_slice outcomes limit seen s =
    let r = process_pending_jobs limit seen s in
    (r.0, execute_each sort_slice outcomes r.0 0 (calculate_redistribution_quota limit) r.1)

-- reallocateDeadClusterJobs, of packer/monitor.go.
unfoldable pub unassign_all : List Text → State → State
unassign_all [] s = s
unassign_all (id ∷ ids) s = unassign_all ids (unassign_job id s)

unfoldable pub reallocate_from : List Text → State → State
unfolding unassign_all
reallocate_from [] s = s
reallocate_from (cluster ∷ clusters) s =
    reallocate_from clusters (unassign_all (jobs_in_cluster cluster s) s)

unfoldable pub reallocate_dead_cluster_jobs : ℕ → State → State
unfolding reallocate_from
reallocate_dead_cluster_jobs now s = reallocate_from (stale_clusters now (seconds 5) s) s

-- A tick of the loop of packer/pack.go.
unfoldable pub schedule_tick :
    (List PeerScore → List PeerScore) → (JobRef → RoutineIo) → (ℕ → ℕ) → ℕ → State → State
unfolding reallocate_dead_cluster_jobs process_batch
schedule_tick sort_slice outcomes seen now s =
    (process_batch sort_slice outcomes 50 seen (reallocate_dead_cluster_jobs now s)).1
