-- ===== src/Scheduler/Rehearsals.antt =====
-- Runs of a tick of the packer, of a hand-over and of a result: the theorems about them, applied.
use not_ahivemind.Base.{
  ◌≡◌, ◌≤◌, ◌⊎◌, refl, true, none, some, List, [], ◌∷◌, All, length, ◌&&◌, if◌then◌else◌, has, Text,
  text_eq, lookup, insert, remove,
}
use not_ahivemind.Models.{Status}
use not_ahivemind.Cluster.Jobs.{Job}
use not_ahivemind.Cluster.Samples.{started_job}
use not_ahivemind.Arbiter.Queue.{
  push, filter, less, fits, slice_stable, place_item, take_first, compacted, sort_and_compact,
  pop_best_fit, remove_by_id,
}
use not_ahivemind.Scheduler.Runs.{run}
use not_ahivemind.Scheduler.SameTables.{SameTables-IsConsistent}
use not_ahivemind.Arbiter.Packing.{orders}
use not_ahivemind.Scheduler.State.{
  JobRef, State, append_job, next_pending_job, issue_popped, set_status, set_cluster, assign_job,
  unassign_job, is_placed, jobs_placed, jobs_in_cluster, seconds,
}
use not_ahivemind.Scheduler.Lifecycle.{absent, waiting, active, finished, phase, IsConsistent, step}
use not_ahivemind.Scheduler.Externs.{stale_clusters, stale_in, seen_clusters, is_stale}
use not_ahivemind.Scheduler.Packer.{RoutineIo, accepted}
use not_ahivemind.Scheduler.Schedule.{
  unassign_all, reallocate_from, reallocate_dead_cluster_jobs, process_batch, schedule_tick,
}
use not_ahivemind.Scheduler.Coordinate.{Conn, hand_over}
use not_ahivemind.Scheduler.Rounds.{HasWaited}
use not_ahivemind.Scheduler.Batch.{IsRound, process_batch-IsRound}
use not_ahivemind.Scheduler.Settling.{assign-Frames}
use not_ahivemind.Scheduler.Stranding.{stands_in}
use not_ahivemind.Scheduler.Reallocation.{reallocate_dead_cluster_jobs_lem}
use not_ahivemind.Scheduler.Ticks.{schedule_tick_lem}
use not_ahivemind.Scheduler.Handover.{IsHandedOver, hand_over_cases}
use not_ahivemind.Scheduler.Results.{delivered, delivered_cases}
use not_ahivemind.Scheduler.Samples.{
  small_job, start, start-IsConsistent, one_waiting, one_waiting-IsConsistent, one_issued,
  one_issued-IsConsistent, one_issued-IsIssued, fine_outcome,
}

abbrev outcomes : JobRef → RoutineIo
outcomes job = fine_outcome

abbrev as_they_are {ℓ} : {A : Type ℓ} → List A → List A
as_they_are xs = xs

process_batch-IsRound_example :
    let r = process_batch as_they_are outcomes 5 (λ i. 0) one_waiting in
    IsRound outcomes r.0 one_waiting r.1 × All (HasWaited one_waiting) r.0 × (length r.0 ≤ 5)
process_batch-IsRound_example =
    process_batch-IsRound as_they_are outcomes 5 (λ i. 0) one_waiting one_waiting-IsConsistent

-- The small job runs on a cluster that was never heard of.
abbrev stranded : State
stranded = record (assign_job (1 ∷ []) (67 ∷ []) one_issued).0 { clusters = (67 ∷ [], 0) ∷ [] }

stranded-IsConsistent : IsConsistent stranded
stranded-IsConsistent =
    let v =
      (assign-Frames small_job one_issued one_issued-IsConsistent one_issued-IsIssued
        (67 ∷ [])).consistent in
    SameTables-IsConsistent _ stranded
      (record { jobs = refl; queue = refl; assigned = refl; completed = refl }) v

reallocate_dead_cluster_jobs_lem_example :
    let t = reallocate_dead_cluster_jobs 9000000000 stranded in
    let stale = stale_clusters 9000000000 (seconds 5) stranded in
    IsConsistent t
    × ((k : Text)
        → phase t k ≡ (
            if has k stranded.assigned_jobs && stands_in stale k stranded
            then waiting
            else phase stranded k))
    × ((k : Text)
        → (phase t k ≡ phase stranded k) ⊎ ((phase stranded k ≡ active) × (phase t k ≡ waiting)))
    × All (λ cluster. (cluster ≡ []) ⊎ (jobs_in_cluster cluster t ≡ [])) stale
reallocate_dead_cluster_jobs_lem_example =
    reallocate_dead_cluster_jobs_lem 9000000000 stranded stranded-IsConsistent

-- The cluster of that run is stale, and the job on it waits.
stranded_waits :
    (stale_clusters 9000000000 (seconds 5) stranded ≡ (67 ∷ []) ∷ [])
    × (phase (reallocate_dead_cluster_jobs 9000000000 stranded) (1 ∷ []) ≡ waiting)
unfolding run step append_job next_pending_job issue_popped set_status set_cluster pop_best_fit
    compacted sort_and_compact filter slice_stable place_item less take_first fits push lookup
    insert remove text_eq assign_job remove_by_id stale_clusters stale_in seen_clusters is_stale
    reallocate_dead_cluster_jobs reallocate_from unassign_all jobs_in_cluster jobs_placed is_placed
    unassign_job
stranded_waits = (refl, refl)

schedule_tick_lem_example :
    let t = schedule_tick as_they_are outcomes (λ i. 0) 7 one_waiting in
    IsConsistent t
    × ((k : Text) → phase one_waiting k ≡ finished → phase t k ≡ finished)
    × ((k : Text) → phase one_waiting k ≡ absent → phase t k ≡ absent)
    × ((k : Text)
        → phase t k ≡ absent
        → (phase one_waiting k ≡ absent)
          ⊎ ((job : JobRef) × (peer : Text) × (job.id ≡ k)
              × ((outcomes job).offers peer ≡ accepted)))
schedule_tick_lem_example =
    schedule_tick_lem as_they_are outcomes (λ i. 0) 7 one_waiting one_waiting-IsConsistent

abbrev conns : List Conn
conns = record { node_id = 80 ∷ []; connected = true } ∷ []

hand_over_cases_example :
    IsHandedOver 8 small_job one_issued start true
      (hand_over conns (80 ∷ []) true 8 small_job one_issued start)
unfolding lookup orders
hand_over_cases_example =
    hand_over_cases 8 small_job one_issued start one_issued-IsConsistent one_issued-IsIssued conns
      (80 ∷ []) true start-IsConsistent refl refl

abbrev ran : Job
ran = record started_job { payload = 7 ∷ []; succeeded = true }

delivered_cases_example :
    ((job : JobRef) × (lookup ran.id one_issued.jobs ≡ some job)
      × IsConsistent (delivered (λ n. n) ran one_issued)
      × ((k : Text)
          → phase (delivered (λ n. n) ran one_issued) k
            ≡ (if text_eq ran.id k then finished else phase one_issued k))
      × (((delivered (λ n. n) ran one_issued).job_cells job.address).status
          ≡ (if ran.succeeded then Status.completed else Status.failed))
      × (((delivered (λ n. n) ran one_issued).job_cells job.address).response ≡ ran.payload))
    ⊎ ((lookup ran.id one_issued.jobs ≡ none) × (delivered (λ n. n) ran one_issued ≡ one_issued))
delivered_cases_example = delivered_cases (λ n. n) ran one_issued one_issued-IsConsistent
