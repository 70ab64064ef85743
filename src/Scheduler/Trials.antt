-- ===== src/Scheduler/Trials.antt =====
-- Runs of what a scheduler answers and clears: the theorems about them, applied.
use not_ahivemind.Base.{◌≡◌, ◌⊎◌, refl, true, false, not, ◌&&◌, [], ◌∷◌, lookup, has, length}
use not_ahivemind.Base.Int.{pos}
use not_ahivemind.Models.{Status}
use not_ahivemind.Arbiter.Packing.{orders}
use not_ahivemind.Scheduler.State.{State}
use not_ahivemind.Scheduler.Retention.{clear_completed_jobs, is_due}
use not_ahivemind.Scheduler.Runs.{AllAllowed, run, run_refines}
use not_ahivemind.Scheduler.Externs.{least_utilized_cluster, at_maximum_capacity}
use not_ahivemind.Scheduler.Handler.{RedistributeRequest, new_job, can_take, take_redistributed}
use not_ahivemind.Scheduler.Clearing.{clear_completed_jobs_lem}
use not_ahivemind.Scheduler.Admission.{IsAdmitted, response, take_redistributed_cases}
use not_ahivemind.Scheduler.Samples.{small_job, new_cell, large_cluster, start}

-- The small job has failed.
abbrev one_failed : State
one_failed = record start {
  jobs = (1 ∷ [], small_job) ∷ [];
  completed_jobs = (1 ∷ [], tt) ∷ [];
  job_cells = λ a. record new_cell { status = Status.failed };
}

clear_completed_jobs_lem_example : has (1 ∷ []) (clear_completed_jobs 20 one_failed).jobs ≡ (
    has (1 ∷ []) one_failed.jobs
    && not (
        has (1 ∷ []) one_failed.completed_jobs
        && is_due 20 (length one_failed.completed_jobs) (lookup (1 ∷ []) one_failed.read_jobs)))
clear_completed_jobs_lem_example = clear_completed_jobs_lem 20 (1 ∷ []) one_failed

abbrev offer : RedistributeRequest
offer = record {
  origin_scheduler_id = 83 ∷ [];
  job_id = 1 ∷ [];
  gossip = false;
  job = record {
    image_alias = 97 ∷ [];
    required_nano_cpu = pos 2;
    required_memory_bytes = pos 2;
    priority = pos 3;
    payload = [];
  };
}

take_redistributed_cases_example :
    ((least_utilized_cluster (pos 2) (pos 2) start ≡ [])
      × (at_maximum_capacity (pos 2) (pos 2) start ≡ true)
      × (take_redistributed 4 offer start ≡ (start, response 4 offer start false)))
    ⊎ ((can_take offer start ≡ true)
        × ((take_redistributed 4 offer start).1 ≡ response 4 offer start true)
        × (((offer.gossip ≡ true) × ((take_redistributed 4 offer start).0 ≡ start))
            ⊎ ((offer.gossip ≡ false)
                × IsAdmitted
                    (new_job 4 offer.job_id offer.job)
                    start
                    (take_redistributed 4 offer start).0)))
unfolding lookup orders AllAllowed run
take_redistributed_cases_example =
    take_redistributed_cases 4 offer start
      (run_refines [] [] (λ a. new_cell) (λ a. large_cluster) [] tt).0 refl refl
