-- ===== src/Cluster/Checkups.antt =====
-- Runs of the health checks of a cluster node: the theorems about them, applied.
use not_ahivemind.Base.{
  ℕ, ◌*◌, ◌≡◌, refl, Bool, true, false, Option, none, some, List, [], ◌∷◌, ◌++◌, arith, ◌==◌,
  if◌then◌else◌, Text, All, lookup,
}
use not_ahivemind.Cluster.Jobs.{Job, pending_jobs}
use not_ahivemind.Cluster.Container.{Container, fine, failed, Removal, Inspection, health, cleanup}
use not_ahivemind.Cluster.Pool
use not_ahivemind.Cluster.Health.{
  second, rule_unresponsive, judge, condemn, check_each, run_health_rule, health_rules, health_tick,
}
use not_ahivemind.Cluster.Upkeep.{is_doomed}
use not_ahivemind.Cluster.Losses.{Among, IsFailed, failure, lost, lost_jobs}
use not_ahivemind.Cluster.Sweeping.{kept, health_tick_lem}
use not_ahivemind.Cluster.Leaks.{health_tick_stuck}
use not_ahivemind.Cluster.Watching.{DirEntry, FileIo, opens, watch_entries}
use not_ahivemind.Cluster.Collecting.{Ends, watch_entries-Ends}
use not_ahivemind.Cluster.Trials.{busy, idle, running_node}

-- Docker says that the running container has stopped.
abbrev all_down : Container → Option Inspection
all_down c = some (record { is_running = false; health = none })

abbrev removes : Removal
removes = record { removes_container = true; removes_directory = true }

abbrev refuses : Removal
refuses = record { removes_container = false; removes_directory = true }

abbrev worker : Container
worker = record busy { assigned_job_id = 1 ∷ [] }

abbrev tick_time : ℕ
tick_time = 10 * second

abbrev pool : Pool.Pool
pool = worker ∷ idle ∷ []

health_tick_well :
    (health_tick all_down (λ c. removes) (λ id. removes) tick_time pool running_node.jobs).1 ≡ fine
unfolding health_tick run_health_rule check_each health_rules judge rule_unresponsive health condemn
    cleanup
health_tick_well = refl

health_tick_lem_example :
    let judged = is_doomed all_down tick_time (pending_jobs running_node.jobs) in
    let ((cs', j'), ended) =
      health_tick all_down (λ c. removes) (λ id. removes) tick_time pool running_node.jobs in
    (cs' ≡ kept judged pool)
    × (j'.pending ≡ running_node.jobs.pending)
    × ((id : Text)
        → lookup id j'.active
          ≡ (if lost judged id pool then none else lookup id running_node.jobs.active))
    × ((added : List Job) × (j'.completed ≡ running_node.jobs.completed ++ added)
        × (added ≡ lost_jobs judged running_node.jobs.active [] pool)
        × All IsFailed added
        × ((id : Text) (job : Job)
            → lost judged id pool ≡ true
            → lookup id running_node.jobs.active ≡ some job
            → Among (failure job) added))
health_tick_lem_example =
    health_tick_lem all_down (λ c. removes) (λ id. removes) tick_time pool running_node.jobs
      ((λ p. ground arith, tt), (tt, tt)) health_tick_well

health_tick_stuck_example :
    let ((cs', j'), ended) =
      health_tick all_down (λ c. refuses) (λ id. removes) tick_time pool running_node.jobs in
    (ended ≡ failed)
    × (cs' ≡ (cleanup refuses tick_time worker).0 ∷ idle ∷ [])
    × ((inspect' : Container → Option Inspection) (now' : ℕ) (waiting : List Job)
        → is_doomed inspect' now' waiting (cleanup refuses tick_time worker).0 ≡ false)
unfolding is_doomed health cleanup
health_tick_stuck_example =
    health_tick_stuck all_down (λ c. refuses) (λ id. removes) tick_time [] (idle ∷ []) worker
      running_node.jobs tt refl refl

-- A directory with one result, one file of another kind and one that is not valid.
abbrev entries : List DirEntry
entries =
    record { name = 97 ∷ 46 ∷ 74 ∷ 115 ∷ 111 ∷ 110 ∷ []; is_regular = true }
    ∷ record { name = 98 ∷ []; is_regular = true }
    ∷ record { name = 99 ∷ 46 ∷ 106 ∷ 115 ∷ 111 ∷ 110 ∷ []; is_regular = true }
    ∷ []

abbrev reads_name : Text → FileIo
reads_name name = record { reads = λ i. opens (some name) true; removes = true }

abbrev starts_with_a : List ℕ → Bool
starts_with_a [] = false
starts_with_a (c ∷ cs) = c == 97

watch_entries-Ends_example :
    Ends starts_with_a reads_name entries (watch_entries starts_with_a reads_name entries)
watch_entries-Ends_example = watch_entries-Ends starts_with_a reads_name entries
