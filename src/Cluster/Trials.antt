-- ===== src/Cluster/Trials.antt =====
-- Runs of the containers of a cluster node: the theorems about them, applied.
use not_ahivemind.Base.{
  ◌≡◌, ◌⊎◌, refl, true, false, Option, none, some, [], ◌∷◌, arith, text_eq, lookup, remove,
}
use not_ahivemind.Base.Int.{pos, ◌-ℤ◌}
use not_ahivemind.Arbiter.Queue.{
  filter, less, fits, slice_stable, place_item, take_first, compacted, sort_and_compact,
  pop_best_fit, pop_best_fit_heuristic,
}
use not_ahivemind.Cluster.Jobs.{
  packing_in_progress, next_best_job, choose_job, start_job, is_free, active_utilization,
}
use not_ahivemind.Cluster.Container.{
  Container, free, running, fine, failed, created, Inspection, health, is_up, wait_until_ready,
}
use not_ahivemind.Cluster.Pool.{fits_image, available_image_names}
use not_ahivemind.Cluster.Packing.{Node, PackIo, pack_error, pack_next_job}
use not_ahivemind.Cluster.Search.{taken, pack_next_job_stuck}
use not_ahivemind.Arbiter.Queue.{new_queue}
use not_ahivemind.Arbiter.Reachable.{new_queue-IsQueue}
use not_ahivemind.Cluster.Jobs.{job_accessors}
use not_ahivemind.Cluster.Pool.{find}
use not_ahivemind.Cluster.Packing.{assign_job, finish_job}
use not_ahivemind.Cluster.Assigning.{IsBack, IsRunning, assign_job_cases}
use not_ahivemind.Cluster.Finishing.{finish_job_lem}
use not_ahivemind.Base.{◌++◌}
use not_ahivemind.Cluster.Container.{reserved}
use not_ahivemind.Cluster.Readiness.{next_poll, no_poll, wait_until_ready_ends}
use not_ahivemind.Cluster.Samples.{small_image, started_job, queued-IsQueue, one_pending}

-- A container of the image of the small job, that runs a job.
abbrev pub busy : Container
busy = record {
  id = 99 ∷ [];
  image = small_image;
  docker_id = 100 ∷ [];
  local_port = [];
  payload_location = [];
  results_closed = false;
  total_jobs = 1;
  state = running;
  last_state_change = 0;
  assigned_job_id = 5 ∷ [];
}

-- A free one, of another image.
abbrev pub idle : Container
idle = record busy { id = 98 ∷ []; image = record small_image { alias = 122 ∷ [] }; state = free }

abbrev pub all_up : Container → Option Inspection
all_up c = some (record { is_running = true; health = none })

abbrev busy_node : Node
busy_node = record { jobs = one_pending; pool = busy ∷ idle ∷ [] }

abbrev pack_io : PackIo
pack_io = record {
  max_cpu = pos 8;
  max_mem = pos 8;
  inspect = all_up;
  port = none;
  new_id = [];
  payload_dir = [];
  creation = created (7 ∷ []);
  now = 0;
}

busy_node-taken : (taken pack_io busy_node).0 ≡ some started_job
unfolding next_best_job choose_job start_job is_free active_utilization available_image_names health
    ◌-ℤ◌ pop_best_fit pop_best_fit_heuristic compacted sort_and_compact filter slice_stable
    place_item less take_first fits lookup remove text_eq
busy_node-taken = refl

pack_next_job_stuck_example :
    ((pack_next_job pack_io busy_node).1 ≡ pack_error)
    × ((pack_next_job pack_io busy_node).0.pool ≡ busy_node.pool)
    × (lookup started_job.id (pack_next_job pack_io busy_node).0.jobs.active ≡ some started_job)
    × (started_job.assigned_container_id ≡ packing_in_progress)
unfolding fits_image is_up text_eq
pack_next_job_stuck_example =
    pack_next_job_stuck pack_io busy_node started_job queued-IsQueue busy_node-taken refl refl refl

wait_until_ready_ends_example :
    (wait_until_ready 100000000 ((0, none) ∷ (300000000, none) ∷ []) ≡ some fine)
    ⊎ (wait_until_ready 100000000 ((0, none) ∷ (300000000, none) ∷ []) ≡ some failed)
wait_until_ready_ends_example =
    wait_until_ready_ends 100000000 (0, none) ((300000000, none) ∷ [])
      (next_poll {earliest = 0} (omega arith) (next_poll (omega arith) no_poll)) (omega arith)

-- The job is packed, and its container is reserved.
abbrev packed_node : Node
packed_node = record {
  jobs = record { pending = new_queue; active = (1 ∷ [], started_job) ∷ []; completed = [] };
  pool = record busy { state = reserved } ∷ [];
}

assign_job_cases_example :
    let r = assign_job true true 5 started_job (99 ∷ []) packed_node in
    ((r.1 ≡ false) × IsBack started_job r.0.jobs)
    ⊎ ((r.1 ≡ true) × IsRunning started_job (99 ∷ []) r.0)
unfolding lookup find text_eq
assign_job_cases_example =
    assign_job_cases started_job packing_in_progress (99 ∷ []) 5 true true
      (record busy { state = reserved }) packed_node (new_queue-IsQueue job_accessors) refl refl

-- The job runs in its container.
abbrev pub running_node : Node
running_node = record {
  jobs = record {
    pending = new_queue;
    active = (1 ∷ [], record started_job { assigned_container_id = 99 ∷ [] }) ∷ [];
    completed = [];
  };
  pool = record busy { assigned_job_id = 1 ∷ [] } ∷ [];
}

started_job-IsRunning : IsRunning started_job (99 ∷ []) running_node
unfolding lookup find text_eq
started_job-IsRunning = record {
  active = refl;
  container = record busy { assigned_job_id = 1 ∷ [] };
  held = refl;
  state = refl;
  holds = refl;
}

finish_job_lem_example :
    let after = finish_job 6 started_job (99 ∷ []) (7 ∷ []) running_node in
    (lookup started_job.id after.jobs.active ≡ none)
    × (after.jobs.completed
        ≡ running_node.jobs.completed
          ++ record started_job {
            assigned_container_id = 99 ∷ [];
            payload = 7 ∷ [];
            succeeded = true;
          }
            ∷ [])
    × (find (99 ∷ []) after.pool
        ≡ some (record busy { state = free; assigned_job_id = []; last_state_change = 6 }))
unfolding started_job-IsRunning
finish_job_lem_example =
    finish_job_lem 6 started_job (99 ∷ []) (7 ∷ []) running_node started_job-IsRunning refl refl
