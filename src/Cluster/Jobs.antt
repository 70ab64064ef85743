-- ===== src/Cluster/Jobs.antt =====
-- internal/cluster/scheduler/queue.go. A job is a value here; `completed` are the jobs sent into the
-- channel of that name, oldest first.
use not_ahivemind.Base.{
  ℕ, ◌+◌, Bool, true, false, ◌||◌, Option, none, some, List, [], ◌∷◌, ◌++◌, if◌then◌else◌, length,
  Text, text_eq, Map, has, lookup, insert, remove, values,
}
use not_ahivemind.Base.Int.{ℤ, pos, ltb_ℤ, ◌+ℤ◌}
use not_ahivemind.Arbiter.Queue.{
  Accessors, Queue, new_queue, clear, remove_by_id, size, to_int32, queue_items, peek_for_heuristic,
  push, pop_best_fit, pop_best_fit_heuristic,
}

-- The fields of core.Image that this part of the node reads.
pub record Image : Type 0 where
  pub alias : Text
  pub nano_cpu_limit : ℤ
  pub memory_bytes_limit : ℤ
  pub persistent : Bool
  pub max_jobs : ℤ
  pub timeout : ℤ

-- The fields of core.Job that the queue reads or writes.
pub record Job : Type 0 where
  pub id : Text
  pub priority : ℤ
  pub image : Image
  pub payload : List ℕ
  pub assigned_container_id : Text
  pub succeeded : Bool

abbrev pub job_accessors : Accessors Job
job_accessors = record {
  id_fn = λ j. j.id;
  prio_fn = λ j. j.priority;
  cpu_fn = λ j. j.image.nano_cpu_limit;
  mem_fn = λ j. j.image.memory_bytes_limit;
}

pub record Jobs : Type 0 where
  pub pending : Queue Job
  pub active : Map Job
  pub completed : List Job

-- CreateJobsQueue.
abbrev pub create_jobs_queue : Jobs
create_jobs_queue = record { pending = new_queue; active = []; completed = [] }

-- `true` is an error, here and below.
unfoldable pub add_job : Job → Jobs → Jobs × Bool
add_job job j =
    if has job.id j.active
    then (j, true)
    else (record j { pending = push job_accessors job j.pending }, false)

unfoldable pub remove_job : Text → Jobs → Jobs × Bool
remove_job id j =
    if has id j.active then (j, true) else (record j { pending = remove_by_id id j.pending }, false)

or_active : List Job → Option Job → Option Job
or_active [] active = active
or_active (job ∷ jobs) active = some job

unfoldable pub find_job : Text → Jobs → Option Job
unfolding or_active
find_job id j =
    or_active (peek_for_heuristic (λ job. text_eq job.id id) j.pending) (lookup id j.active)

unfoldable pub pending_jobs : Jobs → List Job
pending_jobs j = queue_items j.pending

unfoldable pub active_jobs : Jobs → List Job
active_jobs j = values j.active

unfoldable pub len_pending : Jobs → ℤ
len_pending j = size j.pending

unfoldable pub len_active : Jobs → ℤ
len_active j = to_int32 (length j.active)

mark_found : Text → Text → Option Job → Jobs → Jobs × Bool
mark_found id container_id none j = (j, true)
mark_found id container_id (some job) j = (
  record j { active = insert id (record job { assigned_container_id = container_id }) j.active },
  false,
)

unfoldable pub mark_running : Text → Text → Jobs → Jobs × Bool
unfolding mark_found
mark_running id container_id j = mark_found id container_id (lookup id j.active) j

complete_found : Text → List ℕ → Bool → Option Job → Jobs → Jobs × Bool
complete_found id payload success none j = (j, true)
complete_found id payload success (some job) j = (
  record j {
    active = remove id j.active;
    completed = j.completed ++ record job { payload = payload; succeeded = success } ∷ [];
  },
  false,
)

unfoldable pub mark_completed : Text → List ℕ → Bool → Jobs → Jobs × Bool
unfolding complete_found
mark_completed id payload success j = complete_found id payload success (lookup id j.active) j

rollback_found : Text → Option Job → Jobs → Jobs × Bool
rollback_found id none j = (j, true)
rollback_found id (some job) j = (
  record j {
    active = remove id j.active;
    pending = push job_accessors (record job { assigned_container_id = [] }) j.pending;
  },
  false,
)

unfoldable pub rollback_job : Text → Jobs → Jobs × Bool
unfolding rollback_found
rollback_job id j = rollback_found id (lookup id j.active) j

unfoldable pub clear_all_jobs : Jobs → Jobs
clear_all_jobs j = record {
  pending = clear j.pending;
  active = [];
  completed = j.completed ++ (values j.active ++ queue_items j.pending);
}

usage : List Job → ℤ × ℤ → ℤ × ℤ
usage [] (cpu, mem) = (cpu, mem)
usage (job ∷ jobs) (cpu, mem) =
    usage jobs (cpu +ℤ job.image.nano_cpu_limit, mem +ℤ job.image.memory_bytes_limit)

unfoldable pub active_utilization : Jobs → ℤ × ℤ
unfolding usage
active_utilization j = usage (values j.active) (pos 0, pos 0)

unfoldable pub queue_utilization : Jobs → ℤ × ℤ
unfolding usage
queue_utilization j = usage (queue_items j.pending) (usage (values j.active) (pos 0, pos 0))

unfoldable pub count_types : List Job → Map ℕ → Map ℕ
count_types [] types = types
count_types (job ∷ jobs) types = count_types jobs (
    insert job.image.alias ((elim (lookup job.image.alias types) [ none ↦ 0 | some n ↦ n ]) + 1)
      types)

unfoldable pub pending_job_types : Jobs → Map ℕ
unfolding count_types
pending_job_types j = count_types (queue_items j.pending) []

-- "packing-in-progress".
abbrev pub packing_in_progress : Text
packing_in_progress =
    112 ∷ 97 ∷ 99 ∷ 107 ∷ 105 ∷ 110 ∷ 103 ∷ 45 ∷ 105 ∷ 110 ∷ 45 ∷ 112 ∷ 114 ∷ 111 ∷ 103 ∷ 114 ∷ 101
    ∷ 115 ∷ 115 ∷ []

-- The job becomes active.
unfoldable pub start_job : Job → Jobs → Option Job × Jobs
start_job job j =
    let job' = record job { assigned_container_id = packing_in_progress } in
    (some job', record j { active = insert job.id job' j.active })

-- The two jobs that were popped: one that has a container of its image, and one that need not.
unfoldable pub choose_job : Option Job → Option Job → Jobs → Option Job × Jobs
unfolding start_job
choose_job none none j = (none, j)
choose_job (some homogenous) none j = start_job homogenous j
choose_job none (some highest) j = start_job highest j
choose_job (some homogenous) (some highest) j =
    if ltb_ℤ homogenous.priority highest.priority
    then start_job highest (record j { pending = push job_accessors homogenous j.pending })
    else start_job homogenous (record j { pending = push job_accessors highest j.pending })

unfoldable pub is_free : List Text → Text → Bool
is_free [] alias = false
is_free (name ∷ names) alias = text_eq name alias || is_free names alias

-- NextBestJob.
unfoldable pub next_best_job : List Text → ℤ → ℤ → Jobs → Option Job × Jobs
unfolding choose_job
next_best_job free_names free_cpus free_mem j =
    let (homogenous, q) =
      pop_best_fit_heuristic job_accessors free_cpus free_mem
        (λ job. is_free free_names job.image.alias) j.pending in
    let (highest, q') = pop_best_fit job_accessors free_cpus free_mem q in
    choose_job homogenous highest (record j { pending = q' })
