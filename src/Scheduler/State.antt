-- ===== src/Scheduler/State.antt =====
-- internal/scheduler/states/state.go, and the records of externs.go and of internal/scheduler/core.
-- A pointer to a job is its address with the fields that nothing assigns once the job is made; the
-- three fields that are assigned stand in a cell at the address, which every holder of the pointer
-- sees. A pointer to a cluster is an address too. Times are nanoseconds.
use not_ahivemind.Base.{
  ℕ, ◌*◌, Bool, true, false, Option, none, some, List, [], ◌∷◌, map, ◌==◌, if◌then◌else◌, Text,
  text_eq, Map, has, lookup, insert, remove,
}
use not_ahivemind.Base.Int.{ℤ}
use not_ahivemind.Models.{Status}
use not_ahivemind.Arbiter.Queue.{Accessors, Queue, new_queue, ids, remove_by_id, push, pop_best_fit}

pub record JobRef : Type 0 where
  pub address : ℕ
  pub id : Text
  pub image_alias : Text
  pub cpu_requirement : ℤ
  pub memory_requirement : ℤ
  pub priority : ℤ
  pub payload : List ℕ

pub record JobCell : Type 0 where
  pub status : Status
  pub assigned_cluster_id : Text
  pub response : List ℕ

pub record ClusterState : Type 0 where
  pub id : Text
  pub used_cpu : ℤ
  pub used_mem : ℤ
  pub max_cpu : ℤ
  pub max_mem : ℤ
  pub optimistic_updates : ℕ  -- the bits of an int16
  pub last_updated : ℕ

pub record SchedulerState : Type 0 where
  pub id : Text
  pub cluster_states : Map ClusterState
  pub last_updated : ℕ

-- `map[string]struct{}`.
abbrev pub Names : Type 0
Names = Map (Unit {0})

pub record State : Type 0 where
  pub id : Text
  pub address : Text
  pub jobs : Map JobRef
  pub unassigned_jobs : Queue JobRef
  pub assigned_jobs : Names
  pub completed_jobs : Names
  pub read_jobs : Map ℕ
  pub clusters : Map ℕ
  pub peers : List SchedulerState
  pub job_cells : ℕ → JobCell
  pub cluster_cells : ℕ → ClusterState
  pub next_cluster : ℕ  -- an address that no cluster has

abbrev pub job_accessors : Accessors JobRef
job_accessors = record {
  id_fn = λ j. j.id;
  prio_fn = λ j. j.priority;
  cpu_fn = λ j. j.cpu_requirement;
  mem_fn = λ j. j.memory_requirement;
}

-- NewState, over what the addresses hold before anything is put there.
abbrev pub new_state : Text → Text → (ℕ → JobCell) → (ℕ → ClusterState) → State
new_state id address job_cells cluster_cells = record {
  id = id;
  address = address;
  jobs = [];
  unassigned_jobs = new_queue;
  assigned_jobs = [];
  completed_jobs = [];
  read_jobs = [];
  clusters = [];
  peers = [];
  job_cells = job_cells;
  cluster_cells = cluster_cells;
  next_cluster = 0;
}

-- An assignment through a pointer.
abbrev pub write {ℓ} : {A : Type ℓ} → ℕ → A → (ℕ → A) → ℕ → A
write a v cells b = if a == b then v else cells b

unfoldable pub set_status : Status → JobRef → State → State
set_status status job s = record s {
  job_cells = write job.address (record (s.job_cells job.address) { status = status }) s.job_cells;
}

unfoldable pub set_cluster : Text → JobRef → State → State
set_cluster cluster_id job s = record s {
  job_cells =
      write job.address (record (s.job_cells job.address) { assigned_cluster_id = cluster_id })
        s.job_cells;
}

unfoldable pub set_response : List ℕ → JobRef → State → State
set_response response job s = record s {
  job_cells =
      write job.address (record (s.job_cells job.address) { response = response }) s.job_cells;
}

unfoldable pub append_job : JobRef → State → State
unfolding set_status
append_job job s =
    let s' = set_status Status.pending job s in
    record s' {
      jobs = insert job.id job s'.jobs;
      unassigned_jobs = push job_accessors job s'.unassigned_jobs;
    }

-- "packing-in-progress".
abbrev pub packing_in_progress : Text
packing_in_progress =
    112 ∷ 97 ∷ 99 ∷ 107 ∷ 105 ∷ 110 ∷ 103 ∷ 45 ∷ 105 ∷ 110 ∷ 45 ∷ 112 ∷ 114 ∷ 111 ∷ 103 ∷ 114 ∷ 101
    ∷ 115 ∷ 115 ∷ []

unfoldable pub issue_popped : Option JobRef × Queue JobRef → State → Option JobRef × State
unfolding set_status set_cluster
issue_popped (none, q) s = (none, record s { unassigned_jobs = q })
issue_popped (some job, q) s =
    let s' = record s { unassigned_jobs = q; assigned_jobs = insert job.id tt s.assigned_jobs } in
    (some job, set_status Status.running job (set_cluster packing_in_progress job s'))

unfoldable pub next_pending_job : ℤ → ℤ → State → Option JobRef × State
unfolding issue_popped
next_pending_job avail_cpu avail_mem s =
    issue_popped (pop_best_fit job_accessors avail_cpu avail_mem s.unassigned_jobs) s

assign_found : Text → Text → Option JobRef → State → State × Bool
unfolding set_status set_cluster
assign_found job_id cluster_id none s = (s, true)
assign_found job_id cluster_id (some job) s =
    let s' = record s {
      unassigned_jobs = remove_by_id job_id s.unassigned_jobs;
      assigned_jobs = insert job_id tt s.assigned_jobs;
    } in
    (set_status Status.running job (set_cluster cluster_id job s'), false)

-- `true` is an error, here and below.
unfoldable pub assign_job : Text → Text → State → State × Bool
unfolding assign_found
assign_job job_id cluster_id s = assign_found job_id cluster_id (lookup job_id s.jobs) s

complete_found : Text → List ℕ → Bool → Option JobRef → State → State × Bool
unfolding set_status set_response
complete_found job_id result success none s = (s, true)
complete_found job_id result success (some job) s =
    let s' = record s {
      assigned_jobs = remove job_id s.assigned_jobs;
      unassigned_jobs = remove_by_id job_id s.unassigned_jobs;
      completed_jobs = insert job_id tt s.completed_jobs;
    } in
    (
      set_response result job
          (set_status (if success then Status.completed else Status.failed) job s'),
      false,
    )

unfoldable pub complete_job : Text → List ℕ → Bool → State → State × Bool
unfolding complete_found
complete_job job_id result success s = complete_found job_id result success (lookup job_id s.jobs) s

unassign_found : Text → Option JobRef → State → State
unfolding set_status set_cluster set_response
unassign_found job_id none s = s
unassign_found job_id (some job) s =
    if has job_id s.completed_jobs
    then s
    else let s' = record s {
      assigned_jobs = remove job_id s.assigned_jobs;
      completed_jobs = remove job_id s.completed_jobs;
    } in
      let s'' = set_cluster [] job (set_response [] job (set_status Status.pending job s')) in
      record s'' { unassigned_jobs = push job_accessors job s''.unassigned_jobs }

unfoldable pub unassign_job : Text → State → State
unfolding unassign_found
unassign_job job_id s = unassign_found job_id (lookup job_id s.jobs) s

unfoldable pub purge_job : Text → State → State
purge_job job_id s =
    if has job_id s.jobs
    then record s {
      jobs = remove job_id s.jobs;
      unassigned_jobs = remove_by_id job_id s.unassigned_jobs;
      assigned_jobs = remove job_id s.assigned_jobs;
      completed_jobs = remove job_id s.completed_jobs;
      read_jobs = remove job_id s.read_jobs;
    }
    else s

unfoldable pub is_placed : Text → Option JobRef → State → Bool
is_placed cluster_id none s = false
is_placed cluster_id (some job) s = text_eq (s.job_cells job.address).assigned_cluster_id cluster_id

unfoldable pub jobs_placed : Text → Names → State → List Text
unfolding is_placed
jobs_placed cluster_id [] s = []
jobs_placed cluster_id ((id, _) ∷ names) s =
    let rest = jobs_placed cluster_id names s in
    if is_placed cluster_id (lookup id s.jobs) s then id ∷ rest else rest

unfoldable pub jobs_in_cluster : Text → State → List Text
unfolding jobs_placed
jobs_in_cluster cluster_id s = jobs_placed cluster_id s.assigned_jobs s

-- Job; `none` is its error.
unfoldable pub find_job : Text → State → Option JobRef
find_job job_id s = lookup job_id s.jobs

unfoldable pub pending_jobs : State → List Text
pending_jobs s = ids s.unassigned_jobs

unfoldable pub active_jobs : State → List Text
active_jobs s = map (λ e. e.0) s.assigned_jobs

unfoldable pub finished_jobs : State → List Text
finished_jobs s = map (λ e. e.0) s.completed_jobs

unfoldable pub queue_free_completed_job : Text → ℕ → State → State × Bool
queue_free_completed_job job_id now s =
    if has job_id s.jobs
    then (
      if has job_id s.read_jobs then s else record s { read_jobs = insert job_id now s.read_jobs },
      false,
    )
    else (s, true)

abbrev pub seconds : ℕ → ℕ
seconds n = n * 1000000000
