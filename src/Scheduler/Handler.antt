-- ===== src/Scheduler/Handler.antt =====
-- internal/scheduler/service/coordinate/handler.go: what a scheduler answers to clients and to its
-- peers. A new job's object is at an address that the caller gives; a fresh ID is an argument.
use not_ahivemind.Base.{
  ℕ, ◌+◌, ◌-◌, ◌%◌, ◌^◌, ltb, Bool, true, false, not, ◌&&◌, Option, none, some, List, [], ◌∷◌,
  if◌then◌else◌, length, Text, text_eq, Map, insert,
}
use not_ahivemind.Base.Int.{ℤ, pos, negsuc}
use not_ahivemind.Models.{Status, status_name}
use not_ahivemind.Arbiter.Queue.{to_int32}
use not_ahivemind.Scheduler.State.{
  JobRef, ClusterState, State, append_job, find_job, pending_jobs, active_jobs, finished_jobs,
  queue_free_completed_job, write,
}
use not_ahivemind.Scheduler.Externs.{cluster_state, least_utilized_cluster, at_maximum_capacity}
use not_ahivemind.Scheduler.Peers.{update_scheduler_state}

pub record JobRequest : Type 0 where
  pub image_alias : Text
  pub required_nano_cpu : ℤ
  pub required_memory_bytes : ℤ
  pub priority : ℤ
  pub payload : List ℕ

-- `&core.Job{...}`: the fields that are not named are zero.
unfoldable pub new_job : ℕ → Text → JobRequest → JobRef
new_job address id req = record {
  address = address;
  id = id;
  image_alias = req.image_alias;
  cpu_requirement = req.required_nano_cpu;
  memory_requirement = req.required_memory_bytes;
  priority = req.priority;
  payload = req.payload;
}

unfoldable pub put_job : JobRef → State → State
put_job job s = record s {
  job_cells =
      write job.address
        (record { status = Status.pending; assigned_cluster_id = []; response = [] }) s.job_cells;
}

pub record JobResponse : Type 0 where
  pub job_id : Text
  pub accept : Bool

-- RequestJob.
unfoldable pub request_job : ℕ → Text → JobRequest → State → State × JobResponse
unfolding new_job put_job
request_job address id req s =
    let job = new_job address id req in
    (append_job job (put_job job s), record { job_id = id; accept = true })

pub record StatusResponse : Type 0 where
  pub job_id : Text
  pub status : Text
  pub priority : ℤ
  pub image_alias : Text
  pub payload : List ℕ
  pub result : List ℕ

-- "NOT_FOUND".
abbrev pub not_found : Text
not_found = 78 ∷ 79 ∷ 84 ∷ 95 ∷ 70 ∷ 79 ∷ 85 ∷ 78 ∷ 68 ∷ []

abbrev pub is_completed : Status → Bool
is_completed Status.completed = true
is_completed _ = false

-- `int32(n)` of an `int64`.
unfoldable pub wrap_int32 : ℤ → ℤ
unfolding to_int32
wrap_int32 (pos n) = to_int32 n
wrap_int32 (negsuc n) =
    let r = n % 2 ^ 32 in if ltb r (2 ^ 31) then negsuc r else pos (2 ^ 32 - 1 - r)

unfoldable pub describe : JobRef → State → StatusResponse
unfolding wrap_int32
describe job s = record {
  job_id = job.id;
  status = status_name (s.job_cells job.address).status;
  priority = wrap_int32 job.priority;
  image_alias = job.image_alias;
  payload = job.payload;
  result = (s.job_cells job.address).response;
}

-- RequestJobStatus; `none` is a nil answer.
answer_status : Text → ℕ → Option JobRef → State → State × Option StatusResponse
unfolding describe
answer_status job_id now none s = (
  s,
  some (record {
    job_id = job_id;
    status = not_found;
    priority = negsuc 0;
    image_alias = [];
    payload = [];
    result = [];
  }),
)
answer_status job_id now (some job) s =
    if is_completed (s.job_cells job.address).status
    then (let marked = queue_free_completed_job job_id now s in
        if marked.1 then (marked.0, none) else (marked.0, some (describe job marked.0)))
    else (s, some (describe job s))

unfoldable pub request_job_status : Text → ℕ → State → State × Option StatusResponse
unfolding answer_status
request_job_status job_id now s = answer_status job_id now (find_job job_id s) s

pub record RedistributeRequest : Type 0 where
  pub origin_scheduler_id : Text
  pub job_id : Text
  pub gossip : Bool
  pub job : JobRequest

pub record RedistributeResponse : Type 0 where
  pub job_id : Text
  pub assigned_scheduler_id : Text
  pub accept : Bool

abbrev pub can_take : RedistributeRequest → State → Bool
can_take req s = not (
    text_eq (least_utilized_cluster req.job.required_nano_cpu req.job.required_memory_bytes s) []
    && at_maximum_capacity req.job.required_nano_cpu req.job.required_memory_bytes s)

-- Redistribute, of a request that has its optional fields.
unfoldable pub take_redistributed : ℕ → RedistributeRequest → State → State × RedistributeResponse
unfolding new_job put_job
take_redistributed address req s =
    let job = new_job address req.job_id req.job in
    let response : RedistributeResponse = record {
      job_id = req.job_id;
      assigned_scheduler_id = s.id;
      accept = can_take req s;
    } in
    if can_take req s
    then (if req.gossip then (s, response) else (append_job job (put_job job s), response))
    else (s, response)

pub record ClusterUsage : Type 0 where
  pub cluster_id : Text
  pub cpu_usage : ℤ
  pub mem_usage : ℤ
  pub total_cpu : ℤ
  pub total_mem : ℤ

unfoldable pub usage_states : ℕ → List ClusterUsage → Map ClusterState → Map ClusterState
usage_states now [] states = states
usage_states now (u ∷ us) states = usage_states now us (
    insert u.cluster_id
      (cluster_state u.cluster_id u.cpu_usage u.mem_usage u.total_cpu u.total_mem now) states)

-- Heartbeat.
unfoldable pub heartbeat : Text → List ClusterUsage → ℕ → State → State
unfolding usage_states
heartbeat scheduler_id usage now s =
    (update_scheduler_state scheduler_id (usage_states now usage []) now s).0

pub record JobList : Type 0 where
  pub total_jobs : ℤ
  pub completed_job_id : List Text
  pub running_job_id : List Text
  pub pending_job_id : List Text

-- ListJobs.
unfoldable pub list_jobs : State → JobList
list_jobs s = record {
  total_jobs =
      to_int32 (length (finished_jobs s) + length (active_jobs s) + length (pending_jobs s));
  completed_job_id = finished_jobs s;
  running_job_id = active_jobs s;
  pending_job_id = pending_jobs s;
}
