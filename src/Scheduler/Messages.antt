-- ===== src/Scheduler/Messages.antt =====
-- What a scheduler puts on the wire and takes from it: internal/scheduler/service/cluster,
-- internal/scheduler/service/consensus/requests.go and internal/scheduler/core/models.go. Pointers that
-- may be nil are options.
use not_ahivemind.Base.{
  ℕ, Bool, true, false, not, ◌||◌, Option, none, some, List, [], ◌∷◌, if◌then◌else◌, Text, text_eq,
}
use not_ahivemind.Base.Int.{ℤ, pos, leb_ℤ}
use not_ahivemind.Models.{Status, JobPayload, SchedulerPayload}
use not_ahivemind.Scheduler.State.{JobRef, JobCell, State, assign_job}

-- ClusterStatusResponse and Status.
pub record ClusterStatusResponse : Type 0 where
  pub node_id : Text
  pub node_address : Text
  pub total_nano_cpu : ℤ
  pub total_memory_bytes : ℤ
  pub available_nano_cpu : ℤ
  pub available_memory_bytes : ℤ
  pub active_job_ids : List Text

pub record ClusterStatus : Type 0 where
  pub node_id : Text
  pub address : Text
  pub total_cpu : ℤ
  pub total_memory : ℤ
  pub available_cpu : ℤ
  pub available_memory : ℤ
  pub active_job_ids : List Text
  pub last_updated : ℕ

unfoldable pub parse_cluster_status : ℕ → Option ClusterStatusResponse → Option ClusterStatus
parse_cluster_status now none = none
parse_cluster_status now (some resp) = some (record {
  node_id = resp.node_id;
  address = resp.node_address;
  total_cpu = resp.total_nano_cpu;
  total_memory = resp.total_memory_bytes;
  available_cpu = resp.available_nano_cpu;
  available_memory = resp.available_memory_bytes;
  active_job_ids = resp.active_job_ids;
  last_updated = now;
})

-- The values of the enumeration JobStatus, any other number included.
pub data WireStatus : Type 0 where
  status_pending status_running status_completed status_failed : WireStatus
  status_other : ℕ → WireStatus

pub record JobStatusResponse : Type 0 where
  pub job_id : Text
  pub status : WireStatus
  pub priority : ℤ
  pub image_alias : Text
  pub payload : List ℕ

pub record JobEvent : Type 0 where
  pub job_id : Text
  pub status : Status
  pub priority : ℤ
  pub image_alias : Text
  pub payload : List ℕ
  pub succeeded : Bool

unfoldable pub parse_status : WireStatus → Status
parse_status status_pending = Status.pending
parse_status status_running = Status.running
parse_status status_completed = Status.completed
parse_status status_failed = Status.failed
parse_status (status_other n) = Status.failed

unfoldable pub parse_job_event : Option JobStatusResponse → Option JobEvent
unfolding parse_status
parse_job_event none = none
parse_job_event (some resp) = some (record {
  job_id = resp.job_id;
  status = parse_status resp.status;
  priority = resp.priority;
  image_alias = resp.image_alias;
  payload = resp.payload;
  succeeded = false;
})

-- CommitJob fills these fields of the object that goes into the log, and no others.
unfoldable pub commit_object : JobRef → JobCell → JobPayload
commit_object job cell = record {
  id = job.id;
  state = cell.status;
  image = job.image_alias;
  priority = job.priority;
  cpu_requirement = pos 0;
  memory_requirement = pos 0;
  payload = job.payload;
}

-- CastFromGlobalModel, into the job at an address.
unfoldable pub cast_from_global_model : ℕ → JobPayload → JobRef × JobCell
cast_from_global_model address job = (
  record {
    address = address;
    id = job.id;
    image_alias = job.image;
    cpu_requirement = job.cpu_requirement;
    memory_requirement = job.memory_requirement;
    priority = job.priority;
    payload = job.payload;
  },
  record { status = job.state; assigned_cluster_id = []; response = [] },
)

-- What FetchData gives: an error, or the payloads and whether there are any.
pub data Fetched : Type 0 where
  fetch_failed : Fetched
  fetched : List (List ℕ) → Bool → Fetched

-- FetchJob, with the decoder of JSON; `none` is an error.
unfoldable pub fetch_job : (List ℕ → Option JobPayload) → ℕ → Fetched → Option (JobRef × JobCell)
fetch_job unmarshal address fetch_failed = none
fetch_job unmarshal address (fetched [] found) = none
fetch_job unmarshal address (fetched (first ∷ others) found) =
    if found
    then (elim (unmarshal first) [
      | none ↦ none
      | some job ↦ some (cast_from_global_model address job)
    ])
    else none

-- FetchSchedulerEvent; `none` is an error.
unfoldable pub fetch_scheduler_event :
    (List ℕ → Option SchedulerPayload) → Text → Fetched → Option SchedulerPayload
fetch_scheduler_event unmarshal scheduler_id fetch_failed = none
fetch_scheduler_event unmarshal scheduler_id (fetched [] found) = none
fetch_scheduler_event unmarshal scheduler_id (fetched (first ∷ others) found) =
    if found
    then (elim (unmarshal first) [
      | none ↦ none
      | some event ↦ if text_eq event.id scheduler_id then some event else none
    ])
    else none

pub data DispatchError : Type 0 where
  offline no_id no_image no_requirement grpc_error : DispatchError

pub data DispatchReply : Type 0 where
  failed : DispatchError → DispatchReply
  answered : Bool → DispatchReply

abbrev pub is_empty_text : Text → Bool
is_empty_text [] = true
is_empty_text (c ∷ cs) = false

-- The cluster's answer: `none` is an error of the call.
after_append : Text → JobRef → Option Bool → State → State × DispatchReply
after_append node_id job none s = (s, failed grpc_error)
after_append node_id job (some false) s = (s, answered false)
after_append node_id job (some true) s = ((assign_job job.id node_id s).0, answered true)

-- DispatchJob, of a connection to the node `node_id`.
unfoldable pub dispatch_job : Text → Bool → Option Bool → JobRef → State → State × DispatchReply
unfolding after_append
dispatch_job node_id connected answer job s =
    if not connected
    then (s, failed offline)
    else if is_empty_text job.id
    then (s, failed no_id)
    else if is_empty_text job.image_alias
    then (s, failed no_image)
    else if leb_ℤ job.cpu_requirement (pos 0) || leb_ℤ job.memory_requirement (pos 0)
    then (s, failed no_requirement)
    else after_append node_id job answer s
