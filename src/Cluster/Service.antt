-- ===== src/Cluster/Service.antt =====
-- internal/cluster/service: what a cluster node answers to its scheduler.
use not_ahivemind.Base.{
  ℕ, Bool, true, false, not, Option, none, some, List, [], ◌∷◌, map, ltb, ◌-◌, ◌*◌, if◌then◌else◌,
  Text, text_eq,
}
use not_ahivemind.Base.Int.{ℤ, ◌-ℤ◌}
use not_ahivemind.Cluster.Jobs.{Image, Job, Jobs, add_job, active_jobs, queue_utilization}
use not_ahivemind.Cluster.Container.{Ended, fine, Removal, Container}
use not_ahivemind.Cluster.Pool.{Pool, destroy_all}

-- The fields of ClusterServer that the handlers read.
pub record Server : Type 0 where
  pub node_id : Text
  pub node_address : Text
  pub total_cpu : ℤ
  pub total_memory : ℤ
  pub images : List Image

pub record JobRequest : Type 0 where
  pub job_id : Text
  pub image_alias : Text
  pub priority : ℤ
  pub payload : List ℕ

pub record JobResponse : Type 0 where
  pub job_id : Text
  pub accept : Bool
  pub assigned_node_id : Text
  pub assigned_node_port : Text

unfoldable pub find_image : Text → List Image → Option Image
find_image alias [] = none
find_image alias (i ∷ images) = if text_eq i.alias alias then some i else find_image alias images

-- NewJob.
unfoldable pub new_job : Text → Image → ℤ → List ℕ → Job
new_job id image priority payload = record {
  id = id;
  priority = priority;
  image = image;
  payload = payload;
  assigned_container_id = [];
  succeeded = false;
}

rejection : JobRequest → JobResponse
rejection req = record {
  job_id = req.job_id;
  accept = false;
  assigned_node_id = [];
  assigned_node_port = [];
}

acceptance : Server → JobRequest → JobResponse
acceptance s req = record {
  job_id = req.job_id;
  accept = true;
  assigned_node_id = s.node_id;
  assigned_node_port = s.node_address;
}

-- The only error that AddJob gives is that the job runs already, which is no reason to reject it.
append_imaged : Server → JobRequest → Option Image → Jobs → Jobs × JobResponse
unfolding rejection acceptance new_job
append_imaged s req none j = (j, rejection req)
append_imaged s req (some image) j =
    ((add_job (new_job req.job_id image req.priority req.payload) j).0, acceptance s req)

-- AppendJob; `online` is what Ping says of the Docker daemon.
unfoldable pub append_job : Bool → Server → JobRequest → Jobs → Jobs × JobResponse
unfolding append_imaged find_image rejection
append_job online s req j =
    if not online
    then (j, rejection req)
    else append_imaged s req (find_image req.image_alias s.images) j

pub record StatusResponse : Type 0 where
  pub node_id : Text
  pub node_address : Text
  pub total_nano_cpu : ℤ
  pub total_memory_bytes : ℤ
  pub available_nano_cpu : ℤ
  pub available_memory_bytes : ℤ
  pub active_job_ids : List Text

-- ClusterStatus.
unfoldable pub cluster_status : Server → Jobs → StatusResponse
cluster_status s j =
    let used = queue_utilization j in
    record {
      node_id = s.node_id;
      node_address = s.node_address;
      total_nano_cpu = s.total_cpu;
      total_memory_bytes = s.total_memory;
      available_nano_cpu = s.total_cpu -ℤ used.0;
      available_memory_bytes = s.total_memory -ℤ used.1;
      active_job_ids = map (λ job. job.id) (active_jobs j);
    }

-- A job of the channel that ListJobs sends to the scheduler.
pub record JobStatus : Type 0 where
  pub job_id : Text
  pub completed : Bool
  pub priority : ℤ
  pub image_alias : Text
  pub payload : List ℕ

unfoldable pub status_of : (ℤ → ℤ) → Job → JobStatus
status_of wrap_int32 job = record {
  job_id = job.id;
  completed = job.succeeded;
  priority = wrap_int32 job.priority;
  image_alias = job.image.alias;
  payload = job.payload;
}

-- One tick of MonitorConnection, at a time since the last contact.
unfoldable pub monitor_tick : (Container → Removal) → ℕ → ℕ → Pool → Pool × Ended
monitor_tick io last_contact now [] = ([], fine)
monitor_tick io last_contact now (c ∷ cs) =
    if ltb (5 * 1000000000) (now - last_contact) then destroy_all io (c ∷ cs) else (c ∷ cs, fine)
