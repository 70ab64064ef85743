-- ===== src/Scheduler/Streams.antt =====
-- What a scheduler learns from its clusters: monitorJobStatuses and FetchClusterStatus of
-- internal/scheduler/service/cluster/client.go, and requestClusterState of packer/monitor.go.
use not_ahivemind.Base.{
  ℕ, Bool, true, false, not, Option, none, some, List, [], ◌∷◌, if◌then◌else◌, Text,
}
use not_ahivemind.Base.Int.{◌-ℤ◌}
use not_ahivemind.Models.{Status}
use not_ahivemind.Scheduler.State.{State, complete_job}
use not_ahivemind.Scheduler.Externs.{local_clusters, update_cluster}
use not_ahivemind.Scheduler.Messages.{
  ClusterStatusResponse, ClusterStatus, parse_cluster_status, JobStatusResponse, JobEvent,
  parse_job_event,
}

-- `none` is an error; `some none` a nil status.
unfoldable pub fetch_cluster_status :
    Bool → ℕ → Option (Option ClusterStatusResponse) → Option (Option ClusterStatus)
fetch_cluster_status connected now answer =
    if not connected
    then none
    else elim answer [ none ↦ none | some resp ↦ some (parse_cluster_status now resp) ]

-- The clusters in turn, of which the first that gives an error ends the round.
unfoldable pub request_states : (Text → Option ClusterStatus) → ℕ → List ℕ → State → State
request_states fetch now [] s = s
request_states fetch now (c ∷ cs) s =
    let id = (s.cluster_cells c).id in
    elim (fetch id) [
      | none ↦ s
      | some status ↦ request_states fetch now cs (
          update_cluster id (status.total_cpu -ℤ status.available_cpu)
            (status.total_memory -ℤ status.available_memory) status.total_cpu status.total_memory
            now s)
    ]

unfoldable pub request_cluster_state : (Text → Option ClusterStatus) → ℕ → State → State
unfolding request_states
request_cluster_state fetch now s = request_states fetch now (local_clusters s) s

unfoldable pub complete_event : Option JobEvent → State → State
complete_event none s = s
complete_event (some event) s = elim event.status [
  | Status.pending ↦ s
  | Status.running ↦ s
  | Status.completed ↦ (complete_job event.job_id event.payload true s).0
  | Status.failed ↦ (complete_job event.job_id event.payload false s).0
]

-- One message of the stream.
unfoldable pub receive_status : Option JobStatusResponse → State → State
unfolding complete_event
receive_status resp s = complete_event (parse_job_event resp) s
