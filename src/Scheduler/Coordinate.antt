-- ===== src/Scheduler/Coordinate.antt =====
-- internal/scheduler/service/coordinate/requests.go: what a scheduler sends to its peers, and OpConn of
-- handler.go, which finds the connection. What comes back over a connection is an argument.
use not_ahivemind.Base.{
  Bool, true, false, not, Option, none, some, List, [], ◌∷◌, map, if◌then◌else◌, ℕ, Text, text_eq,
}
use not_ahivemind.Scheduler.State.{JobRef, ClusterState, State, purge_job}
use not_ahivemind.Scheduler.Externs.{local_clusters}
use not_ahivemind.Scheduler.Handler.{
  RedistributeRequest, RedistributeResponse, StatusResponse, ClusterUsage, take_redistributed,
}
use not_ahivemind.Scheduler.Packer.{Offer, unconnected, rejected, accepted}

pub record Conn : Type 0 where
  pub node_id : Text
  pub connected : Bool

unfoldable pub redistribute_request : Text → JobRef → Bool → RedistributeRequest
redistribute_request origin_id job gossip = record {
  origin_scheduler_id = origin_id;
  job_id = job.id;
  gossip = gossip;
  job = record {
    image_alias = job.image_alias;
    required_nano_cpu = job.cpu_requirement;
    required_memory_bytes = job.memory_requirement;
    priority = job.priority;
    payload = job.payload;
  };
}

-- Redistribute of a connection; `none` is an error, here and below.
unfoldable pub conn_redistribute : Conn → Option RedistributeResponse → Option (Bool × Text)
conn_redistribute c answer =
    if not c.connected
    then none
    else elim answer [ none ↦ none | some resp ↦ some (resp.accept, resp.assigned_scheduler_id) ]

unfoldable pub conn_job_status : Conn → Option StatusResponse → Option StatusResponse
conn_job_status c answer = if not c.connected then none else answer

usage_of : ClusterState → ClusterUsage
usage_of u = record {
  cluster_id = u.id;
  cpu_usage = u.used_cpu;
  mem_usage = u.used_mem;
  total_cpu = u.max_cpu;
  total_mem = u.max_mem;
}

-- The request of SendHeartbeat, where it sends one.
unfoldable pub heartbeat_request : Conn → State → Option (Text × List ClusterUsage)
unfolding usage_of
heartbeat_request c s =
    if not c.connected
    then none
    else some (s.id, map (λ a. usage_of (s.cluster_cells a)) (local_clusters s))

unfoldable pub find_conn : Text → List Conn → Option Conn
find_conn scheduler_id [] = none
find_conn scheduler_id (c ∷ conns) =
    if text_eq c.node_id scheduler_id then some c else find_conn scheduler_id conns

offer_of : Option (Bool × Text) → Offer
offer_of none = rejected
offer_of (some (false, _)) = rejected
offer_of (some (true, _)) = accepted

-- OpConn with the call of Redistribute that the packer makes.
unfoldable pub offer_to : List Conn → (Text → Option RedistributeResponse) → Text → Offer
unfolding find_conn offer_of conn_redistribute
offer_to conns answer peer = elim (find_conn peer conns) [
  | none ↦ unconnected
  | some c ↦ offer_of (conn_redistribute c (answer peer))
]

-- The call of one peer, seen from both sides: the origin, then the peer. The answer may be lost.
unfoldable pub hand_over_on : Option Conn → Bool → ℕ → JobRef → State → State → State × State
unfolding redistribute_request
hand_over_on none answered address job s p = (s, p)
hand_over_on (some c) answered address job s p =
    let r = take_redistributed address (redistribute_request s.id job false) p in
    if not c.connected
    then (s, p)
    else if not answered
    then (s, r.0)
    else (if r.1.accept then purge_job job.id s else s, r.0)

unfoldable pub hand_over : List Conn → Text → Bool → ℕ → JobRef → State → State → State × State
unfolding hand_over_on find_conn
hand_over conns peer answered address job s p =
    hand_over_on (find_conn peer conns) answered address job s p
