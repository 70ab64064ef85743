-- ===== src/Raft/Heartbeat.antt =====
-- internal/consensus/service/retention.go: the leader's heartbeats, and the index it keeps per peer.
use not_ahivemind.Base.{
  ℕ, ◌+◌, ◌-◌, Bool, true, false, not, ◌||◌, Option, none, some, List, [], ◌∷◌, ltb, ◌==◌,
  if◌then◌else◌, Text, Map, insert,
}
use not_ahivemind.Storage.Handler.{Handler}
use not_ahivemind.Storage.Reader
use not_ahivemind.Raft.State.{is_leader, Moment}
use not_ahivemind.Raft.Node.{Node, check_step_down}
use not_ahivemind.Raft.Append.{
  AppendRequest, AppendResponse, success, bad_payload, needs_snapshot, failed_consensus,
  concurrent_claim, bad_origin_id, is_empty,
}
use not_ahivemind.Raft.Catchup.{fill_request}

-- initNextIndex, over the peers' identifiers.
unfoldable pub init_next_index : Handler → List Text → Map ℕ → Map ℕ
init_next_index h [] next_index = next_index
init_next_index h (id ∷ ids) next_index =
    init_next_index h ids (insert id (h.prev_index + 1) next_index)

-- buildHeartbeatRequest, and whether the request has a payload.
unfoldable pub build_heartbeat : Text → ℕ → ℕ → Handler → AppendRequest × Bool
build_heartbeat leader_id term ni h =
    let empty : AppendRequest = record {
      origin_node_id = leader_id;
      request_id = [];
      term = term;
      index = 0;
      prev_log_term = if ni - 1 == h.disc_index then h.disc_term else 0;
      prev_log_index = ni - 1;
      scheduler_id = [];
      payload = [];
    } in
    let req = fill_request ni (Reader.entries (ni - 1) (ni + 1) h) empty in
    (req, not (is_empty req.payload))

-- sendHeartbeatToPeer up to the RPC: nothing once the node leads no more, or in another term.
unfoldable pub send_heartbeat : Text → ℕ → ℕ → Node → Option (AppendRequest × Bool)
send_heartbeat leader_id term ni n =
    if not (is_leader n.state.role) || not (n.state.current_term == term)
    then none
    else some (build_heartbeat leader_id term ni n.handler)

step_index : Text → ℕ → Map ℕ → Node × Bool → Node × Map ℕ
step_index id ni next_index (n, true) = (n, next_index)
step_index id ni next_index (n, false) =
    (n, if ltb 1 ni then insert id (ni - 1) next_index else next_index)

-- processHeartbeatResponse. Only the three statuses that a peer gives do something.
unfoldable pub process_heartbeat :
    Moment → Text → AppendResponse → ℕ → Bool → Map ℕ → Node → Node × Map ℕ
unfolding step_index
process_heartbeat t id resp ni has_payload next_index n = elim resp.status [
  | success ↦ (n, if has_payload then insert id (ni + 1) next_index else next_index)
  | bad_payload ↦ step_index id ni next_index (check_step_down t resp.prev_log_term n)
  | needs_snapshot ↦ step_index id ni next_index (check_step_down t resp.prev_log_term n)
  | bad_origin_id ↦ (n, next_index)
  | failed_consensus ↦ (n, next_index)
  | concurrent_claim ↦ (n, next_index)
]
