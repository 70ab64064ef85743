-- ===== src/Raft/Leader.antt =====
-- internal/consensus/service/add.go: AddLog on the leader, cut where it lets go of the node's lock.
use not_ahivemind.Base.{
  ℕ, ◌+◌, ◌/◌, Bool, true, false, Option, none, some, List, [], ◌∷◌, ltb, leb, if◌then◌else◌, Text,
}
use not_ahivemind.Storage.Codec.{LogEntry}
use not_ahivemind.Storage.Handler.{Handler}
use not_ahivemind.Storage.Writer.{WriteFault, AppendError, append}
use not_ahivemind.Raft.State.{is_leader, Moment}
use not_ahivemind.Raft.Node.{Node, check_step_down, prev_log_term}
use not_ahivemind.Raft.Append.{AppendRequest, AppendResponse, AppendResponseStatus, success}

-- RawAppendRequest, as a client sends it.
pub record RawAppendRequest : Type 0 where
  pub request_id : Text
  pub scheduler_id : Text
  pub payload : List ℕ

unfoldable pub new_entry : RawAppendRequest → Node → LogEntry
new_entry raw n = record {
  index = n.handler.prev_index + 1;
  term = n.state.current_term;
  scheduler_id = raw.scheduler_id;
  payload = raw.payload;
}

-- The request for the peers, made from the log before the entry.
unfoldable pub replication_request : RawAppendRequest → Node → AppendRequest
replication_request raw n = record {
  origin_node_id = n.state.id;
  request_id = raw.request_id;
  term = n.state.current_term;
  index = n.handler.prev_index + 1;
  prev_log_term = prev_log_term n.handler.prev_index n.handler;
  prev_log_index = n.handler.prev_index;
  scheduler_id = raw.scheduler_id;
  payload = raw.payload;
}

proposed : AppendRequest → Node → Handler × Option AppendError → Node × Option AppendRequest
proposed req n (h, none) = (record n { handler = h }, some req)
proposed req n (h, some e) = (record n { handler = h }, none)

-- The first step: the leader's own log. `none` resolves the request as false.
unfoldable pub propose : WriteFault → RawAppendRequest → Node → Node × Option AppendRequest
unfolding new_entry proposed
propose fault raw n =
    if is_leader n.state.role
    then proposed (replication_request raw n) n (append fault (new_entry raw n) n.handler)
    else (n, none)

-- What comes of one connected peer by the time that the leader counts: an answer, an RPC that failed,
-- or a peer that was being caught up, and whether that had ended.
pub data Delivery : Type 0 where
  answered : AppendResponse → Delivery
  failed : Delivery
  catching_up : Bool → Delivery

unfoldable pub acknowledges : Delivery → Bool
acknowledges (answered resp) = is_success resp.status
  where
    is_success : AppendResponseStatus → Bool
    is_success success = true
    is_success _ = false
acknowledges failed = false
acknowledges (catching_up ended) = ended

-- handleAppendSuccess, over all the peers; the leader counts itself.
unfoldable pub successful_acks : List Delivery → ℕ
unfolding acknowledges
successful_acks [] = 1
successful_acks (d ∷ ds) =
    let rest = successful_acks ds in if acknowledges d then rest + 1 else rest

-- The last step, in a cluster of `total_nodes`: the commit index, and how the request is resolved.
unfoldable pub settle : ℕ → ℕ → List Delivery → Node → Node × Bool
settle total_nodes next_idx deliveries n =
    if leb (total_nodes / 2 + 1) (successful_acks deliveries)
    then (if ltb n.commit_index next_idx then record n { commit_index = next_idx } else n, true)
    else (n, false)

-- handleAppendRejection: `true` starts the routine that catches the peer up.
unfoldable pub handle_rejection : Moment → AppendResponse → Node → Node × Bool
handle_rejection t resp n =
    let (n', stepped_down) = check_step_down t resp.prev_log_term n in
    (n', if stepped_down then false else true)
