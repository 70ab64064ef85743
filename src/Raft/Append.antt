-- ===== src/Raft/Append.antt =====
-- internal/consensus/service/append.go: AppendEntries on the follower's side.
use not_ahivemind.Base.{
  ℕ, Bool, true, false, not, ◌&&◌, ◌||◌, Option, none, some, List, [], ◌∷◌, ltb, leb, ◌==◌,
  if◌then◌else◌, Text,
}
use not_ahivemind.Storage.Codec.{LogEntry}
use not_ahivemind.Storage.Handler.{Handler}
use not_ahivemind.Storage.Writer.{
  WriteFault, TruncateFault, AppendError, index_behind, index_ahead, io_error, append, truncate_log,
}
use not_ahivemind.Raft.State.{
  Role, follower, candidate, leader, Moment, State, become_follower, update_leader, record_contact,
  set_current_term, set_voted_for,
}
use not_ahivemind.Raft.Node.{Node, leader_address}

pub record AppendRequest : Type 0 where
  pub origin_node_id : Text
  pub request_id : Text
  pub term : ℕ
  pub index : ℕ
  pub prev_log_term : ℕ
  pub prev_log_index : ℕ
  pub scheduler_id : Text
  pub payload : List ℕ

pub data AppendResponseStatus : Type 0 where
  success bad_payload bad_origin_id needs_snapshot failed_consensus concurrent_claim :
      AppendResponseStatus

pub record AppendResponse : Type 0 where
  pub request_id : Text
  pub status : AppendResponseStatus
  pub prev_log_term : ℕ
  pub prev_log_index : ℕ
  pub leader_address : Text

-- How the writes of the handler's three calls of the storage layer end.
pub record AppendIo : Type 0 where
  pub first : WriteFault
  pub cut : TruncateFault
  pub second : WriteFault

unfoldable pub default_response : AppendRequest → Node → AppendResponse
unfolding leader_address
default_response req n = record {
  request_id = req.request_id;
  status = success;
  prev_log_term = n.state.current_term;
  prev_log_index = n.handler.prev_index;
  leader_address = leader_address n;
}

unfoldable pub step_back : Role → Moment → State → State
unfolding become_follower
step_back follower t s = s
step_back candidate t s = become_follower t s
step_back leader t s = become_follower t s

-- What a request that is not of an older term does to the follower's state.
unfoldable pub accept_leader : Moment → AppendRequest → State → State
unfolding set_current_term record_contact update_leader set_voted_for step_back
accept_leader t req s =
    let raised = if ltb s.current_term req.term then set_current_term req.term s else s in
    let heard = set_voted_for [] (update_leader req.origin_node_id (record_contact t raised)) in
    step_back heard.role t heard

-- A response that tells where the follower's log ends.
log_end : AppendResponse → Handler → AppendResponse
log_end resp h = record resp {
  status = bad_payload;
  prev_log_index = h.prev_index;
  prev_log_term = h.prev_term;
}

unfoldable pub entry_of : AppendRequest → LogEntry
entry_of req = record {
  index = req.index;
  term = req.term;
  scheduler_id = req.scheduler_id;
  payload = req.payload;
}

abbrev answer_status : Option AppendError → AppendResponseStatus
answer_status none = success
answer_status (some e) = bad_payload

retry_append : AppendIo → LogEntry → Handler × Bool → Handler × AppendResponseStatus
retry_append io entry (h, true) = (h, bad_payload)
retry_append io entry (h, false) =
    let (h', error) = append io.second entry h in (h', answer_status error)

-- An entry whose index the log already has: the snapshot is wanted, or the log is cut there and the
-- entry appended.
unfoldable pub replace_entry : AppendIo → LogEntry → Handler → Handler × AppendResponseStatus
unfolding retry_append
replace_entry io entry h =
    if ltb entry.term h.disc_term || leb entry.index h.disc_index
    then (h, needs_snapshot)
    else retry_append io entry (truncate_log io.cut entry.index h)

after_append : AppendIo → LogEntry → Handler × Option AppendError → Handler × AppendResponseStatus
unfolding replace_entry
after_append io entry (h, none) = (h, success)
after_append io entry (h, some index_behind) = replace_entry io entry h
after_append io entry (h, some index_ahead) = (h, bad_payload)
after_append io entry (h, some io_error) = (h, bad_payload)

-- The log and the status after an entry that passed the checks.
unfoldable pub store_entry : AppendIo → LogEntry → Handler → Handler × AppendResponseStatus
unfolding after_append
store_entry io entry h = after_append io entry (append io.first entry h)

abbrev pub is_empty : List ℕ → Bool
is_empty [] = true
is_empty (b ∷ bs) = false

-- The checks against the follower's log, and the entry, if the request has one.
unfoldable pub replicate_entry :
    AppendIo → AppendRequest → AppendResponse → Node → Node × AppendResponse
unfolding log_end
replicate_entry io req resp n =
    if ltb n.handler.prev_index req.prev_log_index
    then (n, log_end resp n.handler)
    else if req.prev_log_index == n.handler.prev_index
        && not (req.prev_log_term == n.handler.prev_term)
    then (n, log_end resp n.handler)
    else if is_empty req.payload
    then (n, record resp { status = success })
    else let (h, status) = store_entry io (entry_of req) n.handler in
      (record n { handler = h }, record resp { status = status })

-- AppendEntries.
unfoldable pub append_entries : AppendIo → Moment → AppendRequest → Node → Node × AppendResponse
append_entries io t req n =
    let resp = default_response req n in
    if ltb req.term n.state.current_term
    then (n, record resp { status = bad_payload })
    else replicate_entry io req resp (record n { state = accept_leader t req n.state })
