-- ===== src/Raft/Catchup.antt =====
-- The routines that bring a peer up to date: resolvePeerLag and sendSnapshotToPeer of
-- internal/consensus/service/add.go, and the heartbeats of retention.go.
use not_ahivemind.Base.{
  ℕ, ◌+◌, ◌-◌, Bool, true, false, not, ◌||◌, Option, none, some, List, [], ◌∷◌, ltb, leb, ◌==◌,
  if◌then◌else◌, length,
}
use not_ahivemind.Storage.Codec.{LogEntry}
use not_ahivemind.Storage.Reader
use not_ahivemind.Storage.Snapshot.{Chunk}
use not_ahivemind.Raft.State.{is_leader, Moment}
use not_ahivemind.Raft.Node.{Node, check_step_down, prev_log_term}
use not_ahivemind.Raft.Append.{
  AppendRequest, AppendResponse, AppendResponseStatus, success, bad_payload, needs_snapshot,
  failed_consensus, concurrent_claim, bad_origin_id, is_empty,
}

-- The loop over the entries that were read, into the request for the index `target`.
unfoldable pub fill_request : ℕ → List LogEntry → AppendRequest → AppendRequest
fill_request target [] req = req
fill_request target (e ∷ es) req =
    let req' =
      if e.index == req.prev_log_index then record req { prev_log_term = e.term } else req in
    fill_request target es (
      if e.index == target
      then record req' { payload = e.payload; index = e.index; scheduler_id = e.scheduler_id }
      else req')

abbrev pub empty_request : ℕ → ℕ → ℕ → Node → AppendRequest
empty_request term prev_index prev_term n = record {
  origin_node_id = n.state.id;
  request_id = [];
  term = term;
  index = 0;
  prev_log_term = prev_term;
  prev_log_index = prev_index;
  scheduler_id = [];
  payload = [];
}

-- The request of resolvePeerLag for the entry at `target`.
unfoldable pub catchup_request : ℕ → Node → AppendRequest
unfolding fill_request
catchup_request target n =
    let end_index =
      if ltb (n.handler.prev_index + 1) (target + 1)
      then n.handler.prev_index + 1
      else target + 1 in
    fill_request target (Reader.entries (target - 1) end_index n.handler)
      (empty_request n.state.current_term (target - 1) (prev_log_term (target - 1) n.handler) n)

-- What the routine waits with: the index to send, and the last status.
pub record Lag : Type 0 where
  pub target_index : ℕ
  pub status : AppendResponseStatus

-- The routine's start, for the index that a peer failed at.
unfoldable pub start_catchup : ℕ → AppendResponseStatus → Lag
start_catchup failed_index status = record {
  target_index = if leb failed_index 1 then 1 else failed_index - 1;
  status = status;
}

pub data CatchupAction : Type 0 where
  finished : CatchupAction
  send_snapshot : ℕ → ℕ → CatchupAction
  send_entry : AppendRequest → CatchupAction

abbrev wants_snapshot : AppendResponseStatus → Bool
wants_snapshot needs_snapshot = true
wants_snapshot _ = false

-- One turn of the loop, up to what it sends.
unfoldable pub next_action : Lag → Node → CatchupAction
next_action lag n =
    if not (is_leader n.state.role)
    then finished
    else if ltb n.handler.prev_index lag.target_index
    then finished
    else if wants_snapshot lag.status || leb lag.target_index n.handler.disc_index
    then send_snapshot n.handler.disc_index n.handler.disc_term
    else send_entry (catchup_request lag.target_index n)

-- After the snapshot with the boundary `disc_index` was sent.
unfoldable pub after_snapshot : ℕ → Lag
after_snapshot disc_index = record { target_index = disc_index + 1; status = success }

-- Where to go on after a BAD_PAYLOAD: behind the peer's last index, or one back. Index 0 ends the loop.
roll_back : AppendResponse → ℕ → Option Lag
roll_back resp target =
    let target' =
      if ltb resp.prev_log_index (target - 1) then resp.prev_log_index + 1 else target - 1 in
    if ltb target' 1 then none else some (record { target_index = target'; status = bad_payload })

answer_lag : AppendResponseStatus → AppendResponse → Lag → Option Lag
unfolding roll_back
answer_lag bad_payload resp lag = roll_back resp lag.target_index
answer_lag status resp lag = some (record lag { status = status })

rejected_lag : Moment → AppendResponse → Lag → Node → Node × Option Lag
unfolding answer_lag
rejected_lag t resp lag n =
    let (n', stepped_down) = check_step_down t resp.prev_log_term n in
    (n', if stepped_down then none else answer_lag resp.status resp lag)

-- The loop's turn after an answer; `none` ends it. The statuses of a client's answer change nothing.
unfoldable pub after_answer : Moment → AppendResponse → Lag → Node → Node × Option Lag
unfolding rejected_lag
after_answer t resp lag n = elim resp.status [
  | success ↦ (n, some (record { target_index = lag.target_index + 1; status = success }))
  | bad_payload ↦ rejected_lag t resp lag n
  | needs_snapshot ↦ rejected_lag t resp lag n
  | bad_origin_id ↦ (n, some lag)
  | failed_consensus ↦ (n, some lag)
  | concurrent_claim ↦ (n, some lag)
]

-- sendSnapshotToPeer: the chunks for the pieces that the file is read in, `size` being its length.
unfoldable pub chunks : ℕ → ℕ → ℕ → ℕ → List (List ℕ) → List Chunk
chunks size index term offset [] = []
chunks size index term offset (piece ∷ pieces) =
    let done = leb size (offset + length piece) in
    let rest = chunks size index term (offset + length piece) pieces in
    let chunk : Chunk = record {
      offset = offset;
      bytes = piece;
      done = done;
      last_included_index = index;
      last_included_term = term;
    } in
    if is_empty piece then rest else chunk ∷ (if done then [] else rest)
