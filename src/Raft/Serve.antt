-- ===== src/Raft/Serve.antt =====
-- internal/consensus/service/serve.go: what clients and leaders ask of a node.
use not_ahivemind.Base.{
  ℕ, Bool, true, false, not, ◌&&◌, ◌||◌, Option, none, some, List, [], ◌∷◌, map, ltb, if◌then◌else◌,
  Text, text_eq, is_some,
}
use not_ahivemind.Base.Int.{ℤ, pos, negsuc, leb_ℤ, ltb_ℤ, eq_ℤ, ◌-ℤ◌}
use not_ahivemind.Storage.Codec.{LogEntry}
use not_ahivemind.Storage.Handler.{Handler}
use not_ahivemind.Storage.Reader.{Peek, query_entries}
use not_ahivemind.Storage.Snapshot.{Chunk, InstallFault, install_snapshot}
use not_ahivemind.Raft.State.{
  is_leader, Moment, State, record_contact, update_leader, set_current_term, set_voted_for,
}
use not_ahivemind.Raft.Node.{Node, leader_address}
use not_ahivemind.Raft.Append.{
  AppendResponseStatus, success, bad_payload, failed_consensus, concurrent_claim, step_back,
}
use not_ahivemind.Raft.Leader.{RawAppendRequest}

-- peekPayload of checkCASConflict; `entry` is the value as "%v" prints it.
pub record CasPayload : Type 0 where
  pub id : Text
  pub state : Option ℤ
  pub entry : Option Text
  pub timestamp : ℤ

abbrev pub CasPeek : Type 0
CasPeek = List ℕ → Option CasPayload

pub data CasConflict : Type 0 where
  cas_no_conflict cas_concurrent_claim cas_duplicate_scheduler_event : CasConflict

-- "HeartbeatFailed", "RedistributedJobs", "2" or "3".
unfoldable pub is_thundering_herd_event : Text → Bool
is_thundering_herd_event s =
    text_eq s
      (72 ∷ 101 ∷ 97 ∷ 114 ∷ 116 ∷ 98 ∷ 101 ∷ 97 ∷ 116 ∷ 70 ∷ 97 ∷ 105 ∷ 108 ∷ 101 ∷ 100 ∷ [])
    || (text_eq s (
          82 ∷ 101 ∷ 100 ∷ 105 ∷ 115 ∷ 116 ∷ 114 ∷ 105 ∷ 98 ∷ 117 ∷ 116 ∷ 101 ∷ 100 ∷ 74 ∷ 111 ∷ 98
          ∷ 115 ∷ [])
        || (text_eq s (50 ∷ []) || text_eq s (51 ∷ [])))

abbrev claims : Option ℤ → Bool
claims none = false
claims (some state) = leb_ℤ (pos 0) state

-- A claim of the state that the newest entry has.
unfoldable pub repeats_claim : Option ℤ → Option ℤ → Bool
repeats_claim none current = false
repeats_claim (some s) none = false
repeats_claim (some s) (some t) = leb_ℤ (pos 0) s && (leb_ℤ (pos 0) t && eq_ℤ t s)

unfoldable pub repeats_event : CasPayload → CasPayload → Option Text → Option Text → Bool
repeats_event incoming current none current_entry = false
repeats_event incoming current (some s) none = false
repeats_event incoming current (some s) (some t) =
    is_thundering_herd_event s
    && text_eq s t
    && (ltb_ℤ (negsuc 4999) (incoming.timestamp -ℤ current.timestamp)
        && ltb_ℤ (incoming.timestamp -ℤ current.timestamp) (pos 5000))

unfoldable pub compare_cas : CasPayload → CasPayload → CasConflict
compare_cas incoming current =
    if repeats_claim incoming.state current.state
    then cas_concurrent_claim
    else if repeats_event incoming current incoming.entry current.entry
    then cas_duplicate_scheduler_event
    else cas_no_conflict

compare_newest : CasPeek → CasPayload → List LogEntry → CasConflict
compare_newest peek_cas incoming [] = cas_no_conflict
compare_newest peek_cas incoming (e ∷ es) = elim (peek_cas e.payload) [
  | none ↦ cas_no_conflict
  | some current ↦ compare_cas incoming current
]

check_incoming : Peek → CasPeek → CasPayload → Handler → CasConflict
unfolding compare_newest
check_incoming peek peek_cas incoming h =
    if text_eq incoming.id []
    then cas_no_conflict
    else if not (claims incoming.state) && not (is_some incoming.entry)
    then cas_no_conflict
    else compare_newest peek_cas incoming (query_entries peek none (some incoming.id) h)

-- checkCASConflict.
unfoldable pub check_cas_conflict : Peek → CasPeek → List ℕ → Handler → CasConflict
unfolding check_incoming
check_cas_conflict peek peek_cas payload h = elim (peek_cas payload) [
  | none ↦ cas_no_conflict
  | some incoming ↦ check_incoming peek peek_cas incoming h
]

-- The answer to a client. The previous term and index are -1 in it.
pub record ClientResponse : Type 0 where
  pub request_id : Text
  pub status : AppendResponseStatus
  pub prev_log_term : ℤ
  pub prev_log_index : ℤ
  pub leader_address : Text

std_response : RawAppendRequest → Text → AppendResponseStatus → ClientResponse
std_response raw address status = record {
  request_id = raw.request_id;
  status = status;
  prev_log_term = negsuc 0;
  prev_log_index = negsuc 0;
  leader_address = address;
}

refusal : CasConflict → Option AppendResponseStatus
refusal cas_no_conflict = none
refusal cas_concurrent_claim = some concurrent_claim
refusal cas_duplicate_scheduler_event = some bad_payload

-- ClientAppend up to the queue: `none` hands the request to AddLog.
unfoldable pub client_append : Peek → CasPeek → RawAppendRequest → Node → Option ClientResponse
unfolding std_response refusal
client_append peek peek_cas raw n =
    if is_leader n.state.role
    then (elim (refusal (check_cas_conflict peek peek_cas raw.payload n.handler)) [
      | none ↦ none
      | some status ↦ some (std_response raw [] status)
    ])
    else some (std_response raw (leader_address n) bad_payload)

-- The end of ClientAppend, with what the registry delivered, or nothing where the client gave up.
unfoldable pub client_answer : RawAppendRequest → Option Bool → ClientResponse
unfolding std_response
client_answer raw none = std_response raw [] bad_payload
client_answer raw (some true) = std_response raw [] success
client_answer raw (some false) = std_response raw [] failed_consensus

-- GetData: whether something was found, and the payloads.
unfoldable pub get_data : Peek → Option Text → Option Text → Handler → Bool × List (List ℕ)
get_data peek scheduler_id_query payload_id_query h =
    let found = query_entries peek scheduler_id_query payload_id_query h in
    (elim found [ [] ↦ false | e ∷ es ↦ true ], map (λ e. e.payload) found)

pub record InstallSnapshotRequest : Type 0 where
  pub leader_id : Text
  pub term : ℕ
  pub chunk : Chunk

-- The leader of the request is accepted.
unfoldable pub accept_snapshot : Moment → InstallSnapshotRequest → State → State
unfolding set_voted_for set_current_term record_contact update_leader step_back
accept_snapshot t req s =
    let raised =
      if ltb s.current_term req.term then set_voted_for [] (set_current_term req.term s) else s in
    let heard = update_leader req.leader_id (record_contact t raised) in
    step_back heard.role t heard

installed_answer : ℕ → State → Node → Handler × Bool → Node × Option ℕ
installed_answer term s n (h, true) = (record n { state = s; handler = h }, none)
installed_answer term s n (h, false) = (record n { state = s; handler = h }, some term)

-- InstallSnapshot of the node: the term it answers with, or an error.
unfoldable pub install_request :
    InstallFault → Moment → InstallSnapshotRequest → Node → Node × Option ℕ
unfolding installed_answer
install_request fault t req n =
    if ltb req.term n.state.current_term
    then (n, some n.state.current_term)
    else installed_answer n.state.current_term (accept_snapshot t req n.state) n
        (install_snapshot fault req.chunk n.handler)
