-- ===== src/Scheduler/RaftClient.antt =====
-- internal/scheduler/service/consensus: the one connection to the consensus nodes, and the takeover of
-- internal/scheduler/packer/monitor.go that commits through it.
use not_ahivemind.Base.{
  ℕ, ◌+◌, Bool, true, false, not, ◌&&◌, ◌||◌, Option, none, some, List, [], ◌∷◌, leb, if◌then◌else◌,
  Text, text_eq,
}
use not_ahivemind.Models.{
  SchedulerEvent, online, heartbeat_failed, redistributed_jobs, SchedulerPayload, event_name,
}
use not_ahivemind.Raft.Append.{
  AppendResponseStatus, success, bad_payload, needs_snapshot, failed_consensus, concurrent_claim,
  bad_origin_id,
}

-- The field `conn`: nil, or a connection that is open or was closed.
pub data Link : Type 0 where
  no_link open_link closed_link : Link

abbrev pub sever : Link → Link
sever no_link = no_link
sever open_link = closed_link
sever closed_link = closed_link

abbrev pub has_link : Link → Bool
has_link no_link = false
has_link open_link = true
has_link closed_link = true

pub record RaftClient : Type 0 where
  pub address : Text
  pub address_pool : List Text
  pub link : Link

-- switchConnection; `can_dial` says whether the address can be dialled. The old connection is closed
-- before that, and kept where the dial fails. The result is whether there was no error.
unfoldable pub switch_connection : (Text → Bool) → Text → RaftClient → RaftClient × Bool
switch_connection can_dial new_addr c =
    if can_dial new_addr
    then (record c { address = new_addr; link = open_link }, true)
    else (record c { link = sever c.link }, false)

-- The loop of healConnection; `answers` says whether the node at an address answers GetData.
unfoldable pub heal_from :
    (Text → Bool) → (Text → Bool) → List Text → RaftClient → RaftClient × Bool
unfolding switch_connection
heal_from can_dial answers [] c = (c, false)
heal_from can_dial answers (addr ∷ pool) c =
    let switched = switch_connection can_dial addr c in
    let rest = heal_from can_dial answers pool switched.0 in
    if switched.1 && answers addr then (switched.0, true) else rest

-- healConnection, while no other call of it runs.
unfoldable pub heal_connection : (Text → Bool) → (Text → Bool) → RaftClient → RaftClient × Bool
unfolding heal_from
heal_connection can_dial answers c = heal_from can_dial answers c.address_pool c

-- NewRaftClient; `none` is an error.
unfoldable pub new_raft_client : (Text → Bool) → (Text → Bool) → List Text → Option RaftClient
unfolding heal_connection
new_raft_client can_dial answers [] = none
new_raft_client can_dial answers (addr ∷ pool) =
    let healed =
      heal_connection can_dial answers
        (record { address = []; address_pool = addr ∷ pool; link = no_link }) in
    if healed.1 then some healed.0 else none

pub data CommitError : Type 0 where
  network_failure dial_failure bad_payload_error bad_origin_error quorum_error : CommitError
  cas_concurrent_conflict unknown_status : CommitError

pub record RawAppendResponse : Type 0 where
  pub status : AppendResponseStatus
  pub leader_address : Text

abbrev pub is_success : AppendResponseStatus → Bool
is_success success = true
is_success _ = false

abbrev pub is_empty_address : Text → Bool
is_empty_address [] = true
is_empty_address (c ∷ cs) = false

-- The switch over the status; `none` is no error.
unfoldable pub commit_status : AppendResponseStatus → Option CommitError
commit_status success = none
commit_status bad_payload = some bad_payload_error
commit_status bad_origin_id = some bad_origin_error
commit_status failed_consensus = some quorum_error
commit_status concurrent_claim = some cas_concurrent_conflict
commit_status needs_snapshot = some unknown_status

redirects : RawAppendResponse → RaftClient → Bool
redirects resp c =
    not (is_success resp.status)
    && (not (text_eq resp.leader_address c.address) && not (is_empty_address resp.leader_address))

-- commitPayload, with the answer to ClientAppend, where it came.
unfoldable pub commit_payload :
    (Text → Bool) → Option RawAppendResponse → RaftClient → RaftClient × Option CommitError
unfolding switch_connection commit_status redirects
commit_payload can_dial none c = (c, some network_failure)
commit_payload can_dial (some resp) c =
    if redirects resp c
    then (let switched = switch_connection can_dial resp.leader_address c in
        if switched.1
        then (switched.0, commit_status resp.status)
        else (switched.0, some dial_failure))
    else (c, commit_status resp.status)

-- ConnectionStatus: whether a call of healConnection runs, and whether the connection is in the state of
-- a transient failure, which a closed one never is.
unfoldable pub connection_status : Bool → Bool → RaftClient → Bool
connection_status healing transient_failure c =
    healing || (has_link c.link && not transient_failure)

-- checkRaftConnection: the strikes after a tick, and whether the scheduler is killed.
unfoldable pub raft_tick : Bool → ℕ → ℕ × Bool
raft_tick reachable count = if reachable then (0, false) else (count + 1, leb 3 (count + 1))

unfoldable pub raft_ticks : List Bool → ℕ → Bool
unfolding raft_tick
raft_ticks [] count = false
raft_ticks (t ∷ ts) count =
    let rest = raft_ticks ts (raft_tick t count).0 in if (raft_tick t count).1 then true else rest

-- attemptSchedulerTakeover: the events that are committed, in order. `commits` says how each of the two
-- commits ends, and `recent` is what FetchSchedulerEvent gives.
unfoldable pub take_over : Bool × Bool → Option SchedulerPayload → Text → List SchedulerEvent
take_over (false, second) recent scheduler_id = []
take_over (true, second) none scheduler_id = heartbeat_failed ∷ []
take_over (true, second) (some event) scheduler_id =
    if not (text_eq event.origin_scheduler_id scheduler_id)
      || text_eq event.entry (event_name online)
    then heartbeat_failed ∷ []
    else heartbeat_failed ∷ (if second then redistributed_jobs ∷ [] else [])
