-- ===== src/Raft/Steps.antt =====
-- The node as a state machine: the handlers of elections, replication and snapshots as steps.
use not_ahivemind.Base.{ℕ, ◌≡◌, ◌≢◌, true, false, List, [], arith, Text}
use not_ahivemind.Storage.Writer.{WriteFault}
use not_ahivemind.Storage.Snapshot.{InstallFault}
use not_ahivemind.Raft.State.{Moment}
use not_ahivemind.Raft.Node.{Node, check_step_down}
use not_ahivemind.Raft.Vote.{VoteRequest, request_vote}
use not_ahivemind.Raft.Voting.{request_vote_granted}
use not_ahivemind.Raft.SingleVote.{IsBound, request_vote-IsBound}
use not_ahivemind.Raft.Election.{
  Reply, begin_election, win_alone, stand_for_election, finish_election,
}
use not_ahivemind.Raft.Append.{AppendIo, AppendRequest, append_entries}
use not_ahivemind.Raft.Following.{append_entries_cases}
use not_ahivemind.Raft.Leader.{RawAppendRequest, Delivery, propose, settle}
use not_ahivemind.Raft.Serve.{InstallSnapshotRequest, install_request}
use not_ahivemind.Raft.Serving.{install_request-IsBound}

-- A handler's run under the node's lock; `Allowed` limits the AppendEntries requests that come.
pub data Step (Allowed : AppendRequest → Type 0) : Node → Node → Type 0 where
  votes : (t : Moment) (req : VoteRequest) (n : Node) → Step Allowed n (request_vote t req n).0
  appends :
      (io : AppendIo) (t : Moment) (req : AppendRequest) (n : Node)
      → Allowed req
      → Step Allowed n (append_entries io t req n).0
  installs :
      (fault : InstallFault) (t : Moment) (req : InstallSnapshotRequest) (n : Node)
      → Step Allowed n (install_request fault t req n).0
  begins : (t : Moment) (n : Node) → Step Allowed n (begin_election t n).0
  wins_alone : (t : Moment) (old_term : ℕ) (n : Node) → Step Allowed n (win_alone t old_term n)
  stands :
      (t : Moment) (old_term : ℕ) (n : Node) → Step Allowed n (stand_for_election t old_term n).0
  finishes :
      (term peers : ℕ) (replies : List Reply) (n : Node)
      → Step Allowed n (finish_election term peers replies n)
  steps_down :
      (t : Moment) (peer_term : ℕ) (n : Node) → Step Allowed n (check_step_down t peer_term n).0
  proposes :
      (fault : WriteFault) (raw : RawAppendRequest) (n : Node)
      → Step Allowed n (propose fault raw n).0
  settles :
      (total_nodes next_idx : ℕ) (deliveries : List Delivery) (n : Node)
      → Step Allowed n (settle total_nodes next_idx deliveries n).0

-- Any number of steps.
pub data Reaches (Allowed : AppendRequest → Type 0) : Node → Node → Type 0 where
  stays : (n : Node) → Reaches Allowed n n
  goes : {a b c : Node} → Step Allowed a b → Reaches Allowed b c → Reaches Allowed a c

module _ (n : Node) where
  pub propose-state :
      (fault : WriteFault) (raw : RawAppendRequest) → (propose fault raw n).0.state ≡ n.state
  unfolding propose
  propose-state fault raw = ground arith

  begin_election-IsBound :
      (t : Moment) (term : ℕ) (candidate_id : Text)
      → IsBound term candidate_id n.state
      → IsBound term candidate_id (begin_election t n).0.state
  unfolding begin_election
  begin_election-IsBound t term candidate_id b = ground arith

  win_alone-IsBound :
      (t : Moment) (old_term term : ℕ) (candidate_id : Text)
      → IsBound term candidate_id n.state
      → IsBound term candidate_id (win_alone t old_term n).state
  unfolding win_alone
  win_alone-IsBound t old_term term candidate_id b = ground arith

  stand_for_election-IsBound :
      (t : Moment) (old_term term : ℕ) (candidate_id : Text)
      → IsBound term candidate_id n.state
      → IsBound term candidate_id (stand_for_election t old_term n).0.state
  unfolding stand_for_election
  stand_for_election-IsBound t old_term term candidate_id b = ground arith

  finish_election-IsBound :
      (round peers : ℕ) (replies : List Reply) (term : ℕ) (candidate_id : Text)
      → IsBound term candidate_id n.state
      → IsBound term candidate_id (finish_election round peers replies n).state
  unfolding finish_election
  finish_election-IsBound round peers replies term candidate_id b = ground arith

  check_step_down-IsBound :
      (t : Moment) (peer_term term : ℕ) (candidate_id : Text)
      → IsBound term candidate_id n.state
      → IsBound term candidate_id (check_step_down t peer_term n).0.state
  unfolding check_step_down
  check_step_down-IsBound t peer_term term candidate_id b = ground arith

  pub settle-state :
      (total_nodes next_idx : ℕ) (deliveries : List Delivery)
      → (settle total_nodes next_idx deliveries n).0.state ≡ n.state
  unfolding settle
  settle-state total_nodes next_idx deliveries = ground arith

  append_entries-IsBound :
      (io : AppendIo) (t : Moment) (req : AppendRequest) (term : ℕ) (candidate_id : Text)
      → req.term ≢ term
      → IsBound term candidate_id n.state
      → IsBound term candidate_id (append_entries io t req n).0.state
  append_entries-IsBound io t req term candidate_id other b =
      ground (arith, append_entries_cases io t req n)

-- Every AppendEntries request but those of the term.
abbrev pub NotOf : ℕ → AppendRequest → Type 0
NotOf term req = req.term ≢ term

module _ (term : ℕ) (candidate_id : Text) (named : candidate_id ≢ []) where
  pub Step-IsBound :
      {a b : Node}
      → Step (NotOf term) a b
      → IsBound term candidate_id a.state
      → IsBound term candidate_id b.state
  Step-IsBound (votes t req n) h = request_vote-IsBound term candidate_id named t req n h
  Step-IsBound (appends io t req n other) h =
      append_entries-IsBound n io t req term candidate_id other h
  Step-IsBound (installs fault t req n) h =
      install_request-IsBound fault t req n term candidate_id h
  Step-IsBound (begins t n) h = begin_election-IsBound n t term candidate_id h
  Step-IsBound (wins_alone t old_term n) h = win_alone-IsBound n t old_term term candidate_id h
  Step-IsBound (stands t old_term n) h = stand_for_election-IsBound n t old_term term candidate_id h
  Step-IsBound (finishes round peers replies n) h =
      finish_election-IsBound n round peers replies term candidate_id h
  Step-IsBound (steps_down t peer_term n) h =
      check_step_down-IsBound n t peer_term term candidate_id h
  Step-IsBound (proposes fault raw n) h = rw (propose-state n fault raw) h
  Step-IsBound (settles total_nodes next_idx deliveries n) h =
      rw (settle-state n total_nodes next_idx deliveries) h

  Reaches-IsBound :
      {a b : Node}
      → Reaches (NotOf term) a b
      → IsBound term candidate_id a.state
      → IsBound term candidate_id b.state
  Reaches-IsBound (stays n) h = h
  Reaches-IsBound (goes s r) h = Reaches-IsBound r (Step-IsBound s h)

-- A node that has given its formal vote to a named candidate, and has then gone through any handlers,
-- elections of its own among them, gives no formal vote in the same term to another candidate, as long
-- as no AppendEntries request of that very term has come.
Reaches-vote_once :
    (t u : Moment) (a b : VoteRequest) (n n' : Node)
    → a.origin_node_id ≢ []
    → a.gossip ≡ false
    → b.gossip ≡ false
    → b.term ≡ a.term
    → (request_vote t a n).1 ≡ true
    → Reaches (NotOf a.term) (request_vote t a n).0 n'
    → (request_vote u b n').1 ≡ true
    → b.origin_node_id ≡ a.origin_node_id
Reaches-vote_once t u a b n n' named ga gb same va r vb = ground (
  arith,
  request_vote_granted t a n ga va,
  Reaches-IsBound a.term a.origin_node_id named r,
  request_vote_granted u b n' gb vb,
)
