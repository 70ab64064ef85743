-- ===== src/Raft/Election.antt =====
-- internal/consensus/service/election.go: the candidate's side. StartElection lets go of the node
-- while it waits for votes, so it is three steps, with other handlers possibly between them.
use not_ahivemind.Base.{
  ℕ, ◌+◌, Bool, true, false, not, ◌&&◌, ◌||◌, Option, none, some, List, [], ◌∷◌, leb, ◌==◌,
  if◌then◌else◌,
}
use not_ahivemind.Raft.State.{
  Role, follower, candidate, leader, is_leader, Moment, State, become_candidate, become_leader,
  update_leader, record_contact, set_current_term, set_voted_for,
}
use not_ahivemind.Raft.Node.{Node, majority}
use not_ahivemind.Raft.Vote.{VoteRequest}

abbrev pub role_eq : Role → Role → Bool
role_eq follower follower = true
role_eq candidate candidate = true
role_eq leader leader = true
role_eq _ _ = false

vote_request : Bool → ℕ → Node → VoteRequest
vote_request gossip term n = record {
  origin_node_id = n.state.id;
  gossip = gossip;
  term = term;
  log_term = n.handler.prev_term;
  log_index = n.handler.prev_index;
}

-- The first step: the request of the pre-vote for the next term. A leader does nothing.
unfoldable pub begin_election : Moment → Node → Node × Option VoteRequest
unfolding update_leader record_contact vote_request
begin_election t n =
    if is_leader n.state.role
    then (n, none)
    else let n' = record n { state = record_contact t (update_leader [] n.state) } in
      (n', some (vote_request true (n'.state.current_term + 1) n'))

-- A peer's answer, with the role and term that the candidate has when it comes: `none` is an RPC
-- that failed.
pub record Reply : Type 0 where
  pub vote : Option Bool
  pub role : Role
  pub term : ℕ

unfoldable pub counts : Role → ℕ → Reply → Bool
counts expected_role expected_term r =
    role_eq r.role expected_role
    && r.term == expected_term
    && (elim r.vote [ none ↦ false | some v ↦ v ])

unfoldable pub count_votes : Role → ℕ → List Reply → ℕ
unfolding counts
count_votes expected_role expected_term [] = 1
count_votes expected_role expected_term (r ∷ rs) =
    let rest = count_votes expected_role expected_term rs in
    if counts expected_role expected_term r then rest + 1 else rest

-- sendVoteRequests, over the answers of the connected peers.
unfoldable pub wins : Role → ℕ → ℕ → List Reply → Bool
wins expected_role expected_term needed replies =
    leb needed (count_votes expected_role expected_term replies)

unfoldable pub pre_vote_wins : ℕ → ℕ → List Reply → Bool
unfolding wins
pre_vote_wins old_term peers replies = wins follower old_term (majority peers) replies

stand : Moment → ℕ → State → State
unfolding become_candidate set_current_term set_voted_for
stand t term s = set_voted_for s.id (set_current_term term (become_candidate t s))

-- A winner leads, and counts its whole log as committed.
lead : Node → Node
unfolding become_leader update_leader
lead n = record n {
  state = update_leader n.state.id (become_leader n.state);
  commit_index = n.handler.prev_index;
}

-- A node with no peer needs no vote.
unfoldable pub win_alone : Moment → ℕ → Node → Node
unfolding stand lead
win_alone t old_term n =
    if n.state.current_term == old_term
    then lead (record n { state = stand t (old_term + 1) n.state })
    else n

-- The second step, after a pre-vote that was won: the formal request, unless the term moved on.
unfoldable pub stand_for_election : Moment → ℕ → Node → Node × Option VoteRequest
unfolding stand vote_request
stand_for_election t old_term n =
    if is_leader n.state.role || not (n.state.current_term == old_term)
    then (n, none)
    else let n' = record n { state = stand t (old_term + 1) n.state } in
      (n', some (vote_request false (old_term + 1) n'))

-- The third step, after the votes for `term` have come in.
unfoldable pub finish_election : ℕ → ℕ → List Reply → Node → Node
unfolding wins lead
finish_election term peers replies n =
    if wins candidate term (majority peers) replies
      && (role_eq n.state.role candidate && n.state.current_term == term)
    then lead n
    else n
