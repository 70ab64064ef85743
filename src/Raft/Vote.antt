-- ===== src/Raft/Vote.antt =====
-- internal/consensus/service/election.go: the voter's side.
use not_ahivemind.Base.{
  ℕ, Bool, true, false, not, ◌&&◌, ◌||◌, [], ltb, leb, ◌==◌, if◌then◌else◌, Text, text_eq,
}
use not_ahivemind.Storage.Handler.{Handler}
use not_ahivemind.Raft.State.{
  Role, follower, candidate, leader, Moment, State, become_follower, update_leader, record_contact,
  is_election_timeout, set_current_term, set_voted_for,
}
use not_ahivemind.Raft.Node.{Node}

-- VoteRequest; `gossip` asks for a pre-vote.
pub record VoteRequest : Type 0 where
  pub origin_node_id : Text
  pub gossip : Bool
  pub term : ℕ
  pub log_term : ℕ
  pub log_index : ℕ

-- The candidate's log ends in a later term, or in the same term and not before the voter's.
unfoldable pub log_is_up_to_date : VoteRequest → Handler → Bool
log_is_up_to_date req h =
    ltb h.prev_term req.log_term || req.log_term == h.prev_term && leb h.prev_index req.log_index

-- A formal request of a later term makes the voter a follower of that term.
unfoldable pub adopt_term : Moment → VoteRequest → State → State
unfolding set_voted_for become_follower set_current_term
adopt_term t req s =
    if ltb s.current_term req.term && not req.gossip
    then set_current_term req.term (become_follower t (set_voted_for [] s))
    else s

abbrev is_contender : Role → Bool
is_contender leader = true
is_contender candidate = true
is_contender follower = false

-- The requests that are refused before the logs are compared.
unfoldable pub refused_early : Moment → VoteRequest → State → Bool
unfolding is_election_timeout
refused_early t req s =
    ltb req.term s.current_term
    || not req.gossip && (is_contender s.role && req.term == s.current_term)
    || req.gossip && (not (text_eq s.leader_id []) && not (is_election_timeout t s))

unfoldable pub may_vote : Text → State → Bool
may_vote candidate_id s = text_eq s.voted_for [] || text_eq s.voted_for candidate_id

unfoldable pub grant_vote : Moment → Text → State → State
unfolding set_voted_for update_leader record_contact
grant_vote t candidate_id s = record_contact t (update_leader [] (set_voted_for candidate_id s))

-- The voter after adopting the term, and the vote.
unfoldable pub cast_vote : Moment → VoteRequest → Node → Node × Bool
cast_vote t req n =
    if refused_early t req n.state
    then (n, false)
    else if req.gossip
    then (n, log_is_up_to_date req n.handler)
    else if may_vote req.origin_node_id n.state && log_is_up_to_date req n.handler
    then (record n { state = grant_vote t req.origin_node_id n.state }, true)
    else (n, false)

-- RequestVote.
unfoldable pub request_vote : Moment → VoteRequest → Node → Node × Bool
request_vote t req n = cast_vote t req (record n { state = adopt_term t req n.state })
