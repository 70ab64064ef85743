-- ===== src/Raft/Voting.antt =====
-- What RequestVote promises.
use not_ahivemind.Base.{◌≤◌, ◌<◌, ◌≡◌, ◌≢◌, ◌⊎◌, true, false, [], arith, text_eq_iff}
use not_ahivemind.Raft.State.{follower, Moment}
use not_ahivemind.Raft.Node.{Node}
use not_ahivemind.Raft.Vote.{
  VoteRequest, log_is_up_to_date, adopt_term, refused_early, may_vote, grant_vote, cast_vote,
  request_vote,
}

module _ (t : Moment) (req : VoteRequest) (n : Node) where
  adopt_term_gossip : req.gossip ≡ true → adopt_term t req n.state ≡ n.state
  unfolding adopt_term
  adopt_term_gossip g = ground arith

  -- A pre-vote changes nothing of the voter.
  pub pre_vote_pure : req.gossip ≡ true → (request_vote t req n).0 ≡ n
  unfolding request_vote cast_vote
  pre_vote_pure g = ground (arith, adopt_term_gossip g)

  cast_vote-handler :
      ((cast_vote t req n).0.handler ≡ n.handler)
      × ((cast_vote t req n).0.commit_index ≡ n.commit_index)
      × ((cast_vote t req n).0.state.current_term ≡ n.state.current_term)
  unfolding cast_vote grant_vote
  cast_vote-handler = ground arith

  adopt_term-le : n.state.current_term ≤ (adopt_term t req n.state).current_term
  unfolding adopt_term
  adopt_term-le = ground arith

  -- What a formal vote means for the voter that gives it, its term having been adopted.
  cast_vote_granted :
      req.gossip ≡ false
      → (cast_vote t req n).1 ≡ true
      → ((cast_vote t req n).0.state.voted_for ≡ req.origin_node_id)
        × (log_is_up_to_date req n.handler ≡ true)
        × (may_vote req.origin_node_id n.state ≡ true)
        × (refused_early t req n.state ≡ false)
  unfolding cast_vote grant_vote
  cast_vote_granted g v = ground arith

  not_refused :
      req.gossip ≡ false
      → refused_early t req n.state ≡ false
      → (n.state.current_term ≤ req.term)
        × ((n.state.role ≡ follower) ⊎ (req.term ≢ n.state.current_term))
  unfolding refused_early
  not_refused g r = ground arith

  may_vote_cases :
      may_vote req.origin_node_id n.state ≡ true
      → (n.state.voted_for ≡ []) ⊎ (n.state.voted_for ≡ req.origin_node_id)
  unfolding may_vote
  may_vote_cases m =
      ground
        (arith, text_eq_iff n.state.voted_for [], text_eq_iff n.state.voted_for req.origin_node_id)

  pub adopt_term_cases :
      req.gossip ≡ false
      → ((n.state.current_term < req.term) × ((adopt_term t req n.state).current_term ≡ req.term))
        ⊎ ((req.term ≤ n.state.current_term) × (adopt_term t req n.state ≡ n.state))
  unfolding adopt_term
  adopt_term_cases g = ground arith

module _ (t : Moment) (req : VoteRequest) (n : Node) where
  abbrev adopted : Node
  adopted = record n { state = adopt_term t req n.state }

  -- No vote request lowers the voter's term, and none touches its log or its commit index.
  pub request_vote-term-le :
      (n.state.current_term ≤ (request_vote t req n).0.state.current_term)
      × ((request_vote t req n).0.handler ≡ n.handler)
      × ((request_vote t req n).0.commit_index ≡ n.commit_index)
  unfolding request_vote
  request_vote-term-le = ground (arith, cast_vote-handler t req adopted, adopt_term-le t req n)

  -- A formal vote is given only in the request's own term, which becomes the voter's, to a candidate
  -- whose log is up to date, and by a voter that enters the term with the request, or is a follower
  -- in it that has voted for nobody or for the same candidate. The vote is remembered.
  pub request_vote_granted :
      req.gossip ≡ false
      → (request_vote t req n).1 ≡ true
      → ((request_vote t req n).0.state.current_term ≡ req.term)
        × ((request_vote t req n).0.state.voted_for ≡ req.origin_node_id)
        × (log_is_up_to_date req n.handler ≡ true)
        × ((n.state.current_term < req.term)
            ⊎ ((n.state.current_term ≡ req.term)
                × (n.state.role ≡ follower)
                × ((n.state.voted_for ≡ []) ⊎ (n.state.voted_for ≡ req.origin_node_id))))
  unfolding request_vote
  request_vote_granted g v = ground (
    arith,
    cast_vote-handler t req adopted,
    cast_vote_granted t req adopted g v,
    not_refused t req adopted g,
    may_vote_cases t req adopted,
    adopt_term_cases t req n g,
  )
