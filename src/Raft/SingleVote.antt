-- ===== src/Raft/SingleVote.antt =====
-- One vote in a term: RequestVote keeps the vote that a node has given.
use not_ahivemind.Base.{ℕ, ◌<◌, ◌≡◌, ◌≢◌, ◌⊎◌, inl, inr, false, [], arith, Text, Bool-cases}
use not_ahivemind.Raft.State.{Moment, State}
use not_ahivemind.Raft.Node.{Node}
use not_ahivemind.Raft.Vote.{VoteRequest, adopt_term, cast_vote, request_vote}
use not_ahivemind.Raft.Voting.{pre_vote_pure, request_vote_granted, adopt_term_cases}

-- The voter is past the term, or has given its vote in it to that candidate.
abbrev pub IsBound : ℕ → Text → State → Type 0
IsBound term candidate_id s =
    (term < s.current_term) ⊎ ((s.current_term ≡ term) × (s.voted_for ≡ candidate_id))

module _ (t : Moment) (req : VoteRequest) (n : Node) where
  cast_vote_refused : (cast_vote t req n).1 ≡ false → (cast_vote t req n).0 ≡ n
  unfolding cast_vote
  cast_vote_refused v = ground arith

module _ (term : ℕ) (candidate_id : Text) (named : candidate_id ≢ []) where
  request_vote_refused-IsBound :
      (t : Moment) (req : VoteRequest) (n : Node)
      → req.gossip ≡ false
      → (request_vote t req n).1 ≡ false
      → IsBound term candidate_id n.state
      → IsBound term candidate_id (request_vote t req n).0.state
  unfolding request_vote
  request_vote_refused-IsBound t req n g v b = ground (
    arith,
    cast_vote_refused t req (record n { state = adopt_term t req n.state }) v,
    adopt_term_cases t req n g,
  )

  pub request_vote-IsBound :
      (t : Moment) (req : VoteRequest) (n : Node)
      → IsBound term candidate_id n.state
      → IsBound term candidate_id (request_vote t req n).0.state
  request_vote-IsBound t req n b = elim (Bool-cases req.gossip) [
    | inl g ↦ rw (pre_vote_pure t req n g) b
    | inr g ↦ elim (Bool-cases (request_vote t req n).1) [
      | inl v ↦ ground (arith, request_vote_granted t req n g v)
      | inr v ↦ request_vote_refused-IsBound t req n g v b
    ]
  ]
