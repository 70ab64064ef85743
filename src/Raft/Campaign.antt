-- ===== src/Raft/Campaign.antt =====
-- What the three steps of StartElection, and checkStepDown, promise.
use not_ahivemind.Base.{
  ℕ, ◌+◌, ◌≤◌, ◌<◌, ◌≡◌, ◌≢◌, refl, ◌⊎◌, inl, inr, true, false, some, List, [], ◌∷◌, arith, Text,
  text_eq, text_eq_iff, All, Bool-cases,
}
use not_ahivemind.Raft.State.{Role, follower, candidate, leader, Moment}
use not_ahivemind.Raft.Node.{Node, check_step_down, majority}
use not_ahivemind.Raft.Vote.{VoteRequest, adopt_term, refused_early, cast_vote, request_vote}
use not_ahivemind.Raft.Election.{
  role_eq, Reply, counts, count_votes, wins, pre_vote_wins, stand_for_election, finish_election,
}

role_eq_sound : (a b : Role) → role_eq a b ≡ true → a ≡ b
role_eq_sound follower follower p = refl
role_eq_sound candidate candidate p = refl
role_eq_sound leader leader p = refl
role_eq_sound follower candidate p = ground arith
role_eq_sound follower leader p = ground arith
role_eq_sound candidate follower p = ground arith
role_eq_sound candidate leader p = ground arith
role_eq_sound leader follower p = ground arith
role_eq_sound leader candidate p = ground arith

module _ (term peers : ℕ) (replies : List Reply) (n : Node) where
  -- A node that becomes leader at the end of an election was still a candidate in the term of the
  -- election, had the votes of a majority, its own among them, and now counts its whole log as committed.
  pub finish_election_leads :
      n.state.role ≢ leader
      → (finish_election term peers replies n).state.role ≡ leader
      → (n.state.role ≡ candidate)
        × (n.state.current_term ≡ term)
        × (majority peers ≤ count_votes candidate term replies)
        × ((finish_election term peers replies n).commit_index ≡ n.handler.prev_index)
        × ((finish_election term peers replies n).state.leader_id ≡ n.state.id)
        × ((finish_election term peers replies n).state.current_term ≡ term)
  unfolding finish_election wins
  finish_election_leads before after = ground (arith, role_eq_sound n.state.role candidate)

pub text_eq_dec : (a b : Text) → (a ≡ b) ⊎ (a ≢ b)
text_eq_dec a b = elim (Bool-cases (text_eq a b)) [
  | inl p ↦ ground (arith, text_eq_iff a b)
  | inr p ↦ ground (arith, text_eq_iff a b)
]

count_votes-lapsed :
    (term : ℕ) (replies : List Reply)
    → All (λ r. r.role ≡ candidate) replies
    → count_votes follower term replies ≡ 1
unfolding count_votes counts
count_votes-lapsed term [] h = refl
count_votes-lapsed term (r ∷ rs) (p, h) = ground (arith, count_votes-lapsed term rs h)

-- A node that is a candidate while the answers to its pre-vote come in loses the pre-vote, whatever the
-- answers are, in every cluster of more than one node.
pre_vote_lost :
    (term peers : ℕ) (replies : List Reply)
    → 0 < peers
    → All (λ r. r.role ≡ candidate) replies
    → pre_vote_wins term peers replies ≡ false
unfolding pre_vote_wins wins majority
pre_vote_lost term peers replies more lapsed =
    ground (arith, count_votes-lapsed term replies lapsed)

-- A node that stands for election asks for votes in the next term, which it takes over as a candidate
-- with its vote given to itself, and it refuses every formal request of that term.
stand_for_election_alone :
    (t u : Moment) (old_term : ℕ) (n : Node) (req b : VoteRequest)
    → (stand_for_election t old_term n).1 ≡ some req
    → b.gossip ≡ false
    → b.term ≡ req.term
    → (req.term ≡ n.state.current_term + 1)
      × (req.gossip ≡ false)
      × ((stand_for_election t old_term n).0.state.current_term ≡ req.term)
      × ((stand_for_election t old_term n).0.state.role ≡ candidate)
      × ((stand_for_election t old_term n).0.state.voted_for ≡ n.state.id)
      × ((request_vote u b (stand_for_election t old_term n).0).1 ≡ false)
unfolding stand_for_election request_vote cast_vote adopt_term refused_early
stand_for_election_alone t u old_term n req b asked formal same = ground arith

-- checkStepDown leaves the node with the larger of its term and the peer's, and reports whether the
-- peer's was larger, in which case the node is a follower without a leader; otherwise it is unchanged.
check_step_down_cases :
    (t : Moment) (peer_term : ℕ) (n : Node)
    → (((check_step_down t peer_term n).1 ≡ true)
        × (n.state.current_term < peer_term)
        × ((check_step_down t peer_term n).0.state.current_term ≡ peer_term)
        × ((check_step_down t peer_term n).0.state.role ≡ follower)
        × ((check_step_down t peer_term n).0.state.leader_id ≡ []))
      ⊎ ((check_step_down t peer_term n ≡ (n, false)) × (peer_term ≤ n.state.current_term))
unfolding check_step_down
check_step_down_cases t peer_term n = ground arith
