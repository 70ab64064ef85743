-- ===== src/Raft/Ballots.antt =====
-- An election of three nodes: the theorem about its leader, applied.
use not_ahivemind.Base.{◌≡◌, ◌≢◌, refl, true, false, some, [], ◌∷◌, arith, Text, text_eq}
use not_ahivemind.Raft.State.{
  follower, candidate, Moment, become_follower, reset_election_timer, set_voted_for,
  set_current_term,
}
use not_ahivemind.Raft.Node.{Node, majority}
use not_ahivemind.Raft.Vote.{
  log_is_up_to_date, adopt_term, refused_early, may_vote, cast_vote, request_vote,
}
use not_ahivemind.Raft.Election.{
  Reply, stand_for_election, finish_election, wins, count_votes, counts,
}
use not_ahivemind.Raft.Leadership.{
  Voter, idle, votes_for, grants, stands, names, Backed, nobody, itself, unasked, answers,
  one_leader,
}
use not_ahivemind.Raft.Samples.{node_in, asks}

abbrev moment : Moment
moment = record { now = 1000; draw = 7 }

abbrev standing : Node
standing = (stand_for_election moment 4 (node_in follower 4)).0

abbrev supporter : Node
supporter = (request_vote moment (asks false 1 5) (node_in follower 1)).0

named : ◌≢◌ {A = Text} (1 ∷ []) []
named = λ p. ground arith

abbrev itself_voter : Voter 5
unfolding stand_for_election
itself_voter = record {
  before = node_in follower 4;
  after = standing;
  votes = (1 ∷ []) ∷ [];
  run =
      votes_for (1 ∷ []) named
        (stands moment 4 (asks false 1 5) (node_in follower 4) refl refl refl) (idle standing);
}

abbrev supporting_voter : Voter 5
unfolding request_vote cast_vote adopt_term refused_early may_vote log_is_up_to_date become_follower
    reset_election_timer set_current_term set_voted_for text_eq
supporting_voter = record {
  before = node_in follower 1;
  after = supporter;
  votes = (1 ∷ []) ∷ [];
  run =
      votes_for (1 ∷ []) named
        (grants moment (asks false 1 5) (node_in follower 1) refl refl refl refl) (idle supporter);
}

abbrev silent_voter : Voter 5
silent_voter = record {
  before = node_in follower 5;
  after = node_in follower 5;
  votes = [];
  run = idle (node_in follower 5);
}

abbrev yes_vote : Reply
yes_vote = record { vote = some true; role = candidate; term = 5 }

backed_by_two :
    Backed 5 (1 ∷ []) true (itself_voter ∷ supporting_voter ∷ silent_voter ∷ []) (yes_vote ∷ [])
unfolding names text_eq itself_voter supporting_voter
backed_by_two =
    itself itself_voter refl
      (answers supporting_voter yes_vote (λ p. refl) (unasked silent_voter nobody))

one_leader_example : standing.state.id ≡ 1 ∷ []
unfolding stand_for_election finish_election wins count_votes counts majority
one_leader_example =
    one_leader 5 2 (itself_voter ∷ supporting_voter ∷ silent_voter ∷ []) (yes_vote ∷ [])
      (yes_vote ∷ []) standing standing (omega arith) backed_by_two backed_by_two
      (λ p. ground arith) (λ p. ground arith) refl refl
