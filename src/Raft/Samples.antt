-- ===== src/Raft/Samples.antt =====
-- Runs of the node's handlers: the theorems about them, applied.
use not_ahivemind.Base.{ℕ, ◌≤◌, Bool, true, false, [], ◌∷◌}
use not_ahivemind.Storage.Samples.{two_entries}
use not_ahivemind.Raft.State.{Role, follower, Moment}
use not_ahivemind.Raft.Node.{Node}
use not_ahivemind.Raft.Vote.{VoteRequest, request_vote}
use not_ahivemind.Raft.Steps.{votes, stays, goes}
use not_ahivemind.Raft.Terms.{Reaches-term}

abbrev now : Moment
now = record { now = 1000; draw = 7 }

abbrev pub node_in : Role → ℕ → Node
node_in role term = record {
  state = record {
    id = 1 ∷ [];
    address = 49 ∷ [];
    leader_id = [];
    role = role;
    connected = true;
    last_contact = 0;
    election_timeout = 150;
    current_term = term;
    voted_for = [];
  };
  handler = two_entries;
  peers = [];
  commit_index = 0;
}

abbrev pub asks : Bool → ℕ → ℕ → VoteRequest
asks gossip id term = record {
  origin_node_id = id ∷ [];
  gossip = gossip;
  term = term;
  log_term = 1;
  log_index = 2;
}

abbrev voter : Node
voter = node_in follower 1

abbrev first_vote : Node × Bool
first_vote = request_vote now (asks false 2 5) voter

abbrev after_second : Node
after_second = (request_vote now (asks false 3 5) first_vote.0).0

Reaches-term_example : voter.state.current_term ≤ after_second.state.current_term
Reaches-term_example = Reaches-term voter after_second (
    goes (votes now (asks false 2 5) voter)
      (goes (votes now (asks false 3 5) first_vote.0) (stays after_second)))
