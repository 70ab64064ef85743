-- ===== src/Raft/Deliveries.antt =====
-- Runs of AppendEntries: the theorems about it, applied.
use not_ahivemind.Base.{
  ℕ, ◌+◌, ◌*◌, ◌-◌, ◌<◌, ◌≤◌, ◌≡◌, refl, true, false, List, [], ◌∷◌, arith, text_eq, map, length,
  All,
}
use not_ahivemind.Storage.Samples.{origin, two_entries, entry_at-IsEncodable, two_entries-IsValid}
use not_ahivemind.Storage.Writer.{append}
use not_ahivemind.Raft.State.{
  follower, Moment, become_follower, reset_election_timer, set_voted_for, update_leader,
  record_contact, set_current_term,
}
use not_ahivemind.Raft.Node.{Node}
use not_ahivemind.Raft.Vote.{
  log_is_up_to_date, adopt_term, refused_early, may_vote, grant_vote, cast_vote, request_vote,
}
use not_ahivemind.Raft.Append.{
  AppendRequest, bad_payload, default_response, step_back, accept_leader, entry_of, store_entry,
  replicate_entry, append_entries,
}
use not_ahivemind.Raft.Following.{vote_twice}
use not_ahivemind.Raft.Place.{no_faults}
use not_ahivemind.Raft.Replication.{EndsWith}
use not_ahivemind.Raft.Delivery.{append_entries_success, redeliver, emptied_log_stuck}
use not_ahivemind.Raft.Leader.{settle, successful_acks, acknowledges}
use not_ahivemind.Raft.Commit.{Follower, Picks, deliver, Holds, settle-Holds}
use not_ahivemind.Raft.Samples.{node_in, asks}

abbrev now : Moment
now = record { now = 1000; draw = 7 }

abbrev brings : ℕ → ℕ → AppendRequest
brings index term = record {
  origin_node_id = 3 ∷ [];
  request_id = [];
  term = term;
  index = index;
  prev_log_term = 1;
  prev_log_index = index - 1;
  scheduler_id = 65 ∷ [];
  payload = 7 ∷ 8 ∷ [];
}

abbrev taker : Node
taker = node_in follower 1

append_entries_success_example :
    (1 ≤ 1)
    × ((append_entries no_faults now (brings 3 1) taker).0.state.current_term ≡ 1)
    × (2 ≤ 2)
    × EndsWith origin two_entries
        (entry_of (brings 3 1))
        (append_entries no_faults now (brings 3 1) taker).0.handler
unfolding append_entries replicate_entry store_entry accept_leader default_response append entry_of
append_entries_success_example =
    append_entries_success origin now (brings 3 1) taker two_entries-IsValid
      (entry_at-IsEncodable 3 (omega arith)) (λ p. ground arith) refl

-- Of three nodes, one follower answers and the other does not.
abbrev followers : List Follower
followers =
    record { log = origin; time = now; node = taker; is_reached = true }
    ∷ record { log = origin; time = now; node = taker; is_reached = false }
    ∷ []

settle-Holds_example :
    (holders : List Follower) × Picks holders followers
    × All (Holds (brings 3 1)) holders
    × (3 < 2 * (1 + length holders))
    × (3 ≤ (settle 3 3 (map (deliver (brings 3 1)) followers) taker).0.commit_index)
unfolding append_entries replicate_entry store_entry accept_leader default_response append entry_of
    settle successful_acks acknowledges
settle-Holds_example =
    settle-Holds (brings 3 1) 3 3 followers taker (entry_at-IsEncodable 3 (omega arith))
      (λ p. ground arith) (two_entries-IsValid, (two_entries-IsValid, tt)) refl

abbrev beat : AppendRequest
beat = record (brings 0 5) { payload = [] }

vote_twice_example :
    (request_vote now
      (asks false 4 5)
      (append_entries no_faults now beat (request_vote now (asks false 2 5) taker).0).0).1
    ≡ true
unfolding append_entries replicate_entry accept_leader step_back default_response request_vote
    cast_vote adopt_term refused_early may_vote log_is_up_to_date become_follower
    reset_election_timer set_current_term set_voted_for update_leader record_contact grant_vote
    text_eq
vote_twice_example =
    vote_twice no_faults now now now (asks false 2 5) (asks false 4 5) beat taker refl refl refl
      refl refl refl

abbrev emptied : Node
emptied = record taker { handler = record two_entries { entries = [] } }

emptied_log_stuck_example :
    ((append_entries no_faults now
        (brings 1 1)
        (redeliver ((now, brings 1 1) ∷ (now, brings 2 1) ∷ []) emptied)).0.handler
      ≡ emptied.handler)
    × ((append_entries no_faults now
          (brings 1 1)
          (redeliver ((now, brings 1 1) ∷ (now, brings 2 1) ∷ []) emptied)).1.status
        ≡ bad_payload)
emptied_log_stuck_example =
    emptied_log_stuck ((now, brings 1 1) ∷ (now, brings 2 1) ∷ []) now (brings 1 1) emptied refl
      (
        (omega arith, omega arith, omega arith, (λ p. ground arith)),
        ((omega arith, omega arith, omega arith, (λ p. ground arith)), tt),
      )
      (omega arith, omega arith, omega arith, (λ p. ground arith))
