-- ===== src/Raft/Terms.antt =====
-- The term of a node over all its handlers.
use not_ahivemind.Base.{ℕ, ◌≤◌, ◌≡◌, ap, List, arith}
use not_ahivemind.Raft.State.{Moment, State}
use not_ahivemind.Raft.Node.{Node, check_step_down}
use not_ahivemind.Raft.Voting.{request_vote-term-le}
use not_ahivemind.Raft.Election.{
  Reply, begin_election, win_alone, stand_for_election, finish_election,
}
use not_ahivemind.Raft.Append.{AppendRequest}
use not_ahivemind.Raft.Following.{append_entries_cases}
use not_ahivemind.Raft.Serving.{install_request_cases}
use not_ahivemind.Raft.Steps.{
  Step, votes, appends, installs, begins, wins_alone, stands, finishes, steps_down, proposes,
  settles, Reaches, stays, goes, propose-state, settle-state,
}

-- Every AppendEntries request.
abbrev pub AnyRequest : AppendRequest → Type 0
AnyRequest req = Unit

module _ (n : Node) where
  begin_election-term :
      (t : Moment) → (begin_election t n).0.state.current_term ≡ n.state.current_term
  unfolding begin_election
  begin_election-term t = ground arith

  win_alone-term :
      (t : Moment) (old_term : ℕ)
      → n.state.current_term ≤ (win_alone t old_term n).state.current_term
  unfolding win_alone
  win_alone-term t old_term = ground arith

  stand_for_election-term :
      (t : Moment) (old_term : ℕ)
      → n.state.current_term ≤ (stand_for_election t old_term n).0.state.current_term
  unfolding stand_for_election
  stand_for_election-term t old_term = ground arith

  finish_election-term :
      (round peers : ℕ) (replies : List Reply)
      → (finish_election round peers replies n).state.current_term ≡ n.state.current_term
  unfolding finish_election
  finish_election-term round peers replies = ground arith

  check_step_down-term :
      (t : Moment) (peer_term : ℕ)
      → n.state.current_term ≤ (check_step_down t peer_term n).0.state.current_term
  unfolding check_step_down
  check_step_down-term t peer_term = ground arith

Step-term : (a b : Node) → Step AnyRequest a b → a.state.current_term ≤ b.state.current_term
Step-term _ _ (votes t req n) = (request_vote-term-le t req n).0
Step-term _ _ (appends io t req n other) = ground (arith, append_entries_cases io t req n)
Step-term _ _ (installs fault t req n) = ground (arith, install_request_cases fault t req n)
Step-term _ _ (begins t n) = omega (arith, begin_election-term n t)
Step-term _ _ (wins_alone t old_term n) = win_alone-term n t old_term
Step-term _ _ (stands t old_term n) = stand_for_election-term n t old_term
Step-term _ _ (finishes round peers replies n) =
    omega (arith, finish_election-term n round peers replies)
Step-term _ _ (steps_down t peer_term n) = check_step_down-term n t peer_term
Step-term _ _ (proposes fault raw n) =
    omega (arith, ap (λ (s : State). s.current_term) (propose-state n fault raw))
Step-term _ _ (settles total_nodes next_idx deliveries n) =
    omega
      (arith, ap (λ (s : State). s.current_term) (settle-state n total_nodes next_idx deliveries))

-- Whatever handlers a node goes through, its term never falls.
pub Reaches-term :
    (a b : Node) → Reaches AnyRequest a b → a.state.current_term ≤ b.state.current_term
Reaches-term _ _ (stays n) = omega arith
Reaches-term a c (goes {b = b} s r) = omega (arith, Step-term a b s, Reaches-term b c r)
