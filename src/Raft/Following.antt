-- ===== src/Raft/Following.antt =====
-- What AppendEntries does to the follower's state, and to the vote of the term.
use native.Mathlib.Decide.{dec_le}
use not_ahivemind.Base.{
  ◌⊎◌, inl, inr, ◌≤◌, ◌<◌, ◌≡◌, refl, sym, ◌∙◌, true, false, [], arith, text_eq_iff,
}
use not_ahivemind.Raft.State.{follower, Moment, State}
use not_ahivemind.Raft.Node.{Node}
use not_ahivemind.Raft.Vote.{
  VoteRequest, log_is_up_to_date, adopt_term, refused_early, may_vote, cast_vote, request_vote,
}
use not_ahivemind.Raft.Voting.{request_vote_granted}
use not_ahivemind.Raft.Append.{
  AppendIo, AppendRequest, AppendResponse, bad_payload, default_response, step_back, accept_leader,
  replicate_entry, append_entries,
}

module _ (t : Moment) (req : AppendRequest) (s : State) where
  accept_leader-role : (accept_leader t req s).role ≡ follower
  unfolding accept_leader step_back
  accept_leader-role = ground arith

  accept_leader-voted_for : (accept_leader t req s).voted_for ≡ []
  unfolding accept_leader step_back
  accept_leader-voted_for = ground arith

  accept_leader-term :
      (s.current_term ≤ (accept_leader t req s).current_term)
      × (req.term ≤ (accept_leader t req s).current_term)
      × (s.current_term ≤ req.term → (accept_leader t req s).current_term ≡ req.term)
  unfolding accept_leader step_back
  accept_leader-term = ground arith

module _ (io : AppendIo) (t : Moment) (req : AppendRequest) (n : Node) where
  replicate_entry-state :
      (resp : AppendResponse)
      → ((replicate_entry io req resp n).0.state ≡ n.state)
        × ((replicate_entry io req resp n).0.commit_index ≡ n.commit_index)
  unfolding replicate_entry
  replicate_entry-state resp = ground arith

module _ (io : AppendIo) (t : Moment) (req : AppendRequest) (n : Node) where
  abbrev pub heard : Node
  heard = record n { state = accept_leader t req n.state }

  append_entries_behind :
      req.term < n.state.current_term
      → append_entries io t req n ≡ (n, record (default_response req n) { status = bad_payload })
  unfolding append_entries
  append_entries_behind h = ground arith

  pub append_entries-heard :
      n.state.current_term ≤ req.term
      → append_entries io t req n ≡ replicate_entry io req (default_response req n) heard
  unfolding append_entries
  append_entries-heard h = ground arith

  pub append_entries-state :
      (req.term < n.state.current_term
        → ((append_entries io t req n).0 ≡ n)
          × ((append_entries io t req n).1.status ≡ bad_payload)
          × ((append_entries io t req n).1.prev_log_term ≡ n.state.current_term))
      × (n.state.current_term ≤ req.term
          → ((append_entries io t req n).0.state.current_term ≡ req.term)
            × ((append_entries io t req n).0.state.role ≡ follower)
            × ((append_entries io t req n).0.state.voted_for ≡ [])
            × ((append_entries io t req n).0.commit_index ≡ n.commit_index))
  append_entries-state = (
    (λ h. rw (append_entries_behind h) (refl, refl, unfold default_response in refl)),
    (λ h. rw (append_entries-heard h) ground (
      arith,
      replicate_entry-state io t req heard (default_response req n),
      accept_leader-role t req n.state,
      accept_leader-voted_for t req n.state,
      accept_leader-term t req n.state,
    )),
  )

module _ (io : AppendIo) (t : Moment) (req : AppendRequest) (n : Node) where
  -- AppendEntries: a request of an older term is answered with the node's own term and changes nothing.
  -- Any other makes the node a follower in the request's term, with no vote given; in either case the
  -- term does not fall and the commit index stays.
  pub append_entries_cases :
      ((req.term < n.state.current_term)
        × ((append_entries io t req n).0 ≡ n)
        × ((append_entries io t req n).1.status ≡ bad_payload)
        × ((append_entries io t req n).1.prev_log_term ≡ n.state.current_term))
      ⊎ ((n.state.current_term ≤ req.term)
          × ((append_entries io t req n).0.state.current_term ≡ req.term)
          × ((append_entries io t req n).0.state.role ≡ follower)
          × ((append_entries io t req n).0.state.voted_for ≡ [])
          × ((append_entries io t req n).0.commit_index ≡ n.commit_index))
  append_entries_cases = elim (dec_le n.state.current_term req.term) [
    | yes p ↦
        let (term, role, vote, index) = (append_entries-state io t req n).1 p in
        inr (p, term, role, vote, index)
    | no p ↦
        let lt : req.term < n.state.current_term = omega arith in
        let (same, refused, told) = (append_entries-state io t req n).0 lt in
        inl (lt, same, refused, told)
  ]

-- A follower that has not voted in the request's term votes for a candidate whose log is up to date.
request_vote_fresh :
    (t : Moment) (req : VoteRequest) (n : Node)
    → req.gossip ≡ false
    → n.state.current_term ≡ req.term
    → n.state.role ≡ follower
    → n.state.voted_for ≡ []
    → log_is_up_to_date req n.handler ≡ true
    → (request_vote t req n).1 ≡ true
unfolding request_vote cast_vote adopt_term refused_early may_vote
request_vote_fresh t req n formal same role free fresh =
    ground (arith, text_eq_iff n.state.voted_for [])

-- After a formal vote for one candidate, an AppendEntries request of the same term makes room for a
-- formal vote for any other candidate of that term whose log is up to date: a node can give two votes
-- in one term.
pub vote_twice :
    (io : AppendIo) (t u w : Moment) (a b : VoteRequest) (heartbeat : AppendRequest) (n : Node)
    → a.gossip ≡ false
    → (request_vote t a n).1 ≡ true
    → heartbeat.term ≡ a.term
    → b.gossip ≡ false
    → b.term ≡ a.term
    → log_is_up_to_date b (append_entries io u heartbeat (request_vote t a n).0).0.handler ≡ true
    → (request_vote w b (append_entries io u heartbeat (request_vote t a n).0).0).1 ≡ true
vote_twice io t u w a b heartbeat n ga va same gb same_b fresh =
    request_vote_fresh w b _ gb (after.0 ∙ same ∙ sym same_b) after.1 after.2 fresh
  where
    voted : Node
    voted = (request_vote t a n).0

    after :
        ((append_entries io u heartbeat voted).0.state.current_term ≡ heartbeat.term)
        × ((append_entries io u heartbeat voted).0.state.role ≡ follower)
        × ((append_entries io u heartbeat voted).0.state.voted_for ≡ [])
        × ((append_entries io u heartbeat voted).0.commit_index ≡ voted.commit_index)
    after =
        (append_entries-state io u heartbeat voted).1
          (omega (arith, (request_vote_granted t a n ga va).0))
