-- ===== src/Raft/Leadership.antt =====
-- A cluster's election: the ballots that its nodes cast in one term, and who can win with them.
use mathlib.Core.Path.{subst}
use not_ahivemind.Base.{
  ℕ, ◌+◌, ◌≤◌, ◌<◌, ◌≡◌, ◌≢◌, refl, sym, ◌∙◌, inl, inr, Bool, true, false, ◌||◌, Option, none, some,
  List, [], ◌∷◌, arith, Text, text_eq, text_eq_iff, if◌then◌else◌, length, All,
}
use not_ahivemind.Raft.State.{candidate, leader, Moment}
use not_ahivemind.Raft.Node.{Node, majority}
use not_ahivemind.Raft.Vote.{VoteRequest, request_vote}
use not_ahivemind.Raft.Voting.{request_vote_granted}
use not_ahivemind.Raft.SingleVote.{IsBound}
use not_ahivemind.Raft.Election.{Reply, counts, count_votes, stand_for_election, finish_election}
use not_ahivemind.Raft.Campaign.{text_eq_dec, finish_election_leads}
use not_ahivemind.Raft.Steps.{Step, NotOf, Step-IsBound}

-- A node casts its ballot of a term for a candidate: it answers a formal request of the term with a
-- vote, or it stands for election itself.
pub data Ballot (term : ℕ) (candidate_id : Text) : Node → Node → Type 0 where
  grants :
      (t : Moment) (req : VoteRequest) (n : Node)
      → req.gossip ≡ false
      → req.term ≡ term
      → req.origin_node_id ≡ candidate_id
      → (request_vote t req n).1 ≡ true
      → Ballot term candidate_id n (request_vote t req n).0
  stands :
      (t : Moment) (old_term : ℕ) (req : VoteRequest) (n : Node)
      → (stand_for_election t old_term n).1 ≡ some req
      → req.term ≡ term
      → n.state.id ≡ candidate_id
      → Ballot term candidate_id n (stand_for_election t old_term n).0

-- A run of a node, with the ballots of the term that it casts in it. It gets no AppendEntries request
-- of the term.
pub data Casts (term : ℕ) : List Text → Node → Node → Type 0 where
  idle : (n : Node) → Casts term [] n n
  steps :
      {votes : List Text} {a b c : Node}
      → Step (NotOf term) a b
      → Casts term votes b c
      → Casts term votes a c
  votes_for :
      {votes : List Text} {a b c : Node} (candidate_id : Text)
      → candidate_id ≢ []
      → Ballot term candidate_id a b
      → Casts term votes b c
      → Casts term (candidate_id ∷ votes) a c

module _ (t : Moment) (old_term : ℕ) (req : VoteRequest) (n : Node) where
  stand_for_election_votes :
      (stand_for_election t old_term n).1 ≡ some req
      → (n.state.current_term < req.term)
        × ((stand_for_election t old_term n).0.state.current_term ≡ req.term)
        × ((stand_for_election t old_term n).0.state.voted_for ≡ n.state.id)
  unfolding stand_for_election
  stand_for_election_votes asked = ground arith

module _ (term : ℕ) (candidate_id : Text) where
  Ballot-IsBound : {a b : Node} → Ballot term candidate_id a b → IsBound term candidate_id b.state
  Ballot-IsBound (grants t req n formal same origin v) =
      ground (arith, request_vote_granted t req n formal v)
  Ballot-IsBound (stands t old_term req n asked same own) =
      ground (arith, stand_for_election_votes t old_term req n asked)

  module _ (other : Text) (named : candidate_id ≢ []) where
    Ballot-again :
        {a b : Node}
        → IsBound term candidate_id a.state
        → Ballot term other a b
        → other ≡ candidate_id
    Ballot-again h (grants t req n formal same origin v) =
        ground (arith, request_vote_granted t req n formal v)
    Ballot-again h (stands t old_term req n asked same own) =
        absurd (ground (arith, stand_for_election_votes t old_term req n asked))

-- Every ballot after the first is for the same candidate.
Casts-same :
    (term : ℕ) (candidate_id : Text)
    → candidate_id ≢ []
    → {votes : List Text} {a b : Node} → IsBound term candidate_id a.state
    → Casts term votes a b
    → All (λ v. v ≡ candidate_id) votes
Casts-same term candidate_id named h (idle n) = tt
Casts-same term candidate_id named h (steps s r) =
    Casts-same term candidate_id named (Step-IsBound term candidate_id named s h) r
Casts-same term candidate_id named h (votes_for {b = b} other p l r) =
    let same : other ≡ candidate_id = Ballot-again term candidate_id other named h l in
    let bound = subst (λ c. IsBound term c b.state) same (Ballot-IsBound term other l) in
    (same, Casts-same term candidate_id named bound r)

unfoldable pub names : Text → List Text → Bool
names candidate_id [] = false
names candidate_id (v ∷ vs) = text_eq v candidate_id || names candidate_id vs

names-All : (a b : Text) (votes : List Text) → All (λ v. v ≡ a) votes → names b votes ≡ true → a ≡ b
unfolding names
names-All a b [] h p = cc
names-All a b (v ∷ vs) h p = ground (arith, text_eq_iff v b, names-All a b vs h.1)

-- The ballots of a run name one candidate at most.
Casts-once :
    (term : ℕ) (a b : Text) {votes : List Text} {n m : Node}
    → Casts term votes n m
    → names a votes ≡ true
    → names b votes ≡ true
    → a ≡ b
unfolding names
Casts-once term a b (idle n) p q = cc
Casts-once term a b (steps s r) p q = Casts-once term a b r p q
Casts-once term a b (votes_for {votes = votes} c named l r) p q =
    let rest = Casts-same term c named (Ballot-IsBound term c l) r in
    sym (names-All c a (c ∷ votes) (refl, rest) p) ∙ names-All c b (c ∷ votes) (refl, rest) q

-- A node of the cluster: its run, and the ballots it casts in the term.
pub record Voter (term : ℕ) : Type 0 where
  pub before : Node
  pub after : Node
  pub votes : List Text
  pub run : Casts term votes before after

-- The answers that a candidate has, with the nodes they come from: at most one from each other node,
-- and one that is a vote comes from a node that cast its ballot for the candidate. The flag says
-- whether the candidate's own run, with its own ballot, is among the nodes.
pub data Backed (term : ℕ) (candidate_id : Text)
    : Bool → List (Voter term) → List Reply → Type 0 where
  nobody : Backed term candidate_id false [] []
  itself :
      {vs : List (Voter term)} {rs : List Reply} (v : Voter term)
      → names candidate_id v.votes ≡ true
      → Backed term candidate_id false vs rs
      → Backed term candidate_id true (v ∷ vs) rs
  unasked :
      {own : Bool} {vs : List (Voter term)} {rs : List Reply} (v : Voter term)
      → Backed term candidate_id own vs rs
      → Backed term candidate_id own (v ∷ vs) rs
  answers :
      {own : Bool} {vs : List (Voter term)} {rs : List Reply} (v : Voter term) (r : Reply)
      → (r.vote ≡ some true → names candidate_id v.votes ≡ true)
      → Backed term candidate_id own vs rs
      → Backed term candidate_id own (v ∷ vs) (r ∷ rs)

abbrev own_vote : Bool → ℕ
own_vote true = 0
own_vote false = 1

counts-vote : (term : ℕ) (r : Reply) → counts candidate term r ≡ true → r.vote ≡ some true
unfolding counts
counts-vote term r h = voted r.vote (ground arith)
  where
    voted : (v : Option Bool) → (elim v [ none ↦ false | some b ↦ b ]) ≡ true → v ≡ some true
    voted none p = cc
    voted (some b) p = cc

module _ {term : ℕ} where
  supporters : Text → List (Voter term) → ℕ
  supporters candidate_id [] = 0
  supporters candidate_id (v ∷ vs) =
      let rest = supporters candidate_id vs in if names candidate_id v.votes then rest + 1 else rest

  count_votes-supporters :
      (candidate_id : Text) {own : Bool} {vs : List (Voter term)} {rs : List Reply}
      → Backed term candidate_id own vs rs
      → count_votes candidate term rs ≤ supporters candidate_id vs + own_vote own
  unfolding count_votes supporters
  count_votes-supporters candidate_id nobody = ground arith
  count_votes-supporters candidate_id (itself v p b) =
      ground (arith, count_votes-supporters candidate_id b)
  count_votes-supporters candidate_id (unasked v b) =
      ground (arith, count_votes-supporters candidate_id b)
  count_votes-supporters candidate_id (answers v r p b) =
      ground (arith, count_votes-supporters candidate_id b, counts-vote term r, p)

  supporters-apart :
      (a b : Text) (vs : List (Voter term)) → a ≢ b → supporters a vs + supporters b vs ≤ length vs
  unfolding supporters
  supporters-apart a b [] p = ground arith
  supporters-apart a b (v ∷ vs) p =
      ground (arith, supporters-apart a b vs p, Casts-once term a b v.run)

-- Two nodes that become leader at the end of their elections in one term are the same node, when the
-- answers that each counted are backed by ballots of the cluster's nodes, and no node was sent an
-- AppendEntries request of that term before its last ballot in it.
pub one_leader :
    (term peers : ℕ) (vs : List (Voter term)) (ra rb : List Reply) (a b : Node)
    → length vs ≤ peers + 1
    → Backed term a.state.id true vs ra
    → Backed term b.state.id true vs rb
    → a.state.role ≢ leader
    → b.state.role ≢ leader
    → (finish_election term peers ra a).state.role ≡ leader
    → (finish_election term peers rb b).state.role ≡ leader
    → a.state.id ≡ b.state.id
unfolding majority
one_leader term peers vs ra rb a b all ba bb na nb la lb =
    elim (text_eq_dec a.state.id b.state.id) [
      | inl same ↦ same
      | inr apart ↦ absurd (
          omega (
            arith,
            supporters-apart a.state.id b.state.id vs apart,
            count_votes-supporters a.state.id ba,
            count_votes-supporters b.state.id bb,
            (finish_election_leads term peers ra a na la).2,
            (finish_election_leads term peers rb b nb lb).2,
          ))
    ]
