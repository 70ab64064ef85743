-- ===== src/Raft/Serving.antt =====
-- What the node promises to clients, and to a leader that sends a snapshot.
use not_ahivemind.Base.{
  ℕ, ◌≤◌, ◌<◌, ◌≡◌, ◌≢◌, ◌⊎◌, refl, sym, ◌∙◌, inl, inr, true, false, ltb, if◌then◌else◌, Option,
  none, some, List, [], ◌∷◌, arith, Text, Option-cases,
}
use not_ahivemind.Base.Int.{ℤ, pos, ◌≤ℤ◌, eq_ℤ_iff}
use not_ahivemind.Storage.Codec.{LogEntry}
use not_ahivemind.Storage.Handler.{Handler}
use not_ahivemind.Storage.Reader.{Peek, query_entries}
use not_ahivemind.Storage.Snapshot.{InstallFault, install_snapshot}
use not_ahivemind.Raft.State.{follower, Moment}
use not_ahivemind.Raft.Node.{Node}
use not_ahivemind.Raft.SingleVote.{IsBound}
use not_ahivemind.Raft.Append.{step_back}
use not_ahivemind.Raft.Serve.{
  CasPayload, CasPeek, cas_no_conflict, cas_concurrent_claim, repeats_claim, compare_cas,
  check_cas_conflict, InstallSnapshotRequest, accept_snapshot, install_request,
}

repeats_claim_sound :
    (a b : Option ℤ)
    → repeats_claim a b ≡ true
    → (s : ℤ) × (a ≡ some s) × (b ≡ some s) × (pos 0 ≤ℤ s)
unfolding repeats_claim
repeats_claim_sound none b h = absurd (ground arith)
repeats_claim_sound (some s) none h = absurd (ground arith)
repeats_claim_sound (some s) (some t) h = (s, refl, ground (arith, eq_ℤ_iff t s), ground arith)

compare_cas_claim :
    (incoming current : CasPayload)
    → compare_cas incoming current ≡ cas_concurrent_claim
    → repeats_claim incoming.state current.state ≡ true
unfolding compare_cas
compare_cas_claim incoming current h = ground arith

log_cases :
    (es : List LogEntry) → (es ≡ []) ⊎ ((e : LogEntry) × (rest : List LogEntry) × (es ≡ e ∷ rest))
log_cases [] = inl refl
log_cases (e ∷ es) = inr (e, es, refl)

-- The newest entry of an identifier in the log, as two payloads meet.
pub record Meets (peek : Peek) (peek_cas : CasPeek) (h : Handler) (payload : List ℕ) : Type 0 where
  pub incoming : CasPayload
  pub current : CasPayload
  pub newest : LogEntry
  pub older : List LogEntry
  pub parsed : peek_cas payload ≡ some incoming
  pub found : query_entries peek none (some incoming.id) h ≡ newest ∷ older
  pub current_parsed : peek_cas newest.payload ≡ some current
  pub conflict : check_cas_conflict peek peek_cas payload h ≡ compare_cas incoming current

module _ (peek : Peek) (peek_cas : CasPeek) (payload : List ℕ) (h : Handler) where
  meets :
      check_cas_conflict peek peek_cas payload h ≢ cas_no_conflict → Meets peek peek_cas h payload
  unfolding check_cas_conflict
  meets conflict = elim (Option-cases (peek_cas payload)) [
    | inl p ↦ absurd (conflict (ground (arith, p)))
    | inr (incoming, p) ↦ elim (log_cases (query_entries peek none (some incoming.id) h)) [
      | inl q ↦ absurd (conflict (ground (arith, p, q)))
      | inr (e, es, q) ↦ elim (Option-cases (peek_cas e.payload)) [
        | inl r ↦ absurd (conflict (ground (arith, p, q, r)))
        | inr (current, r) ↦ record {
          incoming = incoming;
          current = current;
          newest = e;
          older = es;
          parsed = p;
          found = q;
          current_parsed = r;
          conflict = ground (arith, p, q, r, conflict);
        }
      ]
    ]
  ]

  -- A claim that is refused as concurrent names a state of the job, not negative, that the newest entry
  -- of the job's identifier in the log already has.
  pub check_cas_conflict_claim :
      check_cas_conflict peek peek_cas payload h ≡ cas_concurrent_claim
      → (m : Meets peek peek_cas h payload) × (s : ℤ) × (m.incoming.state ≡ some s)
        × (m.current.state ≡ some s)
        × (pos 0 ≤ℤ s)
  check_cas_conflict_claim refused =
      let m = meets (λ p. ground (arith, p, refused)) in
      let (s, asked, held, nonnegative) =
        repeats_claim_sound m.incoming.state m.current.state
          (compare_cas_claim m.incoming m.current (sym m.conflict ∙ refused)) in
      (m, s, asked, held, nonnegative)

module _ (fault : InstallFault) (t : Moment) (req : InstallSnapshotRequest) (n : Node) where
  -- InstallSnapshot of an older term changes nothing and answers the node's term. Any other makes the
  -- node a follower of the request's term and hands the chunk to the log; the vote stays where the node
  -- was in that term already, and is cleared where the term is new. An error is answered exactly where
  -- the log reports one, and else the term the node had before.
  pub install_request_cases :
      ((req.term < n.state.current_term)
        × (install_request fault t req n ≡ (n, some n.state.current_term)))
      ⊎ ((n.state.current_term ≤ req.term)
          × ((install_request fault t req n).0.state.current_term ≡ req.term)
          × ((install_request fault t req n).0.state.role ≡ follower)
          × ((install_request fault t req n).0.state.voted_for
              ≡ (if ltb n.state.current_term req.term then [] else n.state.voted_for))
          × ((install_request fault t req n).0.handler
              ≡ (install_snapshot fault req.chunk n.handler).0)
          × ((((install_request fault t req n).1 ≡ some n.state.current_term)
                × ((install_snapshot fault req.chunk n.handler).1 ≡ false))
              ⊎ (((install_request fault t req n).1 ≡ none)
                  × ((install_snapshot fault req.chunk n.handler).1 ≡ true))))
  unfolding install_request accept_snapshot step_back
  install_request_cases = ground arith

  -- A node that has voted in a term still has that vote, or is past the term, after InstallSnapshot.
  pub install_request-IsBound :
      (term : ℕ) (candidate_id : Text)
      → IsBound term candidate_id n.state
      → IsBound term candidate_id (install_request fault t req n).0.state
  unfolding install_request accept_snapshot step_back
  install_request-IsBound term candidate_id b = ground arith
