-- ===== src/Raft/Proposal.antt =====
-- AddLog and AppendEntries together: what the leader appends, a follower with the same end appends too.
use not_ahivemind.Base.{
  ℕ, suc, ◌+◌, ◌-◌, ◌≤◌, ◌≡◌, ◌≢◌, refl, sym, ap, ◌∙◌, some, List, [], ◌∷◌, ◌++◌, arith, length,
  take, drop,
}
use not_ahivemind.Storage.Codec.{LogEntry}
use not_ahivemind.Storage.Handler.{LogName, Handler, set_active}
use not_ahivemind.Storage.Reader
use not_ahivemind.Storage.Writer.{WriteFault, record_entry}
use not_ahivemind.Storage.Queries.{entries_lem}
use not_ahivemind.Storage.Valid.{IsValid, end_term, append_next}
use not_ahivemind.Raft.State.{leader, Moment}
use not_ahivemind.Raft.Node.{Node, first_term, prev_log_term}
use not_ahivemind.Raft.Append.{
  AppendRequest, AppendResponse, success, default_response, entry_of, store_entry, replicate_entry,
  append_entries,
}
use not_ahivemind.Raft.Leader.{RawAppendRequest, new_entry, replication_request, propose}
use not_ahivemind.Raft.Following.{heard, append_entries-heard}
use not_ahivemind.Raft.Place.{no_faults, store_next}

first_term_last :
    (term : ℕ) (e : LogEntry) (es : List LogEntry)
    → first_term (take 1 (drop (length es) (e ∷ es))) ≡ end_term term (e ∷ es)
unfolding first_term
first_term_last term e [] = refl
first_term_last term e (x ∷ xs) = first_term_last e.term x xs

module _ (name : LogName) (h : Handler) (v : IsValid name h) where
  last_read :
      (e : LogEntry) (es : List LogEntry)
      → h.entries ≡ e ∷ es
      → Reader.entries h.prev_index (h.prev_index + 1) h ≡ take 1 (drop (length es) (e ∷ es))
  last_read e es eq =
      let counted : h.prev_index ≡ h.disc_index + suc (length es) =
        v.index ∙ ap (λ xs. h.disc_index + length xs) eq in
      let one : h.prev_index + 1 - h.prev_index ≡ 1 = omega arith in
      let skipped : h.prev_index - h.disc_index - 1 ≡ length es = omega (arith, counted) in
      entries_lem h h.prev_index (h.prev_index + 1) (omega (arith, counted)) (omega arith)
        (omega (arith, v.index))
      ∙ rw (one, skipped, eq) refl

  prev_log_term_of :
      (es : List LogEntry) → h.entries ≡ es → prev_log_term h.prev_index h ≡ h.prev_term
  unfolding prev_log_term
  prev_log_term_of [] eq = ground (arith, v.index, v.term, eq)
  prev_log_term_of (e ∷ es) eq =
      ground (arith, v.index, v.term, eq, last_read e es eq, first_term_last h.disc_term e es)

  -- On a valid log getPrevLogTerm finds the term of the last entry.
  prev_log_term_last : prev_log_term h.prev_index h ≡ h.prev_term
  prev_log_term_last = prev_log_term_of h.entries refl

module _ (name : LogName) (raw : RawAppendRequest) (n : Node) (v : IsValid name n.handler) where
  propose_lem :
      n.state.role ≡ leader
      → propose WriteFault.no_fault raw n ≡ (
        record n { handler = record_entry name (new_entry raw n) n.handler },
        some (replication_request raw n),
      )
  unfolding propose new_entry
  propose_lem led = ground (arith, append_next name n.handler (new_entry raw n) v refl)

module _ (name : LogName) (t : Moment) (req : AppendRequest) (f : Node) (v : IsValid name f.handler)
    (index : req.index ≡ f.handler.prev_index + 1)
    (prev_index : req.prev_log_index ≡ f.handler.prev_index)
    (prev_term : req.prev_log_term ≡ f.handler.prev_term) (loaded : req.payload ≢ []) where
  replicate_next :
      (resp : AppendResponse)
      → ((replicate_entry no_faults req resp f).0.handler
          ≡ record_entry name (entry_of req) f.handler)
        × ((replicate_entry no_faults req resp f).1.status ≡ success)
  unfolding replicate_entry
  replicate_next resp =
      let stored : store_entry no_faults (entry_of req) f.handler
          ≡ (record_entry name (entry_of req) f.handler, success) =
        store_next name f.handler (entry_of req) v (unfold entry_of in index) in
      ground (arith, stored)

module _ (name other : LogName) (t : Moment) (raw : RawAppendRequest) (n f : Node) where
  -- A leader with a valid log makes an entry of a client's request whose payload is not empty, and sends
  -- it to a follower whose valid log ends with the same index and term and whose term is not later.
  -- Where no write to either log fails, both append it: the leader makes a request, the follower answers
  -- it with success, both logs have the same entry added, and they end alike again.
  pub propose-append_entries :
      IsValid name n.handler
      → IsValid other f.handler
      → n.state.role ≡ leader
      → f.state.current_term ≤ n.state.current_term
      → f.handler.prev_index ≡ n.handler.prev_index
      → f.handler.prev_term ≡ n.handler.prev_term
      → raw.payload ≢ []
      → let n' = (propose WriteFault.no_fault raw n).0 in
        let (f', resp) = append_entries no_faults t (replication_request raw n) f in
        ((propose WriteFault.no_fault raw n).1 ≡ some (replication_request raw n))
        × (resp.status ≡ success)
        × (n'.handler.entries ≡ n.handler.entries ++ new_entry raw n ∷ [])
        × (f'.handler.entries ≡ f.handler.entries ++ new_entry raw n ∷ [])
        × (f'.handler.prev_index ≡ n'.handler.prev_index)
        × (f'.handler.prev_term ≡ n'.handler.prev_term)
  unfolding record_entry set_active replication_request entry_of new_entry
  propose-append_entries v w led term index ends loaded =
      let (kept, answered) =
        replicate_next other t (replication_request raw n)
          (heard no_faults t (replication_request raw n) f) w (omega (arith, index)) (sym index)
          (prev_log_term_last name n.handler v ∙ sym ends) loaded
          (default_response (replication_request raw n) f) in
      rw
        (
          propose_lem name raw n v led,
          append_entries-heard no_faults t (replication_request raw n) f term,
        )
        (refl, answered, refl, rw kept refl, rw kept refl, rw kept refl)
