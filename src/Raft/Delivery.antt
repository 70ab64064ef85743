-- ===== src/Raft/Delivery.antt =====
-- AppendEntries as a whole: what its answer says of the follower's log.
use native.Mathlib.Decide.{dec_le}
use not_ahivemind.Base.{ℕ, ◌≤◌, ◌<◌, ◌≡◌, ◌≢◌, refl, sym, ap, ◌∙◌, List, [], ◌∷◌, arith, All}
use not_ahivemind.Storage.Codec.Frame.{IsEncodable}
use not_ahivemind.Storage.Handler.{LogName, Handler}
use not_ahivemind.Storage.Writer.{append, cut_at, truncate_log}
use not_ahivemind.Storage.Valid.{IsValid}
use not_ahivemind.Raft.State.{Moment}
use not_ahivemind.Raft.Node.{Node}
use not_ahivemind.Raft.Append.{
  AppendIo, AppendRequest, AppendResponse, success, bad_payload, default_response, entry_of,
  replace_entry, store_entry, accept_leader, replicate_entry, append_entries,
}
use not_ahivemind.Raft.Following.{heard, append_entries-heard, append_entries-state}
use not_ahivemind.Raft.Place.{no_faults}
use not_ahivemind.Raft.Replication.{EndsWith, store_entry_success}

module _ (t : Moment) (req : AppendRequest) (n : Node) where
  -- What a replication step that answers success has done.
  replicate_success :
      (resp : AppendResponse)
      → req.payload ≢ []
      → (replicate_entry no_faults req resp n).1.status ≡ success
      → (req.prev_log_index ≤ n.handler.prev_index)
        × ((store_entry no_faults (entry_of req) n.handler).1 ≡ success)
        × ((replicate_entry no_faults req resp n).0.handler
            ≡ (store_entry no_faults (entry_of req) n.handler).0)
  unfolding replicate_entry
  replicate_success resp loaded s = ground arith

refusal : bad_payload ≢ success
refusal p = ground arith

module _ (name : LogName) (t : Moment) (req : AppendRequest) (n : Node)
    (v : IsValid name n.handler) where
  -- A follower with a valid log answers a request with success. Where the payload is not empty, the
  -- entry is encodable (its fields fit their widths and its identifier is short enough) and no write
  -- fails, the request's term was not earlier than the follower's and is the follower's now, the recorded
  -- last index had reached the previous index of the request, and the log is now valid and ends with that
  -- entry behind what stood before its index.
  pub append_entries_success :
      IsEncodable (entry_of req)
      → req.payload ≢ []
      → (append_entries no_faults t req n).1.status ≡ success
      → (n.state.current_term ≤ req.term)
        × ((append_entries no_faults t req n).0.state.current_term ≡ req.term)
        × (req.prev_log_index ≤ n.handler.prev_index)
        × EndsWith name n.handler (entry_of req) (append_entries no_faults t req n).0.handler
  append_entries_success fits loaded s = elim (dec_le n.state.current_term req.term) [
    | yes p ↦
        let (had, stored, same) =
          replicate_success t req (heard no_faults t req n) (default_response req n) loaded (
            ap (λ (x : Node × AppendResponse). x.1.status)
              (sym (append_entries-heard no_faults t req n p))
            ∙ s) in
        (
          p,
          ((append_entries-state no_faults t req n).1 p).0,
          had,
          (rw (append_entries-heard no_faults t req n p, same)
              (store_entry_success name n.handler (entry_of req) v fits stored)),
        )
    | no p ↦ absurd (refusal (sym ((append_entries-state no_faults t req n).0 (omega arith)).1 ∙ s))
  ]

-- The previous term is compared only at the very end of the follower's log: further in, requests that
-- differ in it alone have the same effect and the same answer.
prev_term_unchecked :
    (io : AppendIo) (t : Moment) (req : AppendRequest) (n : Node) (other : ℕ)
    → req.prev_log_index < n.handler.prev_index
    → append_entries io t (record req { prev_log_term = other }) n ≡ append_entries io t req n
unfolding append_entries replicate_entry default_response accept_leader entry_of
prev_term_unchecked io t req n other h = ground arith

-- Requests that a node handles one after the other, with no fault.
pub redeliver : List (Moment × AppendRequest) → Node → Node
redeliver [] n = n
redeliver ((t, req) ∷ reqs) n = redeliver reqs (append_entries no_faults t req n).0

-- An entry whose index lies between the boundary and the recorded last index.
abbrev pub IsWithin : Handler → AppendRequest → Type 0
IsWithin h req =
    (h.disc_index < req.index)
    × (req.index ≤ h.prev_index)
    × (h.disc_term ≤ req.term)
    × (req.payload ≢ [])

within_rejected :
    (h : Handler) (req : AppendRequest)
    → h.entries ≡ []
    → IsWithin h req
    → store_entry no_faults (entry_of req) h ≡ (h, bad_payload)
unfolding store_entry replace_entry append truncate_log cut_at entry_of
within_rejected h req empty within = ground (arith, empty)

module _ (t : Moment) (req : AppendRequest) (n : Node) where
  replicate_within :
      (resp : AppendResponse)
      → n.handler.entries ≡ []
      → IsWithin n.handler req
      → ((replicate_entry no_faults req resp n).0.handler ≡ n.handler)
        × ((replicate_entry no_faults req resp n).1.status ≡ bad_payload)
  unfolding replicate_entry
  replicate_within resp empty within = ground (arith, within_rejected n.handler req empty within)

module _ (t : Moment) (req : AppendRequest) (n : Node) where
  append_entries_within :
      n.handler.entries ≡ []
      → IsWithin n.handler req
      → ((append_entries no_faults t req n).0.handler ≡ n.handler)
        × ((append_entries no_faults t req n).1.status ≡ bad_payload)
  append_entries_within empty within = elim (dec_le n.state.current_term req.term) [
    | yes p ↦
        rw (append_entries-heard no_faults t req n p)
          (replicate_within t req (heard no_faults t req n) (default_response req n) empty within)
    | no p ↦
        let (same, refused, term) = (append_entries-state no_faults t req n).0 (omega arith) in
        (ap (λ (x : Node). x.handler) same, refused)
  ]

redeliver-handler :
    (reqs : List (Moment × AppendRequest)) (n : Node)
    → n.handler.entries ≡ []
    → All (λ r. IsWithin n.handler r.1) reqs
    → (redeliver reqs n).handler ≡ n.handler
unfolding redeliver
redeliver-handler [] n empty h = refl
redeliver-handler ((t, req) ∷ reqs) n empty (w, h) =
    let first = (append_entries_within t req n empty w).0 in
    redeliver-handler reqs (append_entries no_faults t req n).0 (rw first empty) (rw first h)
    ∙ first

-- A follower's log was emptied, with its recorded last index kept. An entry whose index is above the
-- boundary and at most that last index, whose term is not before the boundary's and whose payload is not
-- empty is refused, however many entries of the kind are sent before it and with no fault in any
-- request: the log does not change, and the answer to the last is the bad payload status.
pub emptied_log_stuck :
    (reqs : List (Moment × AppendRequest)) (t : Moment) (req : AppendRequest) (n : Node)
    → n.handler.entries ≡ []
    → All (λ r. IsWithin n.handler r.1) reqs
    → IsWithin n.handler req
    → ((append_entries no_faults t req (redeliver reqs n)).0.handler ≡ n.handler)
      × ((append_entries no_faults t req (redeliver reqs n)).1.status ≡ bad_payload)
emptied_log_stuck reqs t req n empty h w =
    let (kept, refused) =
      append_entries_within t req (redeliver reqs n) (rw same empty) (rw same w) in
    (kept ∙ same, refused)
  where
    same : (redeliver reqs n).handler ≡ n.handler
    same = redeliver-handler reqs n empty h
