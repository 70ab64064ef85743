-- ===== src/Raft/Lagging.antt =====
-- What the leader sends to a peer that lags, and when it counts an entry as committed.
use native.Mathlib.Decide.{dec_le}
use not_ahivemind.Base.{
  ℕ, zero, suc, ◌+◌, ◌-◌, ◌≤◌, ◌<◌, ◌≡◌, refl, ◌∙◌, false, List, [], ◌∷◌, arith, ltb, length, take,
  drop,
}
use not_ahivemind.Storage.Codec.{LogEntry}
use not_ahivemind.Storage.Handler.{LogName, Handler}
use not_ahivemind.Storage.Reader
use not_ahivemind.Storage.Queries.{entries_lem}
use not_ahivemind.Storage.Valid.{Contiguous, end_term, IsValid}
use not_ahivemind.Raft.Node.{Node, prev_log_term}
use not_ahivemind.Raft.Append.{AppendRequest}
use not_ahivemind.Raft.Catchup.{fill_request, empty_request, catchup_request}

one_entry :
    (n k : ℕ) (es : List LogEntry)
    → Contiguous n es
    → k < length es
    → (e : LogEntry) × (take 1 (drop k es) ≡ e ∷ []) × (e.index ≡ n + 1 + k)
one_entry n k [] h lt = absurd (omega arith)
one_entry n zero (e ∷ es) (p, h) lt = (e, refl, omega (arith, p))
one_entry n (suc k) (e ∷ es) (p, h) lt =
    let (x, eq, index) = one_entry e.index k es h (omega arith) in (x, eq, omega (arith, index, p))

two_entries_at :
    (n k term : ℕ) (es : List LogEntry)
    → Contiguous n es
    → k + 1 < length es
    → (d : LogEntry) × (e : LogEntry) × (take 2 (drop k es) ≡ d ∷ e ∷ [])
      × (take 1 (drop (suc k) es) ≡ e ∷ [])
      × (d.index ≡ n + 1 + k)
      × (e.index ≡ n + 2 + k)
      × (d.term ≡ end_term term (take (suc k) es))
two_entries_at n k term [] h lt = absurd (omega arith)
two_entries_at n zero term (d ∷ []) h lt = absurd (omega arith)
two_entries_at n zero term (d ∷ e ∷ es) (p, q) lt =
    (d, e, refl, refl, omega (arith, p), omega (arith, p, q.0), refl)
two_entries_at n (suc k) term (x ∷ es) (p, h) lt =
    let (d, e, two, one, i, j, t) = two_entries_at x.index k x.term es h (omega arith) in
    (d, e, two, one, omega (arith, i, p), omega (arith, j, p), t)

module _ (h : Handler) (target : ℕ) (above : h.disc_index < target)
    (below : target ≤ h.prev_index) where
  -- At the boundary the range starts with the first entry.
  first_read :
      h.prev_index ≡ h.disc_index + length h.entries
      → target ≡ h.disc_index + 1
      → Reader.entries (target - 1) (target + 1) h ≡ take 1 (drop 0 h.entries)
  unfolding Reader.entries
  first_read index first = ground (arith, index)

-- What the request carries, against the log it was made from.
pub record Carries (h : Handler) (target : ℕ) (req : AppendRequest) (e : LogEntry) : Type 0 where
  pub stored : take 1 (drop (target - h.disc_index - 1) h.entries) ≡ e ∷ []
  pub index : req.index ≡ target
  pub entry_index : e.index ≡ target
  pub payload : req.payload ≡ e.payload
  pub scheduler_id : req.scheduler_id ≡ e.scheduler_id
  pub prev_log_index : req.prev_log_index ≡ target - 1
  pub prev_log_term :
      req.prev_log_term ≡ end_term h.disc_term (take (target - h.disc_index - 1) h.entries)

-- Filling a request with the entry of its index changes these fields.
fill_entry : ℕ → LogEntry → AppendRequest → AppendRequest
fill_entry prev_term e req = record req {
  prev_log_term = prev_term;
  payload = e.payload;
  index = e.index;
  scheduler_id = e.scheduler_id;
}

module _ (target : ℕ) (req : AppendRequest) (e : LogEntry) (above : 0 < target)
    (prev : req.prev_log_index ≡ target - 1) (index : e.index ≡ target) where
  fill_request-one : fill_request target (e ∷ []) req ≡ fill_entry req.prev_log_term e req
  unfolding fill_request fill_entry
  fill_request-one = ground arith

  fill_request-two :
      (d : LogEntry)
      → d.index + 1 ≡ target
      → fill_request target (d ∷ e ∷ []) req ≡ fill_entry d.term e req
  unfolding fill_request fill_entry
  fill_request-two d before = ground arith

module _ (name : LogName) (n : Node) (target : ℕ) (v : IsValid name n.handler) where
  request : AppendRequest
  request = empty_request n.state.current_term (target - 1) (prev_log_term (target - 1) n.handler) n

  -- Up to the last index the range is not cut short.
  catchup_request-read :
      (es : List LogEntry)
      → target ≤ n.handler.prev_index
      → Reader.entries (target - 1) (target + 1) n.handler ≡ es
      → catchup_request target n ≡ fill_request target es request
  unfolding catchup_request request
  catchup_request-read es below read =
      let inside : ltb (n.handler.prev_index + 1) (target + 1) ≡ false = ground arith in
      rw (inside, read) refl

  Carries-fill_entry :
      (e : LogEntry) (k prev_term : ℕ)
      → target - n.handler.disc_index - 1 ≡ k
      → take 1 (drop k n.handler.entries) ≡ e ∷ []
      → e.index ≡ target
      → prev_term ≡ end_term n.handler.disc_term (take k n.handler.entries)
      → Carries n.handler target (fill_entry prev_term e request) e
  unfolding fill_entry request
  Carries-fill_entry e k prev_term skipped one index term = record {
    stored = rw skipped one;
    index = index;
    entry_index = index;
    payload = refl;
    scheduler_id = refl;
    prev_log_index = refl;
    prev_log_term = rw skipped term;
  }

  Carries-first :
      (e : LogEntry)
      → target ≡ n.handler.disc_index + 1
      → target ≤ n.handler.prev_index
      → take 1 (drop 0 n.handler.entries) ≡ e ∷ []
      → e.index ≡ target
      → Carries n.handler target (catchup_request target n) e
  unfolding prev_log_term request
  Carries-first e first below one index =
      let read = first_read n.handler target (omega (arith, first)) below v.index first ∙ one in
      rw
        (
          catchup_request-read (e ∷ []) below read,
          fill_request-one target request e (omega (arith, first)) refl index,
        )
        (Carries-fill_entry e 0 request.prev_log_term (omega (arith, first)) one index
          (ground (arith, first)))

  Carries-inner :
      (d e : LogEntry) (k : ℕ)
      → target ≡ n.handler.disc_index + 2 + k
      → target ≤ n.handler.prev_index
      → Reader.entries (target - 1) (target + 1) n.handler ≡ d ∷ e ∷ []
      → take 1 (drop (suc k) n.handler.entries) ≡ e ∷ []
      → d.index + 1 ≡ target
      → e.index ≡ target
      → d.term ≡ end_term n.handler.disc_term (take (suc k) n.handler.entries)
      → Carries n.handler target (catchup_request target n) e
  unfolding request
  Carries-inner d e k place below read one before index term =
      rw
        (
          catchup_request-read (d ∷ e ∷ []) below read,
          fill_request-two target request e (omega (arith, place)) refl index d before,
        )
        (Carries-fill_entry e (suc k) d.term (omega (arith, place)) one index term)

  inner_read :
      (k : ℕ)
      → target ≡ n.handler.disc_index + 2 + k
      → target ≤ n.handler.prev_index
      → Reader.entries (target - 1) (target + 1) n.handler ≡ take 2 (drop k n.handler.entries)
  inner_read k place below =
      let two : target + 1 - (target - 1) ≡ 2 = omega (arith, place) in
      let skipped : target - 1 - n.handler.disc_index - 1 ≡ k = omega (arith, place) in
      entries_lem n.handler (target - 1) (target + 1) (omega (arith, place)) (omega arith)
        (omega (arith, v.index))
      ∙ rw (two, skipped) refl

  -- The request that resolvePeerLag makes for an index of a valid log behind the boundary carries the
  -- entry of that index, and the index before it with that entry's term, or with the boundary's term
  -- where the entry is the first.
  pub catchup_request-Carries :
      n.handler.disc_index < target
      → target ≤ n.handler.prev_index
      → (e : LogEntry) × Carries n.handler target (catchup_request target n) e
  catchup_request-Carries above below = elim (dec_le target (n.handler.disc_index + 1)) [
    | yes p ↦
        let first : target ≡ n.handler.disc_index + 1 = omega arith in
        let (e, one, index) =
          one_entry n.handler.disc_index 0 n.handler.entries v.contiguous
            (omega (arith, v.index)) in
        (e, Carries-first e first below one (omega (arith, index)))
    | no p ↦
        let k : ℕ = target - n.handler.disc_index - 2 in
        let place : target ≡ n.handler.disc_index + 2 + k = omega arith in
        let (d, e, two, one, i, j, term) =
          two_entries_at n.handler.disc_index k n.handler.disc_term n.handler.entries v.contiguous
            (omega (arith, v.index, place)) in
        (
          e,
          Carries-inner d e k place below (inner_read k place below ∙ two) one
              (omega (arith, i, place)) (omega (arith, j, place)) term,
        )
  ]
