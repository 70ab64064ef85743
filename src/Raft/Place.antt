-- ===== src/Raft/Place.antt =====
-- Where an entry that comes lies in a valid log, and what storing it does there.
use native.Mathlib.Decide.{dec_le}
use not_ahivemind.Base.{
  ℕ, ◌+◌, ◌-◌, ◌≤◌, ◌<◌, ◌≡◌, ap, ◌⊎◌, inl, inr, Bool, false, none, [], arith, length, take,
  length-take,
}
use not_ahivemind.Storage.Codec.{LogEntry}
use not_ahivemind.Storage.Codec.Frame.{IsEncodable}
use not_ahivemind.Storage.Handler.{LogName, Handler}
use not_ahivemind.Storage.Writer.{WriteFault, TruncateFault, record_entry, append, truncate_log}
use not_ahivemind.Storage.Valid.{IsValid, append_behind, append_ahead, append_next}
use not_ahivemind.Storage.Truncation.{truncate_log-IsValid, truncate_log_first}
use not_ahivemind.Raft.Append.{AppendIo, success, bad_payload, needs_snapshot, store_entry}

abbrev pub no_faults : AppendIo
no_faults = record {
  first = WriteFault.no_fault;
  cut = TruncateFault.no_fault;
  second = WriteFault.no_fault;
}

-- Where an entry's index lies, as the follower's log sees it.
pub data Place (h : Handler) (e : LogEntry) : Type 0 where
  ahead : h.prev_index + 1 < e.index → Place h e
  next : e.index ≡ h.prev_index + 1 → Place h e
  covered : e.index ≤ h.prev_index → (e.index ≤ h.disc_index) ⊎ (e.term < h.disc_term) → Place h e
  first : e.index ≤ h.prev_index → e.index ≡ h.disc_index + 1 → h.disc_term ≤ e.term → Place h e
  inner :
      (k : ℕ)
      → e.index ≤ h.prev_index
      → e.index ≡ h.disc_index + 1 + k
      → 0 < k
      → h.disc_term ≤ e.term
      → Place h e

pub place : (h : Handler) (e : LogEntry) → Place h e
place h e = elim (dec_le e.index h.prev_index) [
  | no p ↦ elim (dec_le e.index (h.prev_index + 1)) [
    | yes q ↦ next (omega arith)
    | no q ↦ ahead (omega arith)
  ]
  | yes p ↦ elim (dec_le e.index h.disc_index) [
    | yes q ↦ covered p (inl q)
    | no q ↦ elim (dec_le h.disc_term e.term) [
      | no r ↦ covered p (inr (omega arith))
      | yes r ↦ elim (dec_le e.index (h.disc_index + 1)) [
        | yes s ↦ first p (omega arith) r
        | no s ↦ inner (e.index - h.disc_index - 1) p (omega arith) (omega arith) r
      ]
    ]
  ]
]

module _ (name : LogName) (h : Handler) (e : LogEntry) (v : IsValid name h) where
  pub store_ahead : h.prev_index + 1 < e.index → store_entry no_faults e h ≡ (h, bad_payload)
  unfolding store_entry
  store_ahead p = rw (append_ahead name h e v p)

  pub store_next :
      e.index ≡ h.prev_index + 1 → store_entry no_faults e h ≡ (record_entry name e h, success)
  unfolding store_entry
  store_next p = rw (append_next name h e v p)

  pub store_covered :
      e.index ≤ h.prev_index
      → (e.index ≤ h.disc_index) ⊎ (e.term < h.disc_term)
      → store_entry no_faults e h ≡ (h, needs_snapshot)
  unfolding store_entry
  store_covered p q = rw (append_behind name h e v p) (ground arith)

  -- An entry for the first place of the log empties the log and is refused.
  pub store_first :
      e.index ≤ h.prev_index
      → e.index ≡ h.disc_index + 1
      → h.disc_term ≤ e.term
      → ((store_entry no_faults e h).1 ≡ bad_payload) × ((store_entry no_faults e h).0.entries ≡ [])
  unfolding store_entry
  store_first p q r =
      rw (append_behind name h e v p) (ground (arith, truncate_log_first name h v e, v.index))

  store_replaced :
      (g : Handler)
      → e.index ≤ h.prev_index
      → h.disc_index < e.index
      → h.disc_term ≤ e.term
      → truncate_log TruncateFault.no_fault e.index h ≡ (g, false)
      → append WriteFault.no_fault e g ≡ (record_entry name e g, none)
      → store_entry no_faults e h ≡ (record_entry name e g, success)
  unfolding store_entry
  store_replaced g p q r cut added = rw (append_behind name h e v p) (ground arith)

  -- An entry further in takes its place and ends the log.
  pub store_inner :
      (k : ℕ)
      → e.index ≤ h.prev_index
      → e.index ≡ h.disc_index + 1 + k
      → 0 < k
      → h.disc_term ≤ e.term
      → IsEncodable e
      → (g : Handler) × IsValid name g
        × (e.index ≡ g.prev_index + 1)
        × (g.entries ≡ take k h.entries)
        × (g.disc_index ≡ h.disc_index)
        × (store_entry no_faults e h ≡ (record_entry name e g, success))
  store_inner k p q pos r fits =
      let inside : k < length h.entries = omega (arith, v.index) in
      let (valid, kept, index, term, done) = truncate_log-IsValid name h v k pos inside in
      let follows : e.index ≡ after.prev_index + 1 =
        omega (arith, valid.index, ap length kept, length-take k h.entries, v.index) in
      let cut : truncate_log TruncateFault.no_fault e.index h ≡ (after, false) =
        rw q (ap (λ (b : Bool). (after, b)) done) in
      (
        after,
        valid,
        follows,
        kept,
        index,
        store_replaced after p (omega arith) r cut (append_next name after e valid follows),
      )
    where
      after : Handler
      after = (truncate_log TruncateFault.no_fault (h.disc_index + 1 + k) h).0
