-- ===== src/Raft/Replication.antt =====
-- What AppendEntries does to a valid log when no write fails.
use not_ahivemind.Base.{
  ◌+◌, ◌-◌, ◌≤◌, ◌<◌, ◌≡◌, refl, sym, ap, ◌⊎◌, inl, inr, [], ◌∷◌, ◌++◌, arith, take, take_all,
}
use not_ahivemind.Storage.Codec.{LogEntry}
use not_ahivemind.Storage.Codec.Frame.{IsEncodable}
use not_ahivemind.Storage.Handler.{LogName, Handler, set_active}
use not_ahivemind.Storage.Writer.{record_entry}
use not_ahivemind.Storage.Valid.{IsValid, record_entry-IsValid}
use not_ahivemind.Raft.Append.{
  AppendResponseStatus, success, bad_payload, needs_snapshot, store_entry,
}
use not_ahivemind.Raft.Place.{
  no_faults, Place, ahead, next, covered, first, inner, place, store_ahead, store_next,
  store_covered, store_first, store_inner,
}

-- The log `after` is valid and ends with `e`, behind the entries of `h` before its index.
pub record EndsWith (name : LogName) (h : Handler) (e : LogEntry) (after : Handler) : Type 0 where
  pub valid : IsValid name after
  pub entries : after.entries ≡ take (e.index - h.disc_index - 1) h.entries ++ e ∷ []
  pub disc_index : after.disc_index ≡ h.disc_index
  pub prev_index : after.prev_index ≡ e.index
  pub prev_term : after.prev_term ≡ e.term

module _ (name : LogName) (h : Handler) (e : LogEntry) (v : IsValid name h)
    (fits : IsEncodable e) where
  record_entry-EndsWith :
      (g : Handler)
      → IsValid name g
      → e.index ≡ g.prev_index + 1
      → g.entries ≡ take (e.index - h.disc_index - 1) h.entries
      → g.disc_index ≡ h.disc_index
      → EndsWith name h e (record_entry name e g)
  unfolding record_entry set_active
  record_entry-EndsWith g valid follows kept disc = record {
    valid = unfold record_entry set_active in record_entry-IsValid name g e valid fits follows;
    entries = ap (λ es. es ++ e ∷ []) kept;
    disc_index = disc;
    prev_index = refl;
    prev_term = refl;
  }

  stored :
      Place h e
      → (store_entry no_faults e h).1 ≡ success
      → EndsWith name h e (store_entry no_faults e h).0
  stored (ahead p) s = absurd (ground (arith, store_ahead name h e v p))
  stored (next p) s = rw (store_next name h e v p) (
      record_entry-EndsWith h v p
        (sym (take_all h.entries (e.index - h.disc_index - 1) (omega (arith, v.index)))) refl)
  stored (covered p q) s = absurd (ground (arith, store_covered name h e v p q))
  stored (first p q r) s = absurd (ground (arith, store_first name h e v p q r))
  stored (inner k p q pos r) s =
      let (g, valid, follows, kept, disc, eq) = store_inner name h e v k p q pos r fits in
      let cut : e.index - h.disc_index - 1 ≡ k = omega arith in
      rw eq (record_entry-EndsWith g valid follows (rw cut kept) disc)

  -- An entry that a valid log accepts ends the log: the entries before its index stay in front of it,
  -- nothing is behind it, and the log is valid again.
  pub store_entry_success :
      (store_entry no_faults e h).1 ≡ success → EndsWith name h e (store_entry no_faults e h).0
  store_entry_success = stored (place h e)

-- The answer to an entry, by the place of its index in a valid log: ahead of the next index it is
-- refused, and under the boundary, or of a term before the boundary's, a snapshot is asked for, both
-- with the log unchanged. At the first place of a log that has entries it is refused with the log
-- emptied, and anywhere else it is accepted.
store_entry_answers :
    (name : LogName) (h : Handler) (e : LogEntry)
    → IsValid name h
    → IsEncodable e
    → ((h.prev_index + 1 < e.index) × (store_entry no_faults e h ≡ (h, bad_payload)))
      ⊎ (((e.index ≤ h.prev_index)
            × ((e.index ≤ h.disc_index) ⊎ (e.term < h.disc_term))
            × (store_entry no_faults e h ≡ (h, needs_snapshot)))
          ⊎ (((e.index ≤ h.prev_index)
                × (e.index ≡ h.disc_index + 1)
                × ((store_entry no_faults e h).1 ≡ bad_payload)
                × ((store_entry no_faults e h).0.entries ≡ []))
              ⊎ ((h.disc_index < e.index)
                  × ((e.index ≡ h.prev_index + 1) ⊎ (h.disc_index + 1 < e.index))
                  × ((store_entry no_faults e h).1 ≡ success))))
store_entry_answers name h e v fits = elim (place h e) [
  | ahead p ↦ inl (p, store_ahead name h e v p)
  | next p ↦ inr (
      inr (
        inr (
          omega (arith, v.index),
          inl p,
          ap (λ (x : Handler × AppendResponseStatus). x.1) (store_next name h e v p),
        )))
  | covered p q ↦ inr (inl (p, q, store_covered name h e v p q))
  | first p q r ↦
      let (status, emptied) = store_first name h e v p q r in
      inr (inr (inl (p, q, status, emptied)))
  | inner k p q pos r ↦
      let (g, valid, follows, kept, disc, eq) = store_inner name h e v k p q pos r fits in
      inr (
        inr (
          inr (
            omega (arith, q),
            inr (omega (arith, q, pos)),
            ap (λ (x : Handler × AppendResponseStatus). x.1) eq,
          )))
]
