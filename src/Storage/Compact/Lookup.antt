-- ===== src/Storage/Compact/Lookup.antt =====
-- What a snapshot holds of a job: a description that does not follow the loop.
use mathlib.Core.List.{reverse}
use not_ahivemind.Base.{
  ◌≡◌, ◌≢◌, Bool, true, false, ◌||◌, Option, none, some, List, [], ◌∷◌, arith, if◌then◌else◌, Text,
  text_eq, text_eq_iff, lookup, lookup-insert, lookup-remove, Option-cases, inl, inr,
}
use not_ahivemind.Models.{is_terminal}
use not_ahivemind.Storage.Codec.{LogEntry}
use not_ahivemind.Storage.Reader.{GenericPayload, Peek, member}
use not_ahivemind.Storage.Compact.{
  Compaction, raw_key, keep_job, compact_payload, compact_entry, compact_loop, compact,
}

-- What an entry says of the job `id`: nothing, or whether it has ended.
abbrev payload_verdict : Text → GenericPayload → Option Bool
payload_verdict id p =
    if text_eq p.id id then (elim p.state [ none ↦ none | some s ↦ some (is_terminal s) ]) else none

abbrev pub verdict : Peek → Text → LogEntry → Option Bool
verdict peek id e = elim (peek e.payload) [ none ↦ none | some p ↦ payload_verdict id p ]

abbrev pub ends : Option Bool → Bool
ends none = false
ends (some t) = t

-- Some entry of the list has the job ended.
pub ended : Peek → Text → List LogEntry → Bool
ended peek id [] = false
ended peek id (e ∷ es) = ends (verdict peek id e) || ended peek id es

-- The first entry of the list that speaks of the job.
pub newest : Peek → Text → List LogEntry → Option LogEntry
newest peek id [] = none
newest peek id (e ∷ es) = elim (verdict peek id e) [ none ↦ newest peek id es | some t ↦ some e ]

abbrev pub or_else : Option LogEntry → Option LogEntry → Option LogEntry
or_else none o = o
or_else (some e) o = some e

-- No entry's "raw-" key is spelled like the job's identifier.
unfoldable pub no_raw : Text → List LogEntry → Bool
no_raw id [] = true
no_raw id (e ∷ es) = if text_eq (raw_key e.index) id then false else no_raw id es

-- The value of a key after an entry with that verdict on it.
abbrev revised : Bool → Option Bool → LogEntry → Option LogEntry → Option LogEntry
revised true v e o = o
revised false none e o = o
revised false (some true) e o = none
revised false (some false) e o = or_else o (some e)

module _ (id : Text) (named : id ≢ []) (e : LogEntry) (c : Compaction) where
  member-compact_payload :
      (p : GenericPayload)
      → member id (compact_payload p e c).excluded
        ≡ (member id c.excluded || ends (payload_verdict id p))
  unfolding compact_payload keep_job member
  member-compact_payload p = ground (arith, text_eq_iff p.id id, text_eq_iff p.id [])

  lookup-compact_payload :
      (p : GenericPayload)
      → lookup id (compact_payload p e c).snapshots
        ≡ revised (member id c.excluded) (payload_verdict id p) e (lookup id c.snapshots)
  unfolding compact_payload keep_job
  lookup-compact_payload p = ground (
    arith,
    text_eq_iff p.id id,
    text_eq_iff p.id [],
    lookup-insert p.id id e c.snapshots,
    lookup-remove p.id id c.snapshots,
  )

  member-compact_entry :
      (peek : Peek)
      → member id (compact_entry peek e c).excluded
        ≡ (member id c.excluded || ends (verdict peek id e))
  unfolding compact_entry
  member-compact_entry peek = elim (Option-cases (peek e.payload)) [
    | inl bad ↦ ground arith
    | inr (p, good) ↦ rw (good, compact_entry, verdict) (member-compact_payload p)
  ]

  lookup-compact_entry :
      (peek : Peek)
      → text_eq (raw_key e.index) id ≡ false
      → lookup id (compact_entry peek e c).snapshots
        ≡ revised (member id c.excluded) (verdict peek id e) e (lookup id c.snapshots)
  unfolding compact_entry
  lookup-compact_entry peek raw = elim (Option-cases (peek e.payload)) [
    | inl bad ↦ ground (arith, lookup-insert (raw_key e.index) id e c.snapshots)
    | inr (p, good) ↦ rw (good, compact_entry, verdict) (lookup-compact_payload p)
  ]

abbrev settled : Bool → Bool → Option LogEntry → Option LogEntry → Option LogEntry
settled true ended o later = o
settled false true o later = none
settled false false o later = or_else o later

lookup-compact_loop :
    (peek : Peek) (id : Text) (older : List LogEntry) (c : Compaction)
    → id ≢ []
    → no_raw id older ≡ true
    → lookup id (compact_loop peek older c).snapshots
      ≡ settled
          (member id c.excluded)
          (ended peek id older)
          (lookup id c.snapshots)
          (newest peek id older)
unfolding compact_loop ended newest no_raw
lookup-compact_loop peek id [] c named raw = ground arith
lookup-compact_loop peek id (e ∷ older) c named raw = ground (
  arith,
  lookup-compact_loop peek id older (compact_entry peek e c) named,
  lookup-compact_entry id named e c peek,
  member-compact_entry id named e c peek,
)

-- What a snapshot of the log holds under a job's identifier: nothing where some entry of the log has
-- the job completed or failed, and else the newest entry that speaks of the job. The identifier is
-- not empty and is not the "raw-" key of an entry of the log.
pub lookup-compact :
    (peek : Peek) (id : Text) (entries : List LogEntry)
    → id ≢ []
    → no_raw id (reverse entries) ≡ true
    → lookup id (compact peek entries).snapshots
      ≡ (if ended peek id (reverse entries) then none else newest peek id (reverse entries))
unfolding compact lookup member
lookup-compact peek id entries named raw = ground (
  arith,
  lookup-compact_loop peek id (reverse entries) (record { snapshots = []; excluded = [] }) named,
)
