-- ===== src/Storage/Reader.antt =====
-- internal/consensus/filesystem/reader.go, and what the storage layer reads of a payload. Decoding
-- JSON is `encoding/json`'s; its result, `none` for an error, is the parameter `peek`.
use mathlib.Core.List.{reverse}
use not_ahivemind.Base.{
  ℕ, ◌-◌, Bool, true, false, Option, none, some, List, [], ◌∷◌, leb, ltb, if◌then◌else◌, length,
  take, drop, Text, text_eq,
}
use not_ahivemind.Base.Int.{ℤ}
use not_ahivemind.Storage.Codec.{LogEntry}
use not_ahivemind.Storage.Handler.{Handler}

-- genericPayload: a job has a state, and a scheduler event an entry.
pub record GenericPayload : Type 0 where
  pub id : Text
  pub state : Option ℤ
  pub entry : Option Text

abbrev pub Peek : Type 0
Peek = List ℕ → Option GenericPayload

min_length : ℕ → List LogEntry → ℕ
min_length n es = if ltb (length es) n then length es else n

-- The clamping at 0 is that of `-`.
unfoldable pub entries : ℕ → ℕ → Handler → List LogEntry
unfolding min_length
entries start_raft end_raft h =
    let start = start_raft - h.disc_index - 1 in
    let end = min_length (end_raft - h.disc_index - 1) h.entries in
    if leb end start then [] else take (end - start) (drop start h.entries)

unfoldable pub member : Text → List Text → Bool
member a [] = false
member a (b ∷ bs) = if text_eq b a then true else member a bs

-- A nil filter lets everything through.
unfoldable pub passes : Option Text → Text → Bool
passes none a = true
passes (some b) a = text_eq a b

-- The identifier of an entry that the two filters let through.
unfoldable pub candidate : Peek → Option Text → Option Text → LogEntry → Option Text
unfolding passes
candidate peek scheduler_id payload_id e =
    if passes scheduler_id e.scheduler_id
    then (elim (peek e.payload) [
      | none ↦ none
      | some p ↦ if passes payload_id p.id then some p.id else none
    ])
    else none

-- `break` after the first hit where the payload's identifier was asked for.
unfoldable pub query_loop :
    Peek → Option Text → Option Text → List Text → List LogEntry → List LogEntry
query_loop peek scheduler_id payload_id found [] = []
query_loop peek scheduler_id payload_id found (e ∷ older) =
    elim (candidate peek scheduler_id payload_id e) [
      | none ↦ query_loop peek scheduler_id payload_id found older
      | some id ↦ elim (member id found) [
        | true ↦ query_loop peek scheduler_id payload_id found older
        | false ↦ elim payload_id [
          | none ↦ e ∷ query_loop peek scheduler_id payload_id (id ∷ found) older
          | some _ ↦ e ∷ []
        ]
      ]
    ]

-- The loop over the log backwards.
query_filtered : Peek → Option Text → Option Text → List LogEntry → List LogEntry
query_filtered peek none none es = []
query_filtered peek scheduler_id payload_id es =
    query_loop peek scheduler_id payload_id [] (reverse es)

unfoldable pub query_entries : Peek → Option Text → Option Text → Handler → List LogEntry
unfolding query_filtered
query_entries peek scheduler_id payload_id h = query_filtered peek scheduler_id payload_id h.entries
