-- ===== src/Storage/Compact.antt =====
-- createSnapshot of internal/consensus/filesystem/interpreter.go.
pub mod Lookup
use mathlib.Core.List.{reverse}
use not_ahivemind.Base.{
  ℕ, zero, suc, ◌+◌, ◌/◌, ◌%◌, Bool, true, false, ◌||◌, Option, none, some, List, [], ◌∷◌, ◌++◌,
  ltb, if◌then◌else◌, Text, text_eq, Map, has, insert, remove, values,
}
use not_ahivemind.Models.{is_terminal}
use not_ahivemind.Storage.Codec.{LogEntry}
use not_ahivemind.Storage.Reader.{GenericPayload, Peek, member}

-- The digits of a number in front of `acc`. Twenty are enough for 64 bits.
decimal_loop : ℕ → ℕ → Text → Text
decimal_loop zero n acc = acc
decimal_loop (suc fuel) n acc = elim (ltb n 10) [
  | true ↦ (48 + n) ∷ acc
  | false ↦ decimal_loop fuel (n / 10) ((48 + n % 10) ∷ acc)
]

-- `fmt.Sprintf("raw-%d", index)`.
unfoldable pub raw_key : ℕ → Text
unfolding decimal_loop
raw_key index = 114 ∷ 97 ∷ 119 ∷ 45 ∷ decimal_loop 20 index []

-- The two maps of the loop.
pub record Compaction : Type 0 where
  pub snapshots : Map LogEntry
  pub excluded : List Text

-- A job in that state, newer entries having been seen.
unfoldable pub keep_job : Bool → Text → LogEntry → Compaction → Compaction
keep_job true id e c = record { snapshots = remove id c.snapshots; excluded = id ∷ c.excluded }
keep_job false id e c =
    if has id c.snapshots then c else record c { snapshots = insert id e c.snapshots }

-- Scheduler events, and payloads that are neither, are left out.
unfoldable pub compact_payload : GenericPayload → LogEntry → Compaction → Compaction
unfolding keep_job
compact_payload p e c =
    if text_eq p.id [] || member p.id c.excluded
    then c
    else elim p.state [ none ↦ c | some state ↦ keep_job (is_terminal state) p.id e c ]

unfoldable pub compact_entry : Peek → LogEntry → Compaction → Compaction
unfolding compact_payload
compact_entry peek e c = elim (peek e.payload) [
  | none ↦ record c { snapshots = insert (raw_key e.index) e c.snapshots }
  | some p ↦ compact_payload p e c
]

-- The loop, over the entries from the newest to the oldest.
unfoldable pub compact_loop : Peek → List LogEntry → Compaction → Compaction
compact_loop peek [] c = c
compact_loop peek (e ∷ older) c = compact_loop peek older (compact_entry peek e c)

unfoldable pub compact : Peek → List LogEntry → Compaction
unfolding compact_loop
compact peek entries =
    compact_loop peek (reverse entries) (record { snapshots = []; excluded = [] })

-- The values of the map, in one of the orders in which Go may collect them.
unfoldable pub create_snapshot : Peek → List LogEntry → List LogEntry
unfolding compact
create_snapshot peek entries = values (compact peek entries).snapshots
