-- ===== src/Storage/Handler.antt =====
-- internal/consensus/filesystem/handler.go, and the directory that the handler owns.
use not_ahivemind.Base.{
  ℕ, ◌≡◌, Bool, false, ◌&&◌, Option, none, some, List, [], ◌∷◌, ◌==◌, arith, if◌then◌else◌,
}
use not_ahivemind.Storage.Codec.{LogEntry}

-- The name "<term>-<index>.log" of a log file, as its two numbers.
pub record LogName : Type 0 where
  pub term : ℕ
  pub index : ℕ

abbrev pub same_name : LogName → LogName → Bool
same_name a b = a.term == b.term && a.index == b.index

-- The log files of the directory with their bytes, the snapshot "active.log" and "snapshot.tmp".
pub record Disk : Type 0 where
  pub logs : List (LogName × List ℕ)
  pub snapshot : List ℕ
  pub temporary : Option (List ℕ)

unfoldable pub contents : LogName → List (LogName × List ℕ) → Option (List ℕ)
contents name [] = none
contents name ((other, bytes) ∷ logs) =
    if same_name other name then some bytes else contents name logs

-- Gives the file of that name new bytes, and creates it where it is missing.
unfoldable pub store : LogName → List ℕ → List (LogName × List ℕ) → List (LogName × List ℕ)
store name bytes [] = (name, bytes) ∷ []
store name bytes ((other, old) ∷ logs) =
    if same_name other name then (other, bytes) ∷ logs else (other, old) ∷ store name bytes logs

-- `active_file` is the open log file; `snapshot_open` says that `snapshotFile` is not nil, and
-- `snapshot_required` that a token waits in the channel of that name.
pub record Handler : Type 0 where
  pub disk : Disk
  pub open disk use *
  pub active_file : Option LogName
  pub snapshot_open : Bool
  pub current_size : ℕ
  pub max_log_size_kb : ℕ
  pub prev_index : ℕ
  pub prev_term : ℕ
  pub disc_index : ℕ
  pub disc_term : ℕ
  pub entries : List LogEntry
  pub snapshot_required : Bool

unfoldable pub update_term : ℕ → Handler → Handler
update_term term h = record h { prev_term = term }

unfoldable pub close : Handler → Handler
close h = record h { active_file = none; snapshot_open = false; snapshot_required = false }

-- What stands in the open log file; a file that was removed reads as empty.
unfoldable pub active_bytes : LogName → Handler → List ℕ
unfolding contents
active_bytes name h = elim (contents name h.logs) [ none ↦ [] | some bytes ↦ bytes ]

unfoldable pub set_active : LogName → List ℕ → Handler → Handler
set_active name bytes h = record h { disk = record h.disk { logs = store name bytes h.logs } }

pub contents-store_self :
    (name : LogName) (bytes : List ℕ) (logs : List (LogName × List ℕ))
    → contents name (store name bytes logs) ≡ some bytes
unfolding contents store
contents-store_self name bytes [] = ground arith
contents-store_self name bytes ((other, old) ∷ logs) =
    ground (arith, contents-store_self name bytes logs)

contents-store_ne :
    (name other : LogName) (bytes : List ℕ) (logs : List (LogName × List ℕ))
    → same_name other name ≡ false
    → contents other (store name bytes logs) ≡ contents other logs
unfolding contents store
contents-store_ne name other bytes [] h = ground arith
contents-store_ne name other bytes ((third, old) ∷ logs) h =
    ground (arith, contents-store_ne name other bytes logs h)
