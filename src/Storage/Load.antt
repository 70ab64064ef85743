-- ===== src/Storage/Load.antt =====
-- internal/consensus/filesystem/entry.go: opening the directory of a node. That the operating system
-- refuses to open a file is not modelled.
use not_ahivemind.Base.{
  ℕ, Bool, true, false, ◌&&◌, ◌||◌, Option, none, some, List, [], ◌∷◌, ltb, ◌==◌, if◌then◌else◌,
  last_or,
}
use not_ahivemind.Storage.Codec.{
  LogEntry, Outcome, ok, corrupted, panic, stuck, ◌>>=◌, read_log_entries,
}
use not_ahivemind.Storage.Handler.{LogName, Disk, Handler, store}

abbrev pub later : LogName → LogName → Bool
later a b = ltb b.term a.term || a.term == b.term && ltb b.index a.index

-- findLatestLog: `latest` is what the loop has found so far.
unfoldable pub latest_loop :
    List (LogName × List ℕ) → Option (LogName × List ℕ) → Option (LogName × List ℕ)
latest_loop [] latest = latest
latest_loop ((name, bytes) ∷ logs) none = latest_loop logs (some (name, bytes))
latest_loop ((name, bytes) ∷ logs) (some (best, old)) =
    latest_loop logs (if later name best then some (name, bytes) else some (best, old))

unfoldable pub find_latest_log : List (LogName × List ℕ) → Option (LogName × List ℕ)
unfolding latest_loop
find_latest_log logs = latest_loop logs none

-- A handler on a log file whose first entry follows `name`.
unfoldable pub opened : Disk → ℕ → LogName → List LogEntry → ℕ → Handler
opened disk max_kb name entries size = record {
  disk = disk;
  active_file = some name;
  snapshot_open = true;
  current_size = size;
  max_log_size_kb = max_kb;
  prev_index = elim entries [ [] ↦ name.index | e ∷ es ↦ (last_or e es).index ];
  prev_term = elim entries [ [] ↦ name.term | e ∷ es ↦ (last_or e es).term ];
  disc_index = name.index;
  disc_term = name.term;
  entries = entries;
  snapshot_required = false;
}

-- The name of the log file to start with where there is none: the snapshot's last entry counts.
fresh_name : List LogEntry → LogName
fresh_name [] = record { term = 0; index = 0 }
fresh_name (e ∷ es) = record { term = (last_or e es).term; index = (last_or e es).index }

-- A snapshot that cannot be read counts as empty.
unfoldable pub snapshot_entries : Outcome (List LogEntry × ℕ) → Outcome (List LogEntry)
snapshot_entries (ok (entries, size)) = ok entries
snapshot_entries corrupted = ok []
snapshot_entries panic = panic
snapshot_entries stuck = stuck

load_log : Disk → ℕ → List LogEntry → Option (LogName × List ℕ) → Outcome Handler
unfolding opened fresh_name
load_log disk max_kb snapshot (some (name, bytes)) = do
  (entries, size) ← read_log_entries bytes
  ok (opened disk max_kb name entries size)
load_log disk max_kb snapshot none =
    let name = fresh_name snapshot in
    ok (opened (record disk { logs = store name [] disk.logs }) max_kb name [] 0)

unfoldable pub load_storage : ℕ → Disk → Outcome Handler
unfolding snapshot_entries load_log find_latest_log
load_storage max_kb disk = do
  snapshot ← snapshot_entries (read_log_entries disk.snapshot)
  load_log disk max_kb snapshot (find_latest_log disk.logs)
