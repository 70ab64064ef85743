-- ===== src/Storage/Snapshot.antt =====
-- internal/consensus/filesystem/snapshot.go. StoreSnapshot lets go of the lock between reading the
-- entries and rotating the log, so a round of it is two steps, with others possibly between them.
use not_ahivemind.Base.{
  ℕ, zero, suc, ◌+◌, ◌-◌, Bool, true, false, Option, none, some, List, [], ◌∷◌, ◌++◌, ltb, ◌==◌,
  if◌then◌else◌, length, take, drop, last_or,
}
use not_ahivemind.Storage.Codec.{LogEntry}
use not_ahivemind.Storage.Handler.{LogName, Handler, active_bytes, set_active}
use not_ahivemind.Storage.Writer.{rewrite}
use not_ahivemind.Storage.Reader.{Peek}
use not_ahivemind.Storage.Compact.{create_snapshot}

-- What StoreSnapshot holds when it lets go of the lock.
pub record Capture : Type 0 where
  pub compressed : List LogEntry
  pub last_term : ℕ
  pub last_index : ℕ

-- How a round begins: with an error that ends the routine, with nothing to do, or with a capture.
pub data Begun : Type 0 where
  refused : Begun
  nothing : Begun
  captured : Capture → Begun

capture : Peek → List LogEntry → Begun
capture peek [] = nothing
capture peek (e ∷ es) = captured (record {
  compressed = create_snapshot peek (e ∷ es);
  last_term = (last_or e es).term;
  last_index = (last_or e es).index;
})

unfoldable pub begin_snapshot : Peek → Handler → Begun
unfolding capture
begin_snapshot peek h = if h.snapshot_open then capture peek h.entries else refused

-- SnapshotReader: the bytes to read and their number. That Stat or opening the file again fails is
-- not modelled.
unfoldable pub snapshot_reader : Handler → Option (List ℕ × ℕ)
snapshot_reader h = if h.snapshot_open then some (h.snapshot, length h.snapshot) else none

pub data SnapshotFault : Type 0 where
  no_fault : SnapshotFault
  create_fails sync_fails log_fails close_fails : SnapshotFault
  write_fails rotate_write_fails : ℕ → ℕ → SnapshotFault
  rotate_sync_fails : SnapshotFault

unfoldable pub entries_after : ℕ → List LogEntry → List LogEntry
entries_after cutoff [] = []
entries_after cutoff (e ∷ es) =
    let rest = entries_after cutoff es in if ltb cutoff e.index then e ∷ rest else rest

rotate_fault : SnapshotFault → Option (ℕ × ℕ)
rotate_fault (rotate_write_fails k n) = some (k, n)
rotate_fault _ = none

rotate_done : Capture → List LogEntry → Handler → Handler
rotate_done c remaining h = record h {
  entries = remaining;
  disc_index = c.last_index;
  disc_term = c.last_term;
}

-- The file is synced only where something was written to it.
rotate_sync : SnapshotFault → Capture → List LogEntry → Handler → Handler × Bool
unfolding rotate_done
rotate_sync rotate_sync_fails c remaining h =
    if h.current_size == 0
    then (rotate_done c remaining h, false)
    else (record h { entries = remaining }, true)
rotate_sync _ c remaining h = (rotate_done c remaining h, false)

-- rotateFile: `name` is the new log file, whose old bytes, if any, stay in front.
rotate_to : SnapshotFault → LogName → Capture → Handler → Handler × Bool
unfolding rotate_fault rotate_sync
rotate_to fault name c h =
    let remaining = entries_after c.last_index h.entries in
    let (bytes, size, failed) = rewrite remaining (rotate_fault fault) (active_bytes name h) 0 in
    let h' = record (set_active name bytes h) { active_file = some name; current_size = size } in
    if failed then (h', true) else rotate_sync fault c remaining h'

unfoldable pub rotate_file : SnapshotFault → LogName → Capture → Handler → Handler × Bool
unfolding rotate_to
rotate_file close_fails name c h = (h, true)
rotate_file fault name c h = elim h.active_file [
  | none ↦ (h, true)
  | some old ↦ rotate_to fault name c h
]

set_snapshot : List ℕ → Handler → Handler
set_snapshot bytes h = record h { disk = record h.disk { snapshot = bytes }; snapshot_open = true }

write_fault : SnapshotFault → Option (ℕ × ℕ)
write_fault (write_fails k n) = some (k, n)
write_fault _ = none

-- The new log file is created where it is missing.
open_log : SnapshotFault → Capture → Handler → Handler × Bool
unfolding rotate_file
open_log sync_fails c h = (h, true)
open_log log_fails c h = (h, true)
open_log fault c h =
    let name : LogName = record { term = c.last_term; index = c.last_index } in
    rotate_file fault name c (set_active name (active_bytes name h) h)

-- The second half of a round; `order` is the order in which the snapshot's entries come.
unfoldable pub finish_snapshot : SnapshotFault → List LogEntry → Capture → Handler → Handler × Bool
unfolding set_snapshot write_fault open_log
finish_snapshot create_fails order c h = (record h { snapshot_open = false }, true)
finish_snapshot fault order c h =
    let (bytes, size, failed) = rewrite order (write_fault fault) [] 0 in
    if failed then (set_snapshot bytes h, true) else open_log fault c (set_snapshot bytes h)

-- InstallSnapshot.
pub data InstallFault : Type 0 where
  no_fault : InstallFault
  open_fails sync_fails rename_fails reopen_fails : InstallFault
  write_fails : ℕ → InstallFault

pub record Chunk : Type 0 where
  pub offset : ℕ
  pub bytes : List ℕ
  pub done : Bool
  pub last_included_index : ℕ
  pub last_included_term : ℕ

zeros : ℕ → List ℕ
zeros zero = []
zeros (suc n) = 0 ∷ zeros n

-- `WriteAt`: a gap behind the end of the file reads as zeros.
unfoldable pub write_at : List ℕ → ℕ → List ℕ → List ℕ
unfolding zeros
write_at old offset new =
    take offset (old ++ zeros (offset - length old)) ++ (new ++ drop (offset + length new) old)

-- The first chunk creates or empties the file; a later one needs it.
open_temporary : ℕ → Option (List ℕ) → Option (List ℕ)
open_temporary zero old = some []
open_temporary (suc n) old = old

set_temporary : Option (List ℕ) → Handler → Handler
set_temporary t h = record h { disk = record h.disk { temporary = t } }

empty_active : Option LogName → Handler → Handler
empty_active none h = h
empty_active (some name) h = set_active name [] h

-- The state after the rename, with the log emptied and every index at the snapshot's.
reset_log : Chunk → Handler → Handler
unfolding empty_active
reset_log c h = record (empty_active h.active_file h) {
  entries = [];
  current_size = 0;
  prev_index = c.last_included_index;
  prev_term = c.last_included_term;
  disc_index = c.last_included_index;
  disc_term = c.last_included_term;
}

mount : InstallFault → Chunk → List ℕ → Handler → Handler × Bool
unfolding reset_log
mount rename_fails c bytes h = (record h { snapshot_open = false }, true)
mount reopen_fails c bytes h = (
  record h { disk = record h.disk { snapshot = bytes; temporary = none }; snapshot_open = false },
  true,
)
mount _ c bytes h = (
  reset_log c (record h {
    disk = record h.disk { snapshot = bytes; temporary = none };
    snapshot_open = true;
  }),
  false,
)

write_chunk : InstallFault → Chunk → List ℕ → Handler → Handler × Bool
unfolding write_at set_temporary mount
write_chunk (write_fails n) c old h =
    (set_temporary (some (write_at old c.offset (take n c.bytes))) h, true)
write_chunk sync_fails c old h = (set_temporary (some (write_at old c.offset c.bytes)) h, true)
write_chunk fault c old h =
    let bytes = write_at old c.offset c.bytes in
    let h' = set_temporary (some bytes) h in if c.done then mount fault c bytes h' else (h', false)

unfoldable pub install_snapshot : InstallFault → Chunk → Handler → Handler × Bool
unfolding open_temporary write_chunk
install_snapshot open_fails c h = (h, true)
install_snapshot fault c h = elim (open_temporary c.offset h.temporary) [
  | none ↦ (h, true)
  | some old ↦ write_chunk fault c old h
]
