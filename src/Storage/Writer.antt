-- ===== src/Storage/Writer.antt =====
-- internal/consensus/filesystem/writer.go. What the operating system may refuse is an argument.
use mathlib.Core.Option
use not_ahivemind.Base.{
  ℕ, zero, suc, ◌+◌, ◌*◌, Bool, true, false, ◌||◌, Option, none, some, List, [], ◌∷◌, ◌++◌, leb,
  ltb, ◌==◌, if◌then◌else◌, length, take, last_or,
}
use not_ahivemind.Storage.Codec.{LogEntry, encode_log_entry}
use not_ahivemind.Storage.Handler.{LogName, Handler, active_bytes, set_active}

pub data AppendError : Type 0 where
  index_behind index_ahead io_error : AppendError

-- How one `Write` and the `Sync` behind it end; a write that fails leaves some bytes of its own.
pub data WriteFault : Type 0 where
  no_fault : WriteFault
  write_fails : ℕ → WriteFault
  sync_fails : WriteFault

unfoldable pub record_entry : LogName → LogEntry → Handler → Handler
record_entry name entry h =
    let bytes = encode_log_entry entry in
    let h' = set_active name (active_bytes name h ++ bytes) h in
    let size = h.current_size + length bytes in
    record h' {
      entries = h.entries ++ entry ∷ [];
      current_size = size;
      prev_index = entry.index;
      prev_term = entry.term;
      snapshot_required = h.snapshot_required || leb (h.max_log_size_kb * 1024) size;
    }

write_entry : WriteFault → LogName → LogEntry → Handler → Handler × Option AppendError
unfolding record_entry
write_entry no_fault name entry h = (record_entry name entry h, none)
write_entry (write_fails n) name entry h =
    (set_active name (active_bytes name h ++ take n (encode_log_entry entry)) h, some io_error)
write_entry sync_fails name entry h =
    (set_active name (active_bytes name h ++ encode_log_entry entry) h, some io_error)

-- A write to a closed handler fails.
write_open : WriteFault → Option LogName → LogEntry → Handler → Handler × Option AppendError
unfolding write_entry
write_open fault none entry h = (h, some io_error)
write_open fault (some name) entry h = write_entry fault name entry h

unfoldable pub append : WriteFault → LogEntry → Handler → Handler × Option AppendError
unfolding write_open
append fault entry h =
    if leb entry.index h.prev_index
    then (h, some index_behind)
    else if ltb (h.prev_index + 1) entry.index
    then (h, some index_ahead)
    else write_open fault h.active_file entry h

-- `h.entries[:cutIdx]` at the first entry of that index; `none` is `cutIdx == -1`.
unfoldable pub cut_at : ℕ → List LogEntry → Option (List LogEntry)
cut_at from [] = none
cut_at from (e ∷ es) =
    if e.index == from then some [] else Option.map (λ kept. e ∷ kept) (cut_at from es)

-- The loop that writes entries to the active file: the bytes of the file, the size counted and
-- whether a write failed. `some (k, n)` makes the write of the `k`-th entry stop after `n` bytes.
unfoldable pub rewrite : List LogEntry → Option (ℕ × ℕ) → List ℕ → ℕ → List ℕ × ℕ × Bool
rewrite [] fault bytes size = (bytes, size, false)
rewrite (e ∷ es) none bytes size =
    rewrite es none (bytes ++ encode_log_entry e) (size + length (encode_log_entry e))
rewrite (e ∷ es) (some (zero, n)) bytes size = (bytes ++ take n (encode_log_entry e), size, true)
rewrite (e ∷ es) (some (suc k, n)) bytes size =
    rewrite es (some (k, n)) (bytes ++ encode_log_entry e) (size + length (encode_log_entry e))

pub data TruncateFault : Type 0 where
  no_fault : TruncateFault
  truncate_fails seek_fails sync_fails : TruncateFault
  rewrite_fails : ℕ → ℕ → TruncateFault

-- The tail of TruncateLog: nothing is reset where no entry is left.
unfoldable pub set_prev : List LogEntry → Handler → Handler
set_prev [] h = h
set_prev (e ∷ es) h = record h {
  prev_index = (last_or e es).index;
  prev_term = (last_or e es).term;
}

rewrite_fault : TruncateFault → Option (ℕ × ℕ)
rewrite_fault (rewrite_fails k n) = some (k, n)
rewrite_fault _ = none

sync_log : TruncateFault → List LogEntry → Handler → Handler × Bool
sync_log sync_fails kept h = (h, true)
sync_log _ kept h = (set_prev kept h, false)

-- `true` is an error.
rewrite_log : TruncateFault → LogName → List LogEntry → Handler → Handler × Bool
unfolding rewrite_fault sync_log
rewrite_log fault name kept h =
    let (bytes, size, failed) = rewrite kept (rewrite_fault fault) [] 0 in
    let h' = record (set_active name bytes h) { current_size = size } in
    if failed then (h', true) else sync_log fault kept h'

truncate_open : TruncateFault → Option LogName → List LogEntry → Handler → Handler × Bool
unfolding rewrite_log
truncate_open fault none kept h = (h, true)
truncate_open truncate_fails (some name) kept h = (h, true)
truncate_open seek_fails (some name) kept h = (set_active name [] h, true)
truncate_open fault (some name) kept h = rewrite_log fault name kept h

truncate_kept : TruncateFault → Option (List LogEntry) → Handler → Handler × Bool
unfolding truncate_open
truncate_kept fault none h = (h, false)
truncate_kept fault (some kept) h =
    truncate_open fault h.active_file kept (record h { entries = kept })

unfoldable pub truncate_log : TruncateFault → ℕ → Handler → Handler × Bool
unfolding truncate_kept
truncate_log fault from h = truncate_kept fault (cut_at from h.entries) h
