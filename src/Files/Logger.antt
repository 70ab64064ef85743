-- ===== src/Files/Logger.antt =====
-- internal/filehandler/logger.go: the writer of the containers' logs. Its handlers put entries into a
-- queue, from which the routine AsyncWrite takes them.
use not_ahivemind.Base.{
  ℕ, Bool, true, false, Option, none, some, List, [], ◌∷◌, ◌++◌, take, if◌then◌else◌, Text, Map,
  has, lookup, insert, remove, map,
}
use not_ahivemind.Files.File.{Disk, line_bytes}

-- Log.
pub record Log : Type 0 where
  pub file_name : Text
  pub entries : List Text

-- An `*os.File`: no path is the nil pointer, which a failed open leaves in the table.
pub record Handle : Type 0 where
  pub path : Option Text
  pub is_open : Bool

-- The queue is a channel: its capacity only says how long an Add waits.
pub record LogWriter : Type 0 where
  pub folder_path : Text
  pub files : Map Handle
  pub queue : List Log
  pub closed : Bool

-- NewLogWriter, where the folder is made.
unfoldable pub new_log_writer : Bool → Text → Option LogWriter
new_log_writer false folder = none
new_log_writer true folder =
    some (record { folder_path = folder; files = []; queue = []; closed = false })

-- `path.Join` of a folder and a name in it, both clean.
unfoldable pub join : Text → Text → Text
join folder name = folder ++ 47 ∷ name

abbrev pub opened : Text → Handle
opened path = record { path = some path; is_open = true }

-- An open for appending makes the file where it is missing.
unfoldable pub touch : Text → Disk → Disk
touch path disk = if has path disk then disk else insert path [] disk

-- What Add ends with; a send into the closed queue panics.
pub data Added : Type 0 where
  queued skipped panicked : Added

send : Log → LogWriter → LogWriter × Added
send log w = if w.closed then (w, panicked) else (record w { queue = w.queue ++ log ∷ [] }, queued)

-- Add; `opens` says whether the system opens the file.
unfoldable pub add : Bool → List Text → Text → LogWriter × Disk → (LogWriter × Disk) × Added
unfolding send join touch
add opens entry name (w, disk) =
    if has name w.files
    then (let (w', r) = send (record { file_name = name; entries = entry }) w in ((w', disk), r))
    else if opens
    then (let path = join w.folder_path name in
        let (w', r) =
          send (record { file_name = name; entries = entry })
            (record w { files = insert name (opened path) w.files }) in
        ((w', touch path disk), r))
    else ((w, disk), skipped)

-- FreeFile.
unfoldable pub free_file : Text → LogWriter → LogWriter
free_file name w = record w { files = remove name w.files }

shut : Text × Handle → Text × Handle
shut (name, h) = (name, record h { is_open = false })

-- Close closes the files, and leaves them in the table.
unfoldable pub close : LogWriter → LogWriter
unfolding shut
close w = record w { closed = true; files = map shut w.files }

-- The bytes of an entry, as the buffered writer hands them on.
unfoldable pub entry_bytes : List Text → List ℕ
entry_bytes [] = []
entry_bytes (line ∷ lines) = line_bytes line ++ entry_bytes lines

-- `fault` is the number of bytes that reach the file before a write fails.
unfoldable pub reach : Option ℕ → List ℕ → List ℕ
reach none bytes = bytes
reach (some n) bytes = take n bytes

file_bytes : Option (List ℕ) → List ℕ
file_bytes none = []
file_bytes (some bytes) = bytes

-- The bytes of a file; a missing one has none.
unfoldable pub bytes_at : Text → Disk → List ℕ
unfolding file_bytes
bytes_at path disk = file_bytes (lookup path disk)

write_path : Option Text → List ℕ → Disk → Disk
unfolding bytes_at
write_path none bytes disk = disk
write_path (some path) bytes disk = insert path (bytes_at path disk ++ bytes) disk

-- A nil or closed file takes nothing.
unfoldable pub write_to : Option Handle → List ℕ → Disk → Disk
unfolding write_path
write_to none bytes disk = disk
write_to (some h) bytes disk = if h.is_open then write_path h.path bytes disk else disk

-- What AsyncWrite does before it writes: where the file is not in the table it opens one, by a path
-- that is put together without a separator, and stores what it got.
unfoldable pub reopen : Bool → Text → LogWriter × Disk → LogWriter × Disk
unfolding touch
reopen opens name (w, disk) =
    let path = w.folder_path ++ name in
    if has name w.files
    then (w, disk)
    else if opens
    then (record w { files = insert name (opened path) w.files }, touch path disk)
    else (record w { files = insert name (record { path = none; is_open = false }) w.files }, disk)

take_log : Bool → Option ℕ → List Log → LogWriter × Disk → LogWriter × Disk
unfolding reopen entry_bytes reach write_to
take_log opens fault [] s = s
take_log opens fault (log ∷ logs) (w, disk) =
    let (w', disk') = reopen opens log.file_name (record w { queue = logs }, disk) in
    (w', write_to (lookup log.file_name w'.files) (reach fault (entry_bytes log.entries)) disk')

-- A round of AsyncWrite.
unfoldable pub async_write : Bool → Option ℕ → LogWriter × Disk → LogWriter × Disk
unfolding take_log
async_write opens fault (w, disk) = take_log opens fault w.queue (w, disk)
