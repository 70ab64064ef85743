-- ===== src/Files/File.antt =====
-- internal/filehandler/file_handler.go. The disk is a map from paths to bytes; what the system refuses
-- is an argument. `true` is an error.
use not_ahivemind.Base.{
  ℕ, zero, suc, Bool, true, false, Option, none, some, List, [], ◌∷◌, ◌++◌, take, Text, Map, has,
  lookup, insert, remove,
}

abbrev pub Disk : Type 0
Disk = Map (List ℕ)

pub record File : Type 0 where
  pub name : Text
  pub permissions : ℕ

-- How the calls of SetUpFile end where they do not find or make the file: `os.Stat` gives another error
-- than that the file is missing, or `os.OpenFile` an error.
pub data SetUp : Type 0 where
  stat_ok stat_fails create_fails : SetUp

set_up_missing : SetUp → Text → ℕ → Disk → Disk × Option File
set_up_missing create_fails name permissions disk = (disk, none)
set_up_missing _ name permissions disk =
    (insert name [] disk, some (record { name = name; permissions = permissions }))

set_up_named : SetUp → Bool → Text → ℕ → Disk → Disk × Option File
unfolding set_up_missing
set_up_named stat_fails present name permissions disk = (disk, none)
set_up_named io true name permissions disk =
    (disk, some (record { name = name; permissions = permissions }))
set_up_named io false name permissions disk = set_up_missing io name permissions disk

-- SetUpFile.
unfoldable pub set_up_file : SetUp → Text → ℕ → Disk → Disk × Option File
unfolding set_up_named
set_up_file io [] permissions disk = (disk, none)
set_up_file io (c ∷ cs) permissions disk =
    set_up_named io (has (c ∷ cs) disk) (c ∷ cs) permissions disk

-- Whether a call opens the file, and the write that fails, if one does: `some (k, n)` makes the write
-- of the `k`-th line stop after `n` bytes.
pub record LineIo : Type 0 where
  pub opens : Bool
  pub fault : Option (ℕ × ℕ)

-- A line and its end.
abbrev pub line_bytes : Text → List ℕ
line_bytes line = line ++ 10 ∷ []

-- The loop over the lines: the bytes written, and whether a write failed.
unfoldable pub write_each : Option (ℕ × ℕ) → List Text → List ℕ × Bool
write_each fault [] = ([], false)
write_each none (line ∷ lines) =
    let rest = write_each none lines in (line_bytes line ++ rest.0, rest.1)
write_each (some (zero, n)) (line ∷ lines) = (take n (line_bytes line), true)
write_each (some (suc k, n)) (line ∷ lines) =
    let rest = write_each (some (k, n)) lines in (line_bytes line ++ rest.0, rest.1)

-- ReadLines; `reads` says whether the system reads the file.
unfoldable pub read_lines : Bool → File → Disk → Option (List ℕ)
read_lines false f disk = none
read_lines true f disk = lookup f.name disk

write_behind : Option (List ℕ) → LineIo → List Text → File → Disk → Disk × Bool
write_behind none io lines f disk = (disk, true)
write_behind (some old) io lines f disk =
    let (bytes, failed) = write_each io.fault lines in (insert f.name (old ++ bytes) disk, failed)

write_open : Bool → Option (List ℕ) → LineIo → List Text → File → Disk → Disk × Bool
unfolding write_behind
write_open false old io lines f disk = (disk, true)
write_open true old io lines f disk = write_behind old io lines f disk

emptied : Option (List ℕ) → Option (List ℕ)
emptied none = none
emptied (some old) = some []

-- WriteLines empties the file first; a file that is missing is not made.
unfoldable pub write_lines : LineIo → List Text → File → Disk → Disk × Bool
unfolding write_open emptied
write_lines io lines f disk = write_open io.opens (emptied (lookup f.name disk)) io lines f disk

-- AppendLines.
unfoldable pub append_lines : LineIo → List Text → File → Disk → Disk × Bool
unfolding write_open
append_lines io lines f disk = write_open io.opens (lookup f.name disk) io lines f disk

delete_found : Bool → Bool → File → Disk → (Disk × File) × Bool
delete_found true true f disk =
    ((remove f.name disk, record f { name = []; permissions = 0 }), false)
delete_found true false f disk = ((disk, f), true)
delete_found false removes f disk = ((disk, f), true)

-- Delete; `removes` says whether the system removes the file.
unfoldable pub delete : Bool → File → Disk → (Disk × File) × Bool
unfolding delete_found
delete removes f disk = delete_found (has f.name disk) removes f disk
