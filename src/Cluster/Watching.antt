-- ===== src/Cluster/Watching.antt =====
-- internal/cluster/container/monitor.go: the watch over the files that a container writes its results
-- to. How each call to the file system ends is an argument.
use not_ahivemind.Base.{
  ℕ, zero, suc, ◌+◌, ◌*◌, Bool, true, false, not, ◌&&◌, ◌||◌, Option, none, some, List, [], ◌∷◌,
  leb, ◌==◌, if◌then◌else◌, Text, text_eq,
}

-- One round of readWithRetry: the file does not open, or what is read of it, where that succeeds, and
-- whether it closes.
pub data Attempt : Type 0 where
  open_fails : Attempt
  opens : Option (List ℕ) → Bool → Attempt

-- The bytes, or an error, and the milliseconds slept.
pub record Reading : Type 0 where
  pub bytes : Option (List ℕ)
  pub slept : ℕ

sleep : ℕ → Reading → Reading
sleep i r = record r { slept = r.slept + 100 * (i + 1) }

-- A round that does not close the file goes on without a sleep.
unfoldable pub retry : ℕ → ℕ → (ℕ → Attempt) → Reading
unfolding sleep
retry zero i world = record { bytes = none; slept = 0 }
retry (suc n) i world =
    let rest = retry n (i + 1) world in
    elim (world i) [
      | open_fails ↦ sleep i rest
      | opens read closes ↦
          if not closes
          then rest
          else (elim read [ none ↦ sleep i rest | some b ↦ record { bytes = some b; slept = 0 } ])
    ]

-- readWithRetry.
unfoldable pub read_with_retry : (ℕ → Attempt) → Reading
read_with_retry world = retry 5 0 world

-- What the system does with one file: the rounds of reading, and whether it is removed.
pub record FileIo : Type 0 where
  pub reads : ℕ → Attempt
  pub removes : Bool

-- processAndDeleteFile: the message, or an error; `valid` is `json.Valid`.
unfoldable pub process_and_delete_file : (List ℕ → Bool) → FileIo → Option (List ℕ)
process_and_delete_file valid io = elim (read_with_retry io.reads).bytes [
  | none ↦ none
  | some bytes ↦ if valid bytes && io.removes then some bytes else none
]

-- An entry of the directory.
pub record DirEntry : Type 0 where
  pub name : Text
  pub is_regular : Bool

-- `filepath.Ext` of a name without a separator: from the last dot on.
unfoldable pub has_dot : Text → Bool
has_dot [] = false
has_dot (c ∷ cs) = c == 46 || has_dot cs

unfoldable pub ext : Text → Text
unfolding has_dot
ext [] = []
ext (c ∷ cs) = let rest = ext cs in if has_dot cs then rest else if c == 46 then c ∷ cs else []

-- `strings.ToLower` on ASCII.
unfoldable pub to_lower : Text → Text
to_lower [] = []
to_lower (c ∷ cs) = (if leb 65 c && leb c 90 then c + 32 else c) ∷ to_lower cs

-- ".json".
abbrev pub json_ext : Text
json_ext = 46 ∷ 106 ∷ 115 ∷ 111 ∷ 110 ∷ []

unfoldable pub is_result : DirEntry → Bool
unfolding ext to_lower
is_result e = e.is_regular && text_eq (to_lower (ext e.name)) json_ext

-- What a tick has sent on JobsResultsChan, and whether an error ended the watch.
pub record Watched : Type 0 where
  pub sent : List (List ℕ)
  pub ended : Bool

module _ (valid : List ℕ → Bool) (io : Text → FileIo) where
  -- The loop over the entries, which the first error ends.
  unfoldable pub watch_entries : List DirEntry → Watched
  watch_entries [] = record { sent = []; ended = false }
  watch_entries (e ∷ es) =
      let rest = watch_entries es in
      if not (is_result e) then rest else (elim (process_and_delete_file valid (io e.name)) [
        | none ↦ record { sent = []; ended = true }
        | some bytes ↦ record rest { sent = bytes ∷ rest.sent }
      ])

  -- A tick of monitorForResults; `none` is a directory that is not read.
  unfoldable pub watch_tick : Option (List DirEntry) → Watched
  watch_tick none = record { sent = []; ended = true }
  watch_tick (some entries) = watch_entries entries
