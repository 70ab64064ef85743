-- ===== src/Files/Lines.antt =====
-- What the files of lines promise.
use mathlib.Core.List.{append_assoc}
use not_ahivemind.Base.{
  ℕ, ◌≡◌, refl, sym, ◌∙◌, ap, true, false, none, some, List, [], ◌∷◌, ◌++◌, arith, if◌then◌else◌,
  Text, text_eq, text_eq_refl, Map, lookup, insert, lookup-insert,
}
use not_ahivemind.Files.File.{
  Disk, File, LineIo, line_bytes, write_each, read_lines, write_lines, append_lines,
}
use not_ahivemind.Files.Logger.{entry_bytes}

insert-insert {ℓ} :
    {V : Type ℓ} (k : Text) (v w : V) (m : Map V) → insert k w (insert k v m) ≡ insert k w m
unfolding insert
insert-insert k v w [] = ground (arith, text_eq_refl k)
insert-insert k v w ((j, u) ∷ m) = ground (arith, insert-insert k v w m)

entry_bytes-append : (xs ys : List Text) → entry_bytes (xs ++ ys) ≡ entry_bytes xs ++ entry_bytes ys
unfolding entry_bytes
entry_bytes-append [] ys = refl
entry_bytes-append (x ∷ xs) ys =
    ap (◌++◌ (line_bytes x)) (entry_bytes-append xs ys)
    ∙ sym (append_assoc (line_bytes x) (entry_bytes xs) (entry_bytes ys))

write_each_all : (lines : List Text) → write_each none lines ≡ (entry_bytes lines, false)
unfolding write_each entry_bytes
write_each_all [] = refl
write_each_all (line ∷ lines) = rw (write_each_all lines) refl

-- A call that the system lets run to its end.
abbrev pub lets_all : LineIo
lets_all = record { opens = true; fault = none }

module _ (f : File) (disk : Disk) (old : List ℕ) (held : lookup f.name disk ≡ some old) where
  append_lines_all :
      (lines : List Text)
      → append_lines lets_all lines f disk ≡ (insert f.name (old ++ entry_bytes lines) disk, false)
  unfolding append_lines
  append_lines_all lines = rw (held, write_each_all lines) refl

module _ (f : File) (disk : Disk) (old : List ℕ) (held : lookup f.name disk ≡ some old) where
  write_lines_all :
      (lines : List Text)
      → write_lines lets_all lines f disk ≡ (insert f.name (entry_bytes lines) disk, false)
  unfolding write_lines
  write_lines_all lines = rw (held, write_each_all lines) refl

  found :
      (bytes : List ℕ)
      → (if text_eq f.name f.name then some bytes else lookup f.name disk) ≡ some bytes
  found bytes = rw (text_eq_refl f.name) refl

  -- On a file that is there, WriteLines and then AppendLines do what one WriteLines of all the lines
  -- does, whatever stood in the file, and ReadLines then gives the lines with their ends.
  append_lines-write_lines :
      (xs ys : List Text)
      → (append_lines lets_all ys f (write_lines lets_all xs f disk).0
          ≡ write_lines lets_all (xs ++ ys) f disk)
        × (read_lines true f (write_lines lets_all (xs ++ ys) f disk).0
            ≡ some (entry_bytes xs ++ entry_bytes ys))
  unfolding read_lines
  append_lines-write_lines xs ys =
      let written = insert f.name (entry_bytes xs) disk in
      let there : lookup f.name written ≡ some (entry_bytes xs) =
        lookup-insert f.name f.name (entry_bytes xs) disk ∙ found (entry_bytes xs) in
      rw
        (
          write_lines_all xs,
          write_lines_all (xs ++ ys),
          append_lines_all f written (entry_bytes xs) there ys,
          insert-insert,
          entry_bytes-append xs ys,
        )
        (refl, lookup-insert f.name f.name (entry_bytes xs ++ entry_bytes ys) disk ∙ found _)
