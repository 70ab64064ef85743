-- ===== src/Files/Group.antt =====
-- internal/filehandler/files_manager.go: a group of files by their names.
use not_ahivemind.Base.{
  Bool, false, Option, none, [], ◌∷◌, if◌then◌else◌, Text, Map, has, lookup, insert, remove,
}
use not_ahivemind.Files.File.{File}

unfoldable pub contains_file : Text → Map File → Bool
contains_file [] files = false
contains_file (c ∷ cs) files = has (c ∷ cs) files

unfoldable pub get_file : Text → Map File → Option File
unfolding contains_file
get_file name files = if contains_file name files then lookup name files else none

-- A file without a name is stored too, and is not found.
unfoldable pub add_file : File → Map File → Map File
unfolding contains_file
add_file f files = if contains_file f.name files then files else insert f.name f files

unfoldable pub remove_file : Text → Map File → Map File
unfolding contains_file
remove_file name files = if contains_file name files then remove name files else files
