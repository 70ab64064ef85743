-- ===== src/Settings/Loader.antt =====
-- internal/environment/env_loader.go. An error is `none`.
use not_ahivemind.Base.{
  ℕ, Bool, true, false, not, ◌&&◌, ◌||◌, Option, none, some, List, [], ◌∷◌, ◌==◌, if◌then◌else◌,
  Text, text_eq,
}

-- What `filepath.WalkDir` hands to its function: a path, or an error.
pub data Visit : Type 0 where
  unreadable : Visit
  directory : Text → Visit
  file : Text → Visit

-- GetAllFiles, which the first error ends.
unfoldable pub get_all_files : List Visit → Option (List Text)
get_all_files [] = some []
get_all_files (unreadable ∷ vs) = none
get_all_files (directory path ∷ vs) = get_all_files vs
get_all_files (file path ∷ vs) = elim (get_all_files vs) [
  | none ↦ none
  | some paths ↦ some (path ∷ paths)
]

unfoldable pub has_slash : Text → Bool
has_slash [] = false
has_slash (c ∷ cs) = c == 47 || has_slash cs

abbrev or_from : Bool → Text → Text → Text
or_from starts whole [] = if starts then whole else []
or_from starts whole (c ∷ cs) = c ∷ cs

-- `filepath.Ext`: from the last dot of the last part of the path on.
unfoldable pub ext : Text → Text
unfolding has_slash
ext [] = []
ext (c ∷ cs) = or_from (c == 46 && not (has_slash cs)) (c ∷ cs) (ext cs)

unfoldable pub starts_with : Text → Text → Bool
starts_with [] t = true
starts_with (c ∷ cs) [] = false
starts_with (c ∷ cs) (d ∷ ds) = c == d && starts_with cs ds

-- `strings.Contains`.
unfoldable pub contains : Text → Text → Bool
unfolding starts_with
contains sub [] = starts_with sub []
contains sub (d ∷ ds) = starts_with sub (d ∷ ds) || contains sub ds

-- The path holds a string of the list.
unfoldable pub should_exclude : List Text → Text → Bool
unfolding contains
should_exclude [] path = false
should_exclude (sub ∷ subs) path = contains sub path || should_exclude subs path

-- ".json".
abbrev pub json_ext : Text
json_ext = 46 ∷ 106 ∷ 115 ∷ 111 ∷ 110 ∷ []

-- A file of the directory that ImportDirectory imports.
unfoldable pub is_imported : List Text → Text → Bool
unfolding ext should_exclude
is_imported exclude path = text_eq (ext path) json_ext && not (should_exclude exclude path)

-- What the program reads a type from: `os.ReadFile`, and `json.Unmarshal` into the type.
pub record Source {ℓ} (A : Type ℓ) : Type ℓ where
  pub read : Text → Option (List ℕ)
  pub parse : List ℕ → Option A

module _ {ℓ} {A : Type ℓ} (src : Source A) where
  -- ImportFile.
  unfoldable pub import_file : Text → Option A
  import_file path = elim (src.read path) [ none ↦ none | some bytes ↦ src.parse bytes ]

  -- The loop of ImportDirectory over the paths.
  unfoldable pub import_each : List Text → List Text → Option (List A)
  unfolding import_file
  import_each exclude [] = some []
  import_each exclude (path ∷ paths) =
      let rest = import_each exclude paths in
      if is_imported exclude path
      then (elim (import_file path) [
        | none ↦ none
        | some a ↦ elim rest [ none ↦ none | some others ↦ some (a ∷ others) ]
      ])
      else rest

  -- ImportDirectory.
  unfoldable pub import_directory : List Text → List Visit → Option (List A)
  unfolding get_all_files import_each
  import_directory exclude visits = elim (get_all_files visits) [
    | none ↦ none
    | some paths ↦ import_each exclude paths
  ]
