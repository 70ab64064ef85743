-- ===== src/Settings/Importing.antt =====
-- What ImportDirectory promises.
use not_ahivemind.Base.{
  ◌≡◌, refl, Option, none, some, List, [], ◌∷◌, arith, if◌then◌else◌, Text, map,
}
use not_ahivemind.Settings.Loader.{
  Visit, Source, get_all_files, is_imported, import_file, import_each, import_directory,
}

-- The paths that are imported.
unfoldable pub chosen : List Text → List Text → List Text
chosen exclude [] = []
chosen exclude (path ∷ paths) =
    let rest = chosen exclude paths in if is_imported exclude path then path ∷ rest else rest

-- The values, if there is no error among them.
abbrev pub all_of {ℓ} : {A : Type ℓ} → List (Option A) → Option (List A)
all_of [] = some []
all_of (o ∷ os) = elim o [
  | none ↦ none
  | some a ↦ elim (all_of os) [ none ↦ none | some others ↦ some (a ∷ others) ]
]

module _ {ℓ} {A : Type ℓ} (src : Source A) (exclude : List Text) where
  import_each-all_of :
      (paths : List Text)
      → import_each src exclude paths ≡ all_of (map (import_file src) (chosen exclude paths))
  unfolding import_each chosen
  import_each-all_of [] = refl
  import_each-all_of (path ∷ paths) = ground (arith, import_each-all_of paths)

  -- Where the walk finds some paths, ImportDirectory imports those that end in ".json" and hold none of
  -- the excluded strings, in their order, and gives an error where one of them is not imported.
  import_directory-all_of :
      (visits : List Visit) {paths : List Text}
      → get_all_files visits ≡ some paths
      → import_directory src exclude visits ≡ all_of (map (import_file src) (chosen exclude paths))
  unfolding import_directory
  import_directory-all_of visits {paths} walked =
      rw (walked, import_directory) (import_each-all_of paths)
