-- ===== src/Config/Finder/Search.antt =====
-- The order of the places in which `find_config_file` looks.
use coppercomm.Prelude.{
  String, ◌≡◌, refl, sym, ap, ◌∙◌, true, Option, none, some, List, [], ◌∷◌, ◌++◌, if◌then◌else◌,
  truthy, Bool-cases, Option-cases, inl, inr,
}
use std.Path.{ap₂}
use coppercomm.Config.Finder.{
  FileSystem, Request, file_or_inside, config_file_from_path, config_file_from_variable,
  config_file_from_cwd, config_file_from_home_dir, or_else, or_not_found, find_config_file,
}

-- A path and the file of the given name under it, where there is a path.
unfoldable pub named_path : FileSystem → String → Option String → List String
named_path fs filename none = []
named_path fs filename (some path) =
    fs.expand_user path ∷ fs.under (fs.expand_user path) filename ∷ []

abbrev given_value : Option String → Option String
given_value none = none
given_value (some value) = if truthy value then some value else none

-- All the paths at which the file may stand, the first one to count.
unfoldable pub candidates : FileSystem → Request → List String
unfolding named_path
candidates fs q =
    named_path fs q.filename q.path
    ++ (named_path fs q.filename (given_value (fs.getenv q.env_variable))
        ++ (fs.under fs.cwd q.filename ∷ fs.under fs.home q.filename ∷ []))

unfoldable pub first_file : FileSystem → List String → Option String
first_file fs [] = none
first_file fs (path ∷ paths) = if fs.is_file path then some path else first_file fs paths

-- What stands under a path makes that path a directory.
unfoldable pub IsTree : FileSystem → Type 0
IsTree fs = (path name : String) → fs.is_file (fs.under path name) ≡ true → fs.is_dir path ≡ true

module _ (fs : FileSystem) where
  first_file-append :
      (xs ys : List String)
      → first_file fs (xs ++ ys) ≡ or_else (first_file fs xs) (first_file fs ys)
  unfolding first_file
  first_file-append [] ys = refl
  first_file-append (x ∷ xs) ys = elim (Bool-cases (fs.is_file x)) [
    | inl here ↦ rw here refl
    | inr other ↦ rw other (first_file-append xs ys)
  ]

  last_places :
      (q : Request)
      → first_file fs (fs.under fs.cwd q.filename ∷ fs.under fs.home q.filename ∷ [])
        ≡ or_else (config_file_from_cwd fs q.filename) (config_file_from_home_dir fs q.filename)
  unfolding first_file config_file_from_cwd config_file_from_home_dir
  last_places q = elim (Bool-cases (fs.is_file (fs.under fs.cwd q.filename))) [
    | inl here ↦ rw here refl
    | inr other ↦ rw other refl
  ]

  module _ (tree : IsTree fs) where
    file_or_inside-first_file :
        (path name : String)
        → file_or_inside fs path name ≡ first_file fs (path ∷ fs.under path name ∷ [])
    unfolding file_or_inside first_file IsTree
    file_or_inside-first_file path name = elim (Bool-cases (fs.is_file path)) [
      | inl here ↦ rw here refl
      | inr other ↦ elim (Bool-cases (fs.is_file (fs.under path name))) [
        | inl inside ↦ rw (other, inside, tree path name inside) refl
        | inr nowhere ↦ elim (Bool-cases (fs.is_dir path)) [
          | inl a ↦ rw (other, nowhere, a) refl
          | inr b ↦ rw (other, nowhere, b) refl
        ]
      ]
    ]

    path-first_file :
        (path : Option String) (name : String)
        → config_file_from_path fs path name ≡ first_file fs (named_path fs name path)
    unfolding config_file_from_path named_path first_file
    path-first_file none name = refl
    path-first_file (some path) name = file_or_inside-first_file (fs.expand_user path) name

    variable-first_file :
        (variable name : String)
        → config_file_from_variable fs variable name
          ≡ first_file fs (named_path fs name (given_value (fs.getenv variable)))
    unfolding named_path first_file config_file_from_variable
    variable-first_file variable name = elim (Option-cases (fs.getenv variable)) [
      | inl unset ↦ rw (config_file_from_variable, unset) refl
      | inr (value, set) ↦ elim (Bool-cases (truthy value)) [
        | inl full ↦
            rw (config_file_from_variable, set, full)
              (file_or_inside-first_file (fs.expand_user value) name)
        | inr empty ↦ rw (config_file_from_variable, set, empty) refl
      ]
    ]

    -- If every path with a file under it is a directory, `find_config_file` returns the first file
    -- among the given path, that path with the file name, the value of the environment variable,
    -- that value with the file name, the file in the current directory and the file in the home
    -- directory, and raises `ConfigFileParseError` if none of them is a file.
    pub find_config_file-first_file :
        (q : Request) → find_config_file fs q ≡ or_not_found (first_file fs (candidates fs q))
    unfolding find_config_file candidates
    find_config_file-first_file q =
        let in_path = path-first_file q.path q.filename in
        let in_variable = variable-first_file q.env_variable q.filename in
        ap or_not_found (
          sym (
            first_file-append _ _
            ∙ ap₂ or_else (sym in_path)
                (first_file-append _ _ ∙ ap₂ or_else (sym in_variable) (last_places q))))
