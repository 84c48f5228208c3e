-- ===== src/Ssh/Fetch.antt =====
-- `SSHConnection.get` and `get_all`, with `_get_all`, `_is_file` and `_is_dir`: copies from the
-- remote host. `matches name pattern` stands for `fnmatch.fnmatch`. Fuel counts the directories in
-- one another.
pub mod Ends
use coppercomm.Prelude.{
  ℕ, zero, suc, ◌/◌, ◌%◌, ◌≡◌, ◌↔◌, arith, ◌==◌, String, Bool, true, Option, none, some, List, [],
  ◌∷◌, ◌++◌, if◌then◌else◌, Act, pure, try, ◌>>=◌, ◌>>◌, cut_off,
}
use coppercomm.Ssh.{Client, Connection, outcome, without_mutex}
use coppercomm.Ssh.Copy.{PathParts, Sftp, is_io_error, over_sftp}

-- `st_mode >> 9`, against the two kinds of object that are copied.
unfoldable pub is_dir_mode : ℕ → Bool
is_dir_mode st_mode = st_mode / 512 == 32

unfoldable pub is_file_mode : ℕ → Bool
is_file_mode st_mode = st_mode / 512 == 64

module _ {S : Type 0} (F : Sftp S) (matches : String → String → Bool) where
  unfoldable pub is_dir : PathParts → Act S Bool
  unfolding is_dir_mode
  is_dir remote_path = F.st_mode remote_path >>= λ mode. pure (is_dir_mode mode)

  unfoldable pub is_file : PathParts → Act S Bool
  unfolding is_file_mode
  is_file remote_path = F.st_mode remote_path >>= λ mode. pure (is_file_mode mode)

  -- What becomes of the entry `name` of `parent`; `descend` copies the entries of a directory.
  unfoldable pub fetch_entry :
      (PathParts → PathParts → Act S (Unit {0})) → PathParts → PathParts → String → Act S (Unit {0})
  unfolding is_dir is_file
  fetch_entry descend parent local_dir name = do
    λ s. outcome (F.make_dirs local_dir s)
    a_file ← is_file (parent ++ (name ∷ []))
    if a_file
        then (λ s. outcome (F.get (parent ++ (name ∷ [])) (local_dir ++ (name ∷ [])) s))
        else (is_dir (parent ++ (name ∷ [])) >>= λ a_directory.
            if a_directory
            then descend (parent ++ (name ∷ [])) (local_dir ++ (name ∷ []))
            else pure tt)

  unfoldable pub fetch_names :
      (PathParts → PathParts → Act S (Unit {0}))
      → PathParts
      → String
      → PathParts
      → List String
      → Act S (Unit {0})
  unfolding fetch_entry
  fetch_names descend parent pattern local_dir [] = pure tt
  fetch_names descend parent pattern local_dir (name ∷ names) =
      let rest = fetch_names descend parent pattern local_dir names in
      if matches name pattern
      then (fetch_entry descend parent local_dir name >>= λ _. rest)
      else rest

  -- `_get_all`, of the path `parent / pattern`.
  unfoldable pub get_matching : ℕ → PathParts → String → PathParts → Act S (Unit {0})
  unfolding fetch_names
  get_matching zero parent pattern local_dir = cut_off
  get_matching (suc fuel) parent pattern local_dir =
      F.listdir parent
      >>= fetch_names (λ below local. get_matching fuel below "*" local) parent pattern local_dir

module _ (C : Client) (F : Sftp C.State) (matches : String → String → Bool) where
  unfoldable pub get : ℕ → PathParts → PathParts → Act (Connection C) (Unit {0})
  unfolding over_sftp
  get fuel remotepath localpath =
      over_sftp C F fuel (without_mutex C λ s. outcome (F.get remotepath localpath s))

  -- The attempt of `get_all` to take the path `parent / name` for a file, through a client of its own.
  unfoldable pub get_one :
      ℕ → PathParts → String → PathParts → Act (Connection C) (Option (Unit {0}))
  unfolding is_file get
  get_one fuel parent name local_dir = do
    a_file ← without_mutex C (is_file F matches (parent ++ (name ∷ [])))
    if a_file
        then (without_mutex C (λ s. outcome (F.make_dirs local_dir s)) >>= λ _.
            get fuel (parent ++ (name ∷ [])) (local_dir ++ (name ∷ [])) >>= λ _. pure (some tt))
        else pure none

  abbrev unless_done :
      Act (Connection C) (Unit {0}) → Option (Unit {0}) → Act (Connection C) (Unit {0})
  unless_done rest (some a) = pure tt
  unless_done rest none = rest

  unfoldable pub get_all : ℕ → PathParts → String → PathParts → Act (Connection C) (Unit {0})
  unfolding over_sftp get_one get_matching
  get_all fuel parent name local_dir = over_sftp C F fuel (
      try (get_one fuel parent name local_dir) is_io_error (λ _. pure none)
      >>= unless_done (without_mutex C (get_matching F matches fuel parent name local_dir)))

-- What the tests of a mode accept: a regular file, or a directory, that has none of the bits for
-- setuid, setgid and sticky.
pub is_file_mode_iff :
    (st_mode : ℕ) → (is_file_mode st_mode ≡ true) ↔ ((st_mode / 4096 ≡ 8) × (st_mode / 512 % 8 ≡ 0))
unfolding is_file_mode
is_file_mode_iff st_mode = ground arith

pub is_dir_mode_iff :
    (st_mode : ℕ) → (is_dir_mode st_mode ≡ true) ↔ ((st_mode / 4096 ≡ 4) × (st_mode / 512 % 8 ≡ 0))
unfolding is_dir_mode
is_dir_mode_iff st_mode = ground arith
