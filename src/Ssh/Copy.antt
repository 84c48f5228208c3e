-- ===== src/Ssh/Copy.antt =====
-- `SSHConnection.put` and `put_all`, with `_put` and `_put_all`: copies to the remote host. A path is
-- the list of its parts. The tree below a local directory is a value, in the order of `iterdir`.
pub mod Tree
pub mod Steps
pub mod Overlay
use coppercomm.Prelude.{
  ℕ, ◌%◌, ◌==◌, String, Bool, true, false, Option, none, some, List, [], ◌∷◌, ◌++◌, if◌then◌else◌,
  Error, os_error, sftp_transfer_failed, Act, Result, ok, raised, no_fuel, pure, raise, try, ◌>>=◌,
  ◌>>◌,
}
use coppercomm.Ssh.{Client, Connection, Raises, outcome, without_mutex, connected, connect}

abbrev pub PathParts : Type 0
PathParts = List String

-- paramiko's `SFTPClient`, on the states of the connection. `put` is given the bytes of the local
-- file, which it reads; `get` and `make_dirs` write to the local file system.
pub record Sftp (S : Type 0) : Type 0 where
  -- whether `SFTPClient.from_transport(transport)` gives a client
  pub from_transport : S → Bool × S
  -- what `with client as sftp` does at its end
  pub close_sftp : S → S
  pub put : String → PathParts → S → Raises × S
  pub chmod : PathParts → ℕ → S → Raises × S
  pub lstat : PathParts → S → Raises × S
  pub mkdir : PathParts → S → Raises × S
  -- `stat(path).st_mode`
  pub st_mode : PathParts → S → Result ℕ × S
  pub listdir : PathParts → S → Result (List String) × S
  pub get : PathParts → PathParts → S → Raises × S
  -- `local_dir.mkdir(parents=True, exist_ok=True)`
  pub make_dirs : PathParts → S → Raises × S

-- The entries of a local directory, each with its name: a file with its bytes and its `st_mode`, a
-- directory with its `st_mode`, or something else, such as a socket.
pub data Entries : Type 0 where
  nothing : Entries
  file : String → String → ℕ → Entries → Entries
  directory : String → ℕ → Entries → Entries → Entries
  special : String → Entries → Entries

-- What `put_all` is given: a file, or else.
pub data Source : Type 0 where
  a_file : String → ℕ → Source
  a_directory : ℕ → Entries → Source

-- `except IOError`
abbrev pub is_io_error : Error → Bool
is_io_error os_error = true
is_io_error _ = false

-- `chmod if chmod else (path.stat().st_mode & 0o777)`
abbrev pub permissions : Option ℕ → ℕ → ℕ
permissions none mode = mode % 512
permissions (some chmod) mode = if chmod == 0 then mode % 512 else chmod

module _ {S : Type 0} (F : Sftp S) where
  -- `_put`
  unfoldable pub put_file : String → ℕ → PathParts → Option ℕ → Act S (Unit {0})
  put_file content mode remotepath chmod = do
    λ s. outcome (F.put content remotepath s)
    λ s. outcome (F.chmod remotepath (permissions chmod mode) s)

  -- `lstat`, and `mkdir` when it fails.
  unfoldable pub ensure_dir : PathParts → Act S (Unit {0})
  ensure_dir dest =
      try (λ s. outcome (F.lstat dest s)) is_io_error (λ _ s. outcome (F.mkdir dest s))

  -- `_put_all`
  unfoldable pub put_entries : Entries → PathParts → Option ℕ → Act S (Unit {0})
  unfolding put_file ensure_dir
  put_entries nothing remotepath chmod = pure tt
  put_entries (file name content mode rest) remotepath chmod =
      put_file content mode (remotepath ++ (name ∷ [])) chmod >>= λ _.
      put_entries rest remotepath chmod
  put_entries (directory name mode sub rest) remotepath chmod =
      ensure_dir (remotepath ++ (name ∷ [])) >>= λ _.
      put_entries sub (remotepath ++ (name ∷ [])) none >>= λ _.
      (λ s. outcome (F.chmod (remotepath ++ (name ∷ [])) (permissions chmod mode) s)) >>= λ _.
      put_entries rest remotepath chmod
  put_entries (special name rest) remotepath chmod = put_entries rest remotepath chmod

  -- What `put_all` does with the SFTP client.
  unfoldable pub put_directory : String → ℕ → Entries → PathParts → Option ℕ → Act S (Unit {0})
  unfolding ensure_dir put_entries
  put_directory name mode entries remote_dir chmod = do
    ensure_dir (remote_dir ++ (name ∷ []))
    put_entries entries (remote_dir ++ (name ∷ [])) chmod
    λ s. outcome (F.chmod (remote_dir ++ (name ∷ [])) (permissions chmod mode) s)

module _ (C : Client) (F : Sftp C.State) where
  abbrev pub get_transport : Act (Connection C) (Option Bool)
  get_transport = without_mutex C λ s. let (t, s') = C.transport s in (ok t, s')

  abbrev pub from_transport : Act (Connection C) Bool
  from_transport = without_mutex C λ s. let (b, s') = F.from_transport s in (ok b, s')

  -- `with client as sftp`
  abbrev pub with_client : {A : Type 0} → Act (Connection C) A → Bool → Act (Connection C) A
  with_client body false = raise sftp_transfer_failed
  with_client body true =
      λ c. let (r, c') = body c in (r, record c' { client = F.close_sftp c'.client })

  abbrev pub on_sftp : {A : Type 0} → Act (Connection C) A → Option Bool → Act (Connection C) A
  on_sftp body none = raise sftp_transfer_failed
  on_sftp body (some active) = from_transport >>= with_client body

  -- How each of the four copies gets its SFTP client. The defaults of `connect` are 30 seconds, an
  -- interval of 5 seconds, and a delay of 2 seconds; the limit of TCP is 10 seconds.
  unfoldable pub over_sftp : {A : Type 0} → ℕ → Act (Connection C) A → Act (Connection C) A
  unfolding connect connected
  over_sftp fuel body = do
    connect C fuel 30000 10000 (some 5) 2000
    is_connected ← without_mutex C (connected C)
    if is_connected then (get_transport >>= on_sftp body) else raise sftp_transfer_failed

  unfoldable pub put : ℕ → String → ℕ → PathParts → Option ℕ → Act (Connection C) (Unit {0})
  unfolding over_sftp put_file
  put fuel content mode remotepath chmod =
      over_sftp fuel (without_mutex C (put_file F content mode remotepath chmod))

  unfoldable pub put_all :
      ℕ → String → Source → PathParts → Option ℕ → Act (Connection C) (Unit {0})
  unfolding over_sftp put put_directory
  put_all fuel name (a_file content mode) remote_dir chmod =
      put fuel content mode (remote_dir ++ (name ∷ [])) none
  put_all fuel name (a_directory mode entries) remote_dir chmod =
      over_sftp fuel (without_mutex C (put_directory F name mode entries remote_dir chmod))
