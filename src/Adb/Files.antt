-- ===== src/Adb/Files.antt =====
-- `Adb.push`, `pull` and `take_screencap`.
use text.Mathlib.TextLemmas.{append_assoc}
use coppercomm.Prelude.{
  ℕ, ◌≡◌, refl, ◌∙◌, ap, ◌++◌, String, ◌<>◌, Bool, true, false, Option, some, List, [], ◌∷◌,
  if◌then◌else◌, value_error, Act, pure, raise, gets, ◌>>=◌, ◌>>◌,
}
use coppercomm.Host.{Host}
use coppercomm.Shlex.{shlex_split, quote, lex, bare, emit}
use coppercomm.Shlex.RoundTrip.{lex-quote, lex-quote_last, lex-word}
use coppercomm.LocalConsole.{line, command_words, execute_words}
use coppercomm.Adb.{Session, on_host, shell, check_output, adb_defaults}

-- `push` does not quote its paths.
abbrev pub push_command : String → String → String
push_command element on_device_path = "push " <> element <> " " <> on_device_path

unfoldable pub pull_command : String → String → String
unfolding quote
pull_command on_device_path local_path =
    "pull " <> (quote on_device_path <> (" " <> quote local_path))

module _ (H : Host) where
  unfoldable pub push_each : List String → String → Option ℕ → Act (Session H) (Unit {0})
  unfolding check_output
  push_each [] on_device_path timeout = pure tt
  push_each (element ∷ elements) on_device_path timeout =
      check_output H false (line (push_command element on_device_path))
        (record adb_defaults { timeout = timeout })
      >>= λ _. push_each elements on_device_path timeout

  -- `if condition: call`
  abbrev when : Bool → Act (Session H) String → Act (Session H) (Unit {0})
  when condition call = if condition then (call >>= λ _. pure tt) else pure tt

  abbrev push_found : List String → Act (Session H) (Unit {0}) → Act (Session H) (Unit {0})
  push_found [] rest = raise value_error
  push_found (x ∷ xs) rest = rest

  unfoldable pub push : String → String → Bool → Bool → Option ℕ → Act (Session H) (Unit {0})
  unfolding push_each check_output shell
  push local_path on_device_path create_dest_dir sync timeout = do
    elements ← gets λ s. H.glob (H.expand_vars (H.expand_user local_path s.host) s.host) s.host
    push_found elements do
      when create_dest_dir (check_output H true (line ("mkdir -p " <> on_device_path)) adb_defaults)
      push_each elements on_device_path timeout
      when sync (shell H (line "sync") (record adb_defaults { timeout = some 60000 }))

  unfoldable pub pull : String → String → Option ℕ → Act (Session H) (Unit {0})
  unfolding check_output pull_command
  pull on_device_path local_path timeout = do
    check_output H false (line (pull_command on_device_path local_path))
        (record adb_defaults { timeout = timeout })
    pure tt

  -- `under` joins two paths, and `stamp` is the text of `round(time.time())` at that moment.
  module _ (under : String → String → String) (stamp : H.State → String) where
    unfoldable pub take_screencap : String → Act (Session H) (Unit {0})
    unfolding check_output pull
    take_screencap dest_file = do
      name ← gets λ s. "screenshot-" <> (stamp s.host <> ".png")
      dest ← gets λ s. if H.is_dir dest_file s.host then under dest_file name else dest_file
      check_output H true (line ("screencap -p " <> ("/sdcard/" <> name))) adb_defaults
      pull ("/sdcard/" <> name) dest (some 60000)
      check_output H true (line ("rm " <> ("/sdcard/" <> name))) adb_defaults
      pure tt

-- Whatever the two paths are, the words of the command that `pull` builds are `pull` and these
-- paths: no space, quote or backslash in them splits or changes them.
pub pull_command-splits :
    (on_device_path local_path : String)
    → shlex_split (pull_command on_device_path local_path)
      ≡ some ("pull" ∷ on_device_path ∷ local_path ∷ [])
unfolding shlex_split pull_command
pull_command-splits on_device_path local_path =
    ap (lex bare false "")
      (append_assoc "pull" " " (quote on_device_path <> (" " <> quote local_path)))
    ∙ lex-word "pull" (quote on_device_path <> (" " <> quote local_path)) refl refl
    ∙ ap (emit true "pull") (
        lex-quote on_device_path (quote local_path)
        ∙ ap (emit true on_device_path) (lex-quote_last local_path))

module _ (H : Host) where
  -- Whatever its two paths are, with blanks, quotes or backslashes in them, `pull` is the run of
  -- `adb pull` with exactly these two paths as its arguments.
  pub pull-runs :
      (on_device_path local_path : String) (timeout : Option ℕ) (s : Session H)
      → pull H on_device_path local_path timeout s
        ≡ (on_host H (
                execute_words H
                  (s.adb.adb_cmd ++ ("pull" ∷ on_device_path ∷ local_path ∷ []))
                  (record adb_defaults { timeout = timeout }))
              >>= λ _. pure tt)
            s
  unfolding pull check_output command_words
  pull-runs on_device_path local_path timeout s =
      rw (command_words, pull_command-splits on_device_path local_path) refl
