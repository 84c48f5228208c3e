-- ===== src/AdbLogger.antt =====
-- src/coppercomm/loggers/adb_logger/adb_logger_thread.py: the file that stamps its lines
-- (`TimestampedFile`) and the names of log files (`LogFileProvider`). The thread is a child.
pub mod Lines
pub mod Loop
pub mod Rules
pub mod Aside
pub mod Collected
pub mod Stops
pub mod Control
use Prim.Native.Char.{code}
use coppercomm.Prelude.{
  ℕ, suc, ◌+◌, ◌==◌, ◌≡◌, ◌≢◌, String, ◌<>◌, Bool, true, false, List, [], ◌∷◌, ◌++◌, if◌then◌else◌,
}

abbrev pub newline : ℕ
newline = 10

-- What `"(.*\n)"` finds in a text whose first line has begun with `line`.
unfoldable pub log_lines : String → String → List String
log_lines line String.[] = []
log_lines line (String.◌∷◌ c s) =
    let next = (line <> String.◌∷◌ c "") ∷ log_lines "" s in
    let longer = log_lines (line <> String.◌∷◌ c "") s in if code c == newline then next else longer

-- What `".*$(?!\n)"` finds: what stands behind the last "\n".
unfoldable pub incomplete_line : String → String → String
incomplete_line line String.[] = line
incomplete_line line (String.◌∷◌ c s) =
    let next = incomplete_line "" s in
    let longer = incomplete_line (line <> String.◌∷◌ c "") s in
    if code c == newline then next else longer

-- One call of the file below: the timestamp, and the line that follows it.
pub record Stamped : Type 0 where
  pub timestamp : String
  pub log : String

-- `strftime` of the clock is a parameter, on the states of the host.
module _ {S : Type 0} (now : S → String × S) where
  pub record TimestampedFile : Type 0 where
    pub host : S
    pub written : List Stamped
    pub tailing_log_entry : String

  unfoldable pub write_logs : List String → TimestampedFile → TimestampedFile
  write_logs [] f = f
  write_logs (log ∷ logs) f =
      let (text, host) = now f.host in
      write_logs logs (record f {
        host = host;
        written = f.written ++ (record { timestamp = "[" <> text <> "] "; log = log } ∷ []);
      })

  -- `TimestampedFile.write`
  unfoldable pub write : String → TimestampedFile → TimestampedFile
  unfolding log_lines incomplete_line write_logs
  write entry f =
      let g =
        write_logs (log_lines "" (f.tailing_log_entry <> entry))
          (record f { tailing_log_entry = "" }) in
      record g { tailing_log_entry = incomplete_line "" entry }

-- A `LogFileProvider`: a name in two parts, and how many files it has provided.
pub record LogFileProvider : Type 0 where
  pub name : String
  pub extension : String
  pub single_file : Bool
  pub counter : ℕ

-- `decimal` is `str` of a number.
module _ (decimal : ℕ → String) where
  abbrev pub next_logfile_name : LogFileProvider → String
  next_logfile_name p =
      if p.single_file
      then p.name <> p.extension
      else p.name <> ("_nr_" <> (decimal p.counter <> ("_logs" <> p.extension)))

  -- `provide`: the name of the file that is opened.
  unfoldable pub provide : LogFileProvider → String × LogFileProvider
  provide p = let q = record p { counter = suc p.counter } in (next_logfile_name q, q)
