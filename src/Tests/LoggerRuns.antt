-- ===== src/Tests/LoggerRuns.antt =====
-- Runs of the adb logger, and the theorems at concrete inputs.
use coppercomm.Prelude.{
  ℕ, ◌≡◌, refl, inl, arith, String, ◌<>◌, Bool, true, false, none, some, [], ◌∷◌, length, pos,
  attribute_error, ok, raised, no_fuel, ◌≢◌,
}
use coppercomm.AdbLogger.{TimestampedFile, write}
use coppercomm.AdbLogger.Lines.{logged, dropped, write-logged}
use coppercomm.AdbLogger.Loop.{Outside, Settings, Logger, run}
use coppercomm.AdbLogger.Collected.{OneFile, run-OneFile}
use coppercomm.AdbLogger.Stops.{IsAwaited, run-closed, run-stops}
use coppercomm.Tests.Bench.{bench, replay, said}

abbrev no_clock : Unit {0} → String × Unit {0}
no_clock u = ("now", u)

abbrev file_with : String → TimestampedFile no_clock
file_with tail = record { host = tt; written = []; tailing_log_entry = tail }

finished_line : logged (write no_clock "cd\ne" (file_with "ab")).written ≡ "abcd\n"
unfolding write
finished_line = refl

-- A line that comes in three pieces loses the first.
line_in_three_pieces :
    logged (write no_clock "c\n" (write no_clock "b" (write no_clock "a" (file_with "")))).written
    ≡ "bc\n"
unfolding write
line_in_three_pieces = refl

write-logged_example :
    logged (write no_clock "cd\ne" (file_with "ab")).written
      <> (dropped no_clock "cd\ne" (file_with "ab")
          <> (write no_clock "cd\ne" (file_with "ab")).tailing_log_entry)
    ≡ (logged [] <> "ab") <> "cd\ne"
write-logged_example = write-logged no_clock "cd\ne" (file_with "ab")

-- Processes exit at once with the code 0, or with 1; the logger is asked to stop after half a minute.
abbrev exits_with : ℕ → Outside bench
exits_with code = record {
  popen = λ argv file p. (none, p);
  poll = λ p. (some (pos code), p);
  terminate = λ p. p;
  kill = λ p. p;
  wait = λ limit p. (none, p);
  open_file = λ name p. (none, p);
  abspath = λ name p. name;
  locked = λ p. (false, p);
  asked_to_stop = λ p. (false, p);
  decimal = λ n. "n";
}

exits_with-IsAwaited : (code : ℕ) → IsAwaited (exits_with code)
exits_with-IsAwaited code = record { waits = λ limit p. inl refl }

abbrev settings : Bool → Settings
settings append = record {
  command = "logcat";
  adb_prefix = "adb";
  append_after_interrupt = append;
  adb_version = 34;
}

abbrev new_logger :
    (code : ℕ) (append : Bool) → Bool → Logger bench (exits_with code) (settings append)
new_logger code append stop = record {
  host = replay (
      said "" ∷ said "" ∷ said "" ∷ said "" ∷ said "" ∷ said "" ∷ said "" ∷ said "" ∷ said "" ∷ []);
  connection = false;
  stop_adb_loop = stop;
  file = none;
  is_open = false;
  log_filenames_list = [];
  logger_started = false;
  adb_hiccup_counter = 0;
  provider = record { name = "log"; extension = ".txt"; single_file = append; counter = 0 };
}

-- A command that fails while the device answers raises in the logger, at the first time.
hiccup_raises :
    (run bench (exits_with 1) (settings false) 2 (new_logger 1 false false)).0
    ≡ raised attribute_error
unfolding run
hiccup_raises = refl

-- A command that succeeds at once gets a file at every round.
file_after_file :
    length
      (run bench (exits_with 0) (settings false) 2 (new_logger 0 false false)).1.log_filenames_list
    ≡ 2
unfolding run
file_after_file = refl

run-OneFile_example :
    OneFile bench
      (exits_with 0)
      (settings true)
      (run bench (exits_with 0) (settings true) 2 (new_logger 0 true false)).1
run-OneFile_example =
    run-OneFile bench (exits_with 0) (settings true) refl 2 (new_logger 0 true false)
      (omega arith, λ _. refl)

stopped_run : (run bench (exits_with 0) (settings true) 3 (new_logger 0 true true)).0 ≢ no_fuel
unfolding run
stopped_run e = cc

run-closed_example :
    (run bench (exits_with 0) (settings true) 3 (new_logger 0 true true)).1.is_open ≡ false
run-closed_example =
    run-closed bench (exits_with 0) (settings true) (exits_with-IsAwaited 0) 3
      (new_logger 0 true true) stopped_run

run-stops_example :
    ((run bench (exits_with 0) (settings true) 3 (new_logger 0 true true)).0 ≡ ok tt)
    × ((run bench (exits_with 0) (settings true) 3 (new_logger 0 true true)).1.logger_started
        ≡ false)
    × ((run bench (exits_with 0) (settings true) 3 (new_logger 0 true true)).1.is_open ≡ false)
run-stops_example =
    run-stops bench (exits_with 0) (settings true) (exits_with-IsAwaited 0) 2
      (new_logger 0 true true) refl
