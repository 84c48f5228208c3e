-- ===== src/Host.antt =====
-- The world outside the library: processes, the clock, the file system, and the regular
-- expressions that callers pass. Python's `subprocess`, `time`, `glob`, `os.path` and `re` reach
-- it; here it is a parameter. All times are whole milliseconds.
use coppercomm.Prelude.{ℕ, ◌+◌, ◌≤◌, ◌≡◌, String, Bool, Option, List, Act, ok, ℤ}

-- How a child process ends: with its output, decoded, and its exit code; by the time limit; or
-- not even started (an `OSError`).
pub data Completion : Type 0 where
  completed : String → ℤ → Completion
  expired : Completion
  unstartable : Completion

pub record Host : Type 1 where
  pub State : Type 0
  -- `subprocess.run(argv, stderr=STDOUT, timeout=..., cwd=...)`
  pub run : List String → Option ℕ → Option String → State → Completion × State
  -- `subprocess.check_output(argv)`, of which only the standard output comes back
  pub capture : List String → State → Completion × State
  -- `time.monotonic()` and the other clocks
  pub clock : State → ℕ × State
  -- `time.sleep(d)`
  pub sleep : ℕ → State → State
  -- whether `re` takes the pattern, and the matched text of `re.search(pattern, text)` where it
  -- does; a search for another pattern raises `re.error`
  pub compiles : String → Bool
  pub search : String → String → Option String
  -- `glob.glob(path)`
  pub glob : String → State → List String
  -- `os.path.expanduser(path)` and `os.path.expandvars(path)`
  pub expand_user : String → State → String
  pub expand_vars : String → State → String
  -- `pathlib.Path(path).is_dir()`
  pub is_dir : String → State → Bool
  -- the true time, which the clocks show
  pub time : State → ℕ

-- What the code relies on: a clock shows the time, time does not run backwards, and a sleep lasts
-- as long as it was asked to.
pub record IsLawful (H : Host) : Type 0 where
  pub clock_shows : (s : H.State) → (H.clock s).0 ≡ H.time (H.clock s).1
  pub time-clock : (s : H.State) → H.time s ≤ H.time (H.clock s).1
  pub time-sleep : (d : ℕ) (s : H.State) → H.time s + d ≤ H.time (H.sleep d s)
  pub time-run :
      (argv : List String) (limit : Option ℕ) (cwd : Option String) (s : H.State)
      → H.time s ≤ H.time (H.run argv limit cwd s).1
  pub time-capture : (argv : List String) (s : H.State) → H.time s ≤ H.time (H.capture argv s).1

module _ (H : Host) where
  abbrev pub read_clock : Act H.State ℕ
  read_clock s = let (t, s') = H.clock s in (ok t, s')

  abbrev pub pause : ℕ → Act H.State (Unit {0})
  pause d s = (ok tt, H.sleep d s)
