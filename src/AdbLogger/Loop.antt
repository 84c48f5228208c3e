-- ===== src/AdbLogger/Loop.antt =====
-- src/coppercomm/loggers/adb_logger/adb_logger_thread.py: the thread (`AdbLoggerThread`). The process
-- that it starts, its files and the lock that the threads share are parameters, as is the thread
-- that calls `stop_logging`.
use coppercomm.Prelude.{
  ℕ, zero, suc, ltb, leb, String, split, Bool, true, false, ◌||◌, not, Option, none, some, List, [],
  ◌∷◌, ◌++◌, if◌then◌else◌, ℤ, pos, int_eq, Error, called_process_error, process_timeout,
  adb_loop_stopped, attribute_error, os_error, Act, Result, ok, raised, no_fuel, pure, raise, gets,
  modify, try, ◌>>=◌, ◌>>◌, cut_off,
}
use coppercomm.Host.{Host, Completion, completed, expired, unstartable}
use coppercomm.AdbLogger.{LogFileProvider, provide}

pub record Outside (H : Host) : Type 0 where
  -- `subprocess.Popen(argv, stdout=file, stderr=STDOUT)`; the process that it started is then asked
  -- by `poll`, told by `terminate` and `kill`, and awaited, at most so long
  pub popen : List String → String → H.State → Option Error × H.State
  pub poll : H.State → Option ℤ × H.State
  pub terminate : H.State → H.State
  pub kill : H.State → H.State
  pub wait : ℕ → H.State → Option Error × H.State
  -- `open(name, ...)`, and `os.path.abspath`
  pub open_file : String → H.State → Option Error × H.State
  pub abspath : String → H.State → String
  -- whether another thread is establishing its connection
  pub locked : H.State → Bool × H.State
  -- whether `stop_logging` has been called from outside by now
  pub asked_to_stop : H.State → Bool × H.State
  -- `str` of a number
  pub decimal : ℕ → String

-- What the constructor is given, and the version of adb.
pub record Settings : Type 0 where
  pub command : String
  pub adb_prefix : String
  pub append_after_interrupt : Bool
  pub adb_version : ℕ

abbrev pub max_adb_hiccups : ℕ
max_adb_hiccups = 10

-- `except subprocess.CalledProcessError` and `subprocess.TimeoutExpired`, and their base class.
abbrev pub is_called_process : Error → Bool
is_called_process called_process_error = true
is_called_process _ = false

abbrev pub is_subprocess : Error → Bool
is_subprocess called_process_error = true
is_subprocess process_timeout = true
is_subprocess _ = false

abbrev pub is_stopped : Error → Bool
is_stopped adb_loop_stopped = true
is_stopped _ = false

module _ (H : Host) (O : Outside H) (G : Settings) where
  -- `connection` says whether `_connection` is a process; `is_open` whether `_file` is open.
  pub record Logger : Type 0 where
    pub host : H.State
    pub connection : Bool
    pub stop_adb_loop : Bool
    pub file : Option String
    pub is_open : Bool
    pub log_filenames_list : List String
    pub logger_started : Bool
    pub adb_hiccup_counter : ℕ
    pub provider : LogFileProvider

  abbrev pub world : {A : Type 0} → (H.State → A × H.State) → Act Logger A
  world f l = let (a, host) = f l.host in (ok a, record l { host = host })

  abbrev pub doing : (H.State → H.State) → Act Logger (Unit {0})
  doing f = modify λ l. record l { host = f l.host }

  abbrev pub checked : Option Error → Act Logger (Unit {0})
  checked none = pure tt
  checked (some e) = raise e

  abbrev pub full_cmd_as_list : String → List String
  full_cmd_as_list command = split G.adb_prefix ++ split command

  -- What `_logged_subprocess_run` makes of the end of its process, with `check`.
  abbrev pub run_result : Completion → Act Logger ℤ
  run_result (completed text code) =
      if int_eq code (pos 0) then pure code else raise called_process_error
  run_result expired = raise process_timeout
  run_result unstartable = raise os_error

  unfoldable pub logged_subprocess_run : String → ℕ → Act Logger ℤ
  logged_subprocess_run command timeout =
      world (H.run (full_cmd_as_list command) (some timeout) none) >>= run_result

  unfoldable pub setup_adb_connection : Act Logger (Unit {0})
  unfolding logged_subprocess_run
  setup_adb_connection = do
    logged_subprocess_run "start-server" 15000
    logged_subprocess_run (if leb 34 G.adb_version then "wait-for-device" else "wait-for-any") 15000
    logged_subprocess_run "root" 15000
    doing (H.sleep 100)
    logged_subprocess_run "get-state" 15000
    pure tt

  unfoldable pub is_adb_shell_working : Act Logger Bool
  unfolding logged_subprocess_run
  is_adb_shell_working =
      try (logged_subprocess_run "shell whoami" 500 >>= λ code. pure (int_eq code (pos 0)))
        is_subprocess (λ _. pure false)

  unfoldable pub is_connection_established : Act Logger Bool
  unfolding is_adb_shell_working
  is_connection_established =
      world O.locked >>= λ locked. if locked then pure false else is_adb_shell_working

  -- `poll()` as a truth value: neither `None` nor 0.
  abbrev pub poll_truthy : Option ℤ → Bool
  poll_truthy none = false
  poll_truthy (some code) = not (int_eq code (pos 0))

  -- `a() and b()`
  abbrev pub and_then : Act Logger Bool → Act Logger Bool → Act Logger Bool
  and_then a b = a >>= λ x. if x then b else pure false

  -- `self._connection.stderr.read()`: of a process whose stderr goes to its stdout, `stderr` is `None`.
  abbrev pub read_stderr : Act Logger (Unit {0})
  read_stderr = raise attribute_error

  -- `_stop_if_cmd_consequently_exits_before_adb_looses_connection`
  unfoldable pub stop_if_cmd_exits : Act Logger (Unit {0})
  unfolding is_connection_established
  stop_if_cmd_exits = do
    hiccup ←
        and_then (gets λ l. l.connection)
          (and_then (world O.poll >>= λ p. pure (poll_truthy p)) is_connection_established)
    if hiccup
        then (world O.poll >>= λ _. read_stderr >>= λ _.
            modify (λ l. record l { adb_hiccup_counter = suc l.adb_hiccup_counter }) >>= λ _.
            doing (H.sleep 500) >>= λ _.
            gets (λ l. ltb max_adb_hiccups l.adb_hiccup_counter) >>= λ too_many.
            if too_many then raise adb_loop_stopped else pure tt)
        else modify (λ l. record l { adb_hiccup_counter = 0 })

  abbrev pub poll_is_none : Option ℤ → Bool
  poll_is_none none = true
  poll_is_none (some code) = false

  unfoldable pub is_logging : Act Logger Bool
  is_logging = and_then (gets λ l. l.connection) (world O.poll >>= λ p. pure (poll_is_none p))

  abbrev pub is_missing : Option String → Bool
  is_missing none = true
  is_missing (some name) = false

  abbrev pub next_name : Act Logger String
  next_name l =
      let (name, provider) = provide O.decimal l.provider in
      (ok name, record l { provider = provider })

  -- The next file in place of the one before.
  unfoldable pub open_next : Act Logger (Unit {0})
  open_next = do
    modify λ l. record l { is_open = false }
    name ← next_name
    world (O.open_file name) >>= checked
    modify λ l. record l {
      file = some name;
      is_open = true;
      log_filenames_list = l.log_filenames_list ++ (O.abspath name l.host ∷ []);
    }

  -- `_setup_file`
  unfoldable pub setup_file : Act Logger (Unit {0})
  unfolding open_next
  setup_file = do
    needed ← gets λ l. not G.append_after_interrupt || is_missing l.file
    if needed then open_next else pure tt

  -- The file that the process writes to; there is one, behind `_setup_file`.
  abbrev pub file_name : Option String → String
  file_name none = ""
  file_name (some name) = name

  unfoldable pub start_logging : Act Logger (Unit {0})
  start_logging = do
    name ← gets λ l. file_name l.file
    world (O.popen (full_cmd_as_list G.command) name) >>= checked
    modify λ l. record l { connection = true }

  unfoldable pub stop_logging : Act Logger (Unit {0})
  stop_logging = modify λ l. if l.stop_adb_loop then l else record l { stop_adb_loop = true }

  abbrev pub unless_appending : Act Logger (Unit {0}) → Act Logger (Unit {0})
  unless_appending m = if not G.append_after_interrupt then m else pure tt

  -- What a round of `_adb_loop` does when nothing is being logged.
  unfoldable pub restart : Act Logger (Unit {0})
  unfolding stop_if_cmd_exits setup_adb_connection setup_file start_logging
  restart = do
    modify λ l. record l { logger_started = false }
    unless_appending stop_if_cmd_exits
    modify λ l. record l { connection = false }
    setup_adb_connection
    setup_file
    start_logging
    modify λ l. record l { logger_started = true }

  -- The flag, which another thread may have set.
  unfoldable pub read_flag : Act Logger Bool
  unfolding stop_logging
  read_flag = do
    asked ← world O.asked_to_stop
    if asked then stop_logging else pure tt
    gets λ l. l.stop_adb_loop

  unfoldable pub loop_body : Act Logger (Unit {0})
  unfolding read_flag is_logging restart
  loop_body = do
    stopping ← read_flag
    if stopping
        then (modify (λ l. record l { logger_started = false }) >>= λ _. raise adb_loop_stopped)
        else pure tt
    logging ← is_logging
    if logging then pure tt else restart
    doing (H.sleep 500)

  unfoldable pub loop_failed : Error → Act Logger (Unit {0})
  unfolding stop_if_cmd_exits stop_logging
  loop_failed e =
      if is_called_process e
      then (unless_appending stop_if_cmd_exits >>= λ _. doing (H.sleep 300))
      else stop_logging

  unfoldable pub adb_loop : ℕ → Act Logger (Unit {0})
  unfolding loop_body loop_failed
  adb_loop zero = cut_off
  adb_loop (suc fuel) = try loop_body is_subprocess loop_failed >>= λ _. adb_loop fuel

  -- `terminate`, and `kill` if that is of no use.
  unfoldable pub end_process : Act Logger (Unit {0})
  end_process = doing O.terminate >>= λ _.
      try (world (O.wait 15000) >>= checked) is_subprocess (λ _.
        try (doing O.kill >>= λ _. world (O.wait 15000) >>= checked) is_subprocess (λ _. pure tt))

  -- The `finally` of `run`.
  unfoldable pub shut_down : Act Logger (Unit {0})
  unfolding end_process
  shut_down = do
    connected ← gets λ l. l.connection
    if connected then end_process else pure tt
    modify λ l. record l { is_open = false }

  abbrev pub finally_shut_down : Result (Unit {0}) × Logger → Result (Unit {0}) × Logger
  finally_shut_down (ok a, l) = shut_down l
  finally_shut_down (raised e, l) = (shut_down >>= λ _. raise e) l
  finally_shut_down (no_fuel, l) = (no_fuel, l)

  unfoldable pub run : ℕ → Act Logger (Unit {0})
  unfolding adb_loop shut_down
  run fuel l = finally_shut_down (try (adb_loop fuel) is_stopped (λ _. pure tt) l)
