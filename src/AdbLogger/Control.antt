-- ===== src/AdbLogger/Control.antt =====
-- src/coppercomm/loggers/adb_logger/adb_logger.py, class `AdbLogger`, and `DeviceLoggerViaAdb` of
-- src/coppercomm/loggers/device_logger.py. The thread is a parameter: it is that of AdbLogger/Loop.
use coppercomm.Prelude.{
  ℕ, ◌≡◌, refl, ap, inl, inr, Bool-cases, String, ◌<>◌, str_eq, split_on, Bool, true, false, not,
  Option, none, some, List, [], ◌∷◌, if◌then◌else◌, Error, os_error, Act, ok, pure, raise, gets,
  modify, try, ◌>>=◌,
}

-- Threads, and the files that they leave. `spawn` is given the command, the prefix, the name of the
-- log file and whether to append, and starts the thread.
pub record Threads : Type 1 where
  pub State : Type 0
  pub Handle : Type 0
  pub spawn : String → String → String → Bool → State → Handle × State
  pub is_alive : Handle → State → Bool × State
  pub wait_for_logging_start : Handle → Option ℕ → State → Bool × State
  pub stop_logging : Handle → State → State
  pub join : Handle → State → State
  pub get_collected_file_paths : Handle → State → List String
  -- `os.remove`
  pub remove : String → State → Option Error × State

abbrev pub is_os_error : Error → Bool
is_os_error os_error = true
is_os_error _ = false

-- What the constructor is given; with `shell`, the command is one of the shell.
abbrev pub logger_command : String → Bool → String
logger_command command shell = if shell then "shell " <> command else command

module _ (T : Threads) where
  pub record AdbLogger : Type 0 where
    pub world : T.State
    pub command : String
    pub log_filename : String
    pub adb_prefix : String
    pub append_after_interrupt : Bool
    pub thread : Option T.Handle

  abbrev pub asks : {A : Type 0} → (T.State → A × T.State) → Act AdbLogger A
  asks f l = let (a, world) = f l.world in (ok a, record l { world = world })

  abbrev pub tells : (T.State → T.State) → Act AdbLogger (Unit {0})
  tells f = modify λ l. record l { world = f l.world }

  abbrev pub alive : Option T.Handle → Act AdbLogger Bool
  alive none = pure false
  alive (some h) = asks (T.is_alive h)

  unfoldable pub is_thread_running : Act AdbLogger Bool
  is_thread_running = gets (λ l. l.thread) >>= alive

  abbrev pub dead : Option T.Handle → Act AdbLogger Bool
  dead none = pure false
  dead (some h) = asks (T.is_alive h) >>= λ running. pure (not running)

  unfoldable pub is_thread_stopped : Act AdbLogger Bool
  is_thread_stopped = gets (λ l. l.thread) >>= dead

  abbrev pub spawned : Act AdbLogger T.Handle
  spawned l =
      let (h, world) =
        T.spawn l.command l.adb_prefix l.log_filename l.append_after_interrupt l.world in
      (ok h, record l { world = world; thread = some h })

  unfoldable pub start : Option ℕ → Act AdbLogger Bool
  unfolding is_thread_running
  start timeout = do
    running ← is_thread_running
    if running then pure false else (spawned >>= λ h. asks (T.wait_for_logging_start h timeout))

  abbrev pub started : Option ℕ → Option T.Handle → Act AdbLogger Bool
  started timeout none = pure false
  started timeout (some h) = asks (T.wait_for_logging_start h timeout)

  unfoldable pub wait_for_thread_logging_start : Option ℕ → Act AdbLogger Bool
  wait_for_thread_logging_start timeout = gets (λ l. l.thread) >>= started timeout

  abbrev pub end_thread : Option T.Handle → Act AdbLogger (Unit {0})
  end_thread none = pure tt
  end_thread (some h) = tells (T.stop_logging h) >>= λ _. tells (T.join h)

  unfoldable pub stop : Act AdbLogger (Unit {0})
  unfolding is_thread_running
  stop = do
    running ← is_thread_running
    if running then (gets (λ l. l.thread) >>= end_thread) else pure tt

  abbrev pub removed : Option Error → Act AdbLogger (Unit {0})
  removed none = pure tt
  removed (some e) = raise e

  unfoldable pub remove_each : List String → Act AdbLogger (Unit {0})
  remove_each [] = pure tt
  remove_each (log_file ∷ files) =
      try (asks (T.remove log_file) >>= removed) is_os_error (λ _. pure tt) >>= λ _.
      remove_each files

  abbrev pub collected : Option T.Handle → Act AdbLogger (List String)
  collected none = pure []
  collected (some h) = gets λ l. T.get_collected_file_paths h l.world

  unfoldable pub clean : Act AdbLogger (Unit {0})
  unfolding is_thread_stopped remove_each
  clean = do
    stopped ← is_thread_stopped
    if stopped then (gets (λ l. l.thread) >>= collected >>= remove_each) else pure tt

  -- `DeviceLoggerViaAdb`: its `AdbLogger`, and `__enter__` and `__exit__`. `under` joins two paths.
  abbrev pub device_prefix : Option String → String
  device_prefix none = "adb "
  device_prefix (some adb_id) =
      if str_eq adb_id "" then "adb " else "adb " <> ("-s " <> (adb_id <> " "))

  abbrev pub first_part : List String → String
  first_part [] = ""
  first_part (word ∷ words) = word

  unfoldable pub device_logger :
      (String → String → String) → Option String → String → String → Bool → T.State → AdbLogger
  unfolding split_on
  device_logger under adb_id command test_log_dir shell world = record {
    world = world;
    command = logger_command command shell;
    log_filename = under test_log_dir (first_part (split_on 32 command) <> ".log");
    adb_prefix = device_prefix adb_id;
    append_after_interrupt = true;
    thread = none;
  }

  unfoldable pub enter : Act AdbLogger (Unit {0})
  unfolding start
  enter = start (some 60000) >>= λ running. pure tt

  unfoldable pub exit : Act AdbLogger (Unit {0})
  unfolding stop
  exit = stop

  -- As documented: a thread that was joined is not alive, and one that is not alive stays so.
  pub record IsJoined : Type 0 where
    pub ended : (h : T.Handle) (s : T.State) → (T.is_alive h (T.join h s)).0 ≡ false
    pub stays :
        (h : T.Handle) (s : T.State)
        → (T.is_alive h s).0 ≡ false
        → (T.is_alive h (T.is_alive h s).1).0 ≡ false

  stopped_with :
      (J : IsJoined) (thread : Option T.Handle) (l : AdbLogger)
      → (is_thread_running (stop (record l { thread = thread })).1).0 ≡ ok false
  unfolding stop is_thread_running
  stopped_with J none l = refl
  stopped_with J (some h) l = elim (Bool-cases (T.is_alive h l.world).0) [
    | inl running ↦ rw running (ap ok (J.ended h _))
    | inr not ↦ rw not (ap ok (J.stays h l.world not))
  ]

  -- A logger that was stopped is not running, whether it was running before or not.
  pub stop-Stopped : IsJoined → (l : AdbLogger) → (is_thread_running (stop l).1).0 ≡ ok false
  stop-Stopped J l = stopped_with J l.thread l
