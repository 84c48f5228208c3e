-- ===== src/Adb/Wait.antt =====
-- `Adb.wait_for_state`, `wait_for_boot_complete`, `wait_for_log` and `wait_for_desktop`: polling
-- against a deadline on the monotonic clock.
pub mod Ends
pub mod Results
use coppercomm.Prelude.{
  ℕ, ◌+◌, String, ◌<>◌, Bool, true, false, Option, none, some, if◌then◌else◌, str_eq, occurs_in,
  strip, truthy, Error, command_failed, value_error, exception, Act, Result, ok, raised, pure,
  raise, lift, try, ◌>>=◌, ◌>>◌,
}
use coppercomm.Host.{Host}
use coppercomm.Loops.{while_before}
use coppercomm.LocalConsole.{line}
use coppercomm.Adb.{
  DeviceState, unauthorized, same_state, Session, now, sleep, shell, adb_defaults, unchecked,
}
use coppercomm.Adb.State.{get_state, device_state_of}
use coppercomm.Adb.Server.{restart_server, is_command_failed}

-- The `state` argument: a `DeviceState`, or the text that is the value of one.
pub data StateArgument : Type 0 where
  member : DeviceState → StateArgument
  value : String → StateArgument

-- `DeviceState(state)`
unfoldable pub to_state : StateArgument → Result DeviceState
to_state (member s) = ok s
to_state (value v) = device_state_of v

-- `contextlib.suppress(CommandFailedError, ValueError)`
unfoldable pub is_suppressed : Error → Bool
is_suppressed command_failed = true
is_suppressed value_error = true
is_suppressed _ = false

unfoldable pub logcat_command : String → String → Option String → String
logcat_command log_buffer log_tag none = "logcat -b " <> log_buffer <> " -d | grep " <> log_tag
logcat_command log_buffer log_tag (some log_text) =
    "logcat -b " <> log_buffer <> " -d | grep " <> log_tag <> " | grep '\"" <> log_text <> "\"'"

module _ (H : Host) where
  -- A waiting loop goes on after `time.sleep(interval)`, unless the round returned.
  abbrev pub resume : ℕ → Option (Unit {0}) → Act (Session H) (Option (Unit {0}))
  resume interval (some a) = pure (some a)
  resume interval none = sleep H interval >>= λ _. pure none

  -- The exception that follows a loop which the clock ended.
  abbrev pub or_raise : Error → Option (Unit {0}) → Act (Session H) (Unit {0})
  or_raise e (some a) = pure a
  or_raise e none = raise e

module _ (H : Host) (fuel : ℕ) where
  -- `monotonic_timeout = time.monotonic() + timeout; while time.monotonic() < ...: round`.
  abbrev pub poll : ℕ → Act (Session H) (Option (Unit {0})) → Act (Session H) (Option (Unit {0}))
  poll timeout round = now H >>= λ t. while_before fuel (now H) (t + timeout) round

  -- What a round of `wait_for_state` does with the state that it has read.
  unfoldable pub react : DeviceState → DeviceState → Act (Session H) (Option (Unit {0}))
  unfolding same_state
  react expected current =
      if same_state current unauthorized
      then (restart_server H fuel >>= λ _. pure none)
      else if same_state current expected
      then pure (some tt)
      else pure none

  unfoldable pub look_for_state : DeviceState → Act (Session H) (Option (Unit {0}))
  unfolding react is_suppressed
  look_for_state expected = try (get_state H >>= react expected) is_suppressed (λ _. pure none)

  unfoldable pub wait_for_state : StateArgument → ℕ → ℕ → Act (Session H) (Unit {0})
  unfolding to_state look_for_state
  wait_for_state state timeout polling_interval = do
    expected ← lift (to_state state)
    found ← poll timeout (look_for_state expected >>= resume H polling_interval)
    or_raise H exception found

  -- What a round of `wait_for_boot_complete` does with the property that it has read.
  unfoldable pub react_to_boot : String → Act (Session H) (Option (Unit {0}))
  react_to_boot output =
      if occurs_in "device unauthorized" output
      then (restart_server H fuel >>= λ _. pure none)
      else if str_eq output "1"
      then pure (some tt)
      else pure none

  unfoldable pub look_for_boot : Act (Session H) (Option (Unit {0}))
  unfolding react_to_boot is_command_failed shell strip
  look_for_boot =
      try
        (do
          output ← shell H (line "getprop sys.boot_completed") (unchecked 30000)
          react_to_boot (strip output))
        is_command_failed (λ _. pure none)

  unfoldable pub wait_for_boot_complete : ℕ → Act (Session H) (Unit {0})
  unfolding look_for_boot
  wait_for_boot_complete timeout = do
    booted ← poll timeout (look_for_boot >>= resume H 2000)
    or_raise H exception booted

  unfoldable pub look_for_log : String → Act (Session H) (Option (Unit {0}))
  unfolding shell
  look_for_log command = do
    output ← shell H (line command) (unchecked 30000)
    if truthy output then pure (some tt) else pure none

  unfoldable pub wait_for_log : String → String → Option String → ℕ → Act (Session H) (Unit {0})
  unfolding logcat_command look_for_log
  wait_for_log log_buffer log_tag log_text timeout = do
    seen ←
        poll timeout (look_for_log (logcat_command log_buffer log_tag log_text) >>= resume H 2000)
    or_raise H exception seen

  -- The source passes on a limit of 60 s, whatever the caller's is.
  unfoldable pub wait_for_desktop : ℕ → Act (Session H) (Unit {0})
  unfolding wait_for_log
  wait_for_desktop timeout =
      wait_for_log "system" "ActivityManager" (some "Finished processing BOOT_COMPLETED for u10")
        60000
