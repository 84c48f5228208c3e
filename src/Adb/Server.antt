-- ===== src/Adb/Server.antt =====
-- `Adb.kill_server`, `start_server` and `restart_server`. `log_output` only decides what is logged.
pub mod Ends
use coppercomm.Prelude.{
  ℕ, zero, suc, String, List, [], ◌∷◌, Bool, true, false, if◌then◌else◌, ◌==◌, occurs_in, ℤ, pos,
  int_eq, Error, command_failed, called_process_error, os_error, timeout_expired, Act, Result, ok,
  raised, pure, raise, try, cut_off, ◌>>=◌, ◌>>◌,
}
use coppercomm.Host.{Host, Completion, completed, expired, unstartable}
use coppercomm.LocalConsole.{line}
use coppercomm.Adb.{Session, on_host, sleep, check_output, adb_defaults}

-- `except CommandFailedError`
unfoldable pub is_command_failed : Error → Bool
is_command_failed command_failed = true
is_command_failed _ = false

module _ (H : Host) where
  unfoldable pub kill_server : Act (Session H) String
  unfolding check_output
  kill_server = check_output H false (line "kill-server") adb_defaults

  -- One more attempt after a `CommandFailedError`.
  unfoldable pub start_server : Act (Session H) String
  unfolding check_output is_command_failed
  start_server =
      let start = check_output H false (line "start-server") adb_defaults in
      try start is_command_failed (λ _. sleep H 2000 >>= λ _. start)

  -- `subprocess.check_output(["ss", "-tl"])`
  abbrev pub captured : Completion × H.State → Result String × H.State
  captured (completed output code, s) =
      (if int_eq code (pos 0) then ok output else raised called_process_error, s)
  captured (expired, s) = (raised timeout_expired, s)
  captured (unstartable, s) = (raised os_error, s)

  unfoldable pub list_sockets : Act (Session H) String
  list_sockets = on_host H (λ s. captured (H.capture ("ss" ∷ "-tl" ∷ []) s))

  -- `while b"127.0.0.1:5037" in res:`, which the source does not bound.
  unfoldable pub await_port : ℕ → String → Act (Session H) (Unit {0})
  unfolding list_sockets
  await_port zero sockets = cut_off
  await_port (suc fuel) sockets = elim (occurs_in "127.0.0.1:5037" sockets) [
    | true ↦ sleep H 1 >>= λ _. list_sockets >>= λ next. await_port fuel next
    | false ↦ pure tt
  ]

  unfoldable pub restart_server : ℕ → Act (Session H) (Unit {0})
  unfolding kill_server list_sockets await_port start_server
  restart_server fuel = do
    kill_server
    sockets ← list_sockets
    await_port fuel sockets
    start_server
    pure tt
