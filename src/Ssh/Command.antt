-- ===== src/Ssh/Command.antt =====
-- `SSHConnection.execute_cmd` and `execute_cmd_pty`: a command over the connection. The streams of
-- the channel are left out of the results, the exit code is kept.
use coppercomm.Prelude.{
  ℕ, zero, suc, ◌+◌, ltb, String, Bool, true, false, ◌&&◌, not, Option, none, some, if◌then◌else◌,
  ℤ, pos, int_eq, Error, os_error, no_valid_connections, eof_error, ssh_connection_error,
  ssh_command_failed, ssh_timeout_reached, value_error, name_error, Act, Result, ok, raised, pure,
  raise, try, ◌>>=◌,
}
use coppercomm.Loops.{while_before}
use coppercomm.Ssh.{
  Client, Connection, outcome, client_now, client_sleep, with_mutex, without_mutex, connect,
  disconnect, is_ssh_exception,
}

-- `except (NoValidConnectionsError, OSError, socket.timeout, EOFError)`
unfoldable pub is_channel_error : Error → Bool
is_channel_error no_valid_connections = true
is_channel_error os_error = true
is_channel_error eof_error = true
is_channel_error _ = false

module _ (C : Client) where
  abbrev pub open_on : ℕ → Option ℕ → Option Bool × C.State → Result (Unit {0}) × C.State
  open_on open_channel_timeout command_exec_timeout (none, s) = (raised os_error, s)
  open_on open_channel_timeout command_exec_timeout (some active, s) =
      outcome (C.open_channel open_channel_timeout command_exec_timeout s)

  unfoldable pub create_and_setup_channel : Option ℕ → ℕ → Act (Connection C) (Unit {0})
  create_and_setup_channel command_exec_timeout open_channel_timeout =
      with_mutex C λ s. open_on open_channel_timeout command_exec_timeout (C.transport s)

  -- A round of `_is_exit_status_ready`.
  unfoldable pub look_for_status : Act C.State (Option (Unit {0}))
  look_for_status = (λ s. let (ready, s') = C.exit_status_ready s in (ok ready, s')) >>= λ ready.
      if ready then pure (some tt) else (client_sleep C 50 >>= λ _. pure none)

  abbrev pub is_found : Option (Unit {0}) → Act C.State Bool
  is_found none = pure false
  is_found (some a) = pure true

  unfoldable pub is_exit_status_ready : ℕ → Option ℕ → Act C.State Bool
  unfolding look_for_status
  is_exit_status_ready fuel none = pure false
  is_exit_status_ready fuel (some timeout) =
      client_now C
      >>= (λ t. while_before fuel (client_now C) (t + timeout) look_for_status)
      >>= is_found

  abbrev pub exit_status : Act C.State ℤ
  exit_status s = let (code, s') = C.recv_exit_status s in (ok code, s')

  -- What is done with the exit code.
  abbrev pub check_status : Bool → ℤ → Act C.State (Option ℤ)
  check_status handle_return_code exitcode =
      if not (int_eq exitcode (pos 0)) && handle_return_code
      then raise ssh_command_failed
      else pure (some exitcode)

  abbrev pub without_status : Option ℕ → Act C.State (Option ℤ)
  without_status none = pure none
  without_status (some timeout) = raise ssh_timeout_reached

  unfoldable pub collect_status : ℕ → Bool → Option ℕ → Act C.State (Option ℤ)
  unfolding is_exit_status_ready
  collect_status fuel handle_return_code command_exec_timeout =
      is_exit_status_ready fuel command_exec_timeout >>= λ ready.
      if ready
      then (exit_status >>= check_status handle_return_code)
      else without_status command_exec_timeout

  -- `_execute_cmd`
  unfoldable pub execute_once : ℕ → String → Bool → Option ℕ → ℕ → Act (Connection C) (Option ℤ)
  unfolding create_and_setup_channel is_channel_error collect_status
  execute_once fuel command handle_return_code command_exec_timeout open_channel_timeout =
      try
        (create_and_setup_channel command_exec_timeout open_channel_timeout >>= λ _.
          without_mutex C (λ s. outcome (C.exec_command command s)))
        is_channel_error (λ _. raise ssh_connection_error)
      >>= λ _. without_mutex C (collect_status fuel handle_return_code command_exec_timeout)

  -- The attempts; `last_e` is what the attempt before raised.
  unfoldable pub attempts : {A : Type 0} → ℕ → Error → Act (Connection C) A → Act (Connection C) A
  unfolding is_ssh_exception disconnect
  attempts zero last_e call = raise last_e
  attempts (suc tries) last_e call =
      try call is_ssh_exception (λ e. disconnect C >>= λ _. attempts tries e call)

  unfoldable pub execute_cmd :
      ℕ → String → Bool → Option ℕ → ℕ → ℕ → ℕ → Act (Connection C) (Option ℤ)
  unfolding connect execute_once attempts
  execute_cmd fuel command handle_return_code command_exec_timeout tries open_channel_timeout
        connect_timeout =
      if ltb tries 1
      then raise value_error
      else attempts tries name_error (
          connect C fuel connect_timeout 5000 (some 5) 2000 >>= λ _.
          execute_once fuel command handle_return_code command_exec_timeout open_channel_timeout)

  -- `_execute_cmd_pty`
  unfoldable pub execute_pty : String → Act (Connection C) (Unit {0})
  unfolding create_and_setup_channel is_channel_error
  execute_pty command =
      try
        (create_and_setup_channel (some 10000) 10000 >>= λ _.
          without_mutex C (λ s. outcome (C.get_pty s)) >>= λ _.
          without_mutex C (λ s. outcome (C.exec_command command s)))
        is_channel_error (λ _. raise ssh_connection_error)

  unfoldable pub execute_cmd_pty : ℕ → String → ℕ → ℕ → Act (Connection C) (Unit {0})
  unfolding connect execute_pty attempts
  execute_cmd_pty fuel command tries connect_timeout =
      if ltb tries 1
      then raise value_error
      else attempts tries name_error
          (connect C fuel connect_timeout 5000 (some 5) 2000 >>= λ _. execute_pty command)
