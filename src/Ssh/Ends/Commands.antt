-- ===== src/Ssh/Ends/Commands.antt =====
-- `SSHConnection.execute_cmd` and `execute_cmd_pty` come to an end, with the lock free.
use coppercomm.Prelude.{
  ℕ, ◌<◌, ◌≡◌, ltb, String, Bool, false, Option, some, value_error, name_error,
}
use coppercomm.Ssh.{Client, Connection, connect}
use coppercomm.Ssh.Command.{execute_cmd, execute_cmd_pty}
use coppercomm.Ssh.Ends.Client.{IsTimely}
use coppercomm.Ssh.Ends.Channel.{IsWithin}
use coppercomm.Ssh.Ends.Mutex.{
  connection_time, Freed, Frees, Frees-raise, Frees-if, Frees-bind, connect-Frees,
  execute_once-Frees, execute_pty-Frees, attempts-Frees,
}

module _ (C : Client) (L : IsTimely C) where
  execute_cmd-Frees :
      (fuel : ℕ) (command : String) (handle_return_code : Bool) (command_exec_timeout : Option ℕ)
      (tries open_channel_timeout connect_timeout : ℕ)
      → connect_timeout < fuel
      → IsWithin C L fuel command_exec_timeout
      → Frees C (
          execute_cmd C fuel command handle_return_code command_exec_timeout tries
            open_channel_timeout connect_timeout)
  unfolding execute_cmd
  execute_cmd-Frees fuel command handle_return_code command_exec_timeout tries open_channel_timeout
        connect_timeout enough within =
      Frees-if C (ltb tries 1) _ _ (Frees-raise C value_error) (
        attempts-Frees C L tries name_error _ (
          Frees-bind C (connect C fuel connect_timeout 5000 (some 5) 2000) _
            (connect-Frees C L fuel connect_timeout 5000 (some 5) 2000 enough)
            λ _.
              execute_once-Frees C L fuel command handle_return_code command_exec_timeout
                open_channel_timeout within))

  -- From a state in which the lock of the connections is free, `execute_cmd` ends, by a return or
  -- by an exception, and leaves the lock free, however the calls of the client end, if the fuel
  -- exceeds the limits of the connection and of the command in milliseconds, the clock shows the
  -- time, time does not run backwards, sleeps last as long as asked, and an attempt to connect
  -- takes time.
  pub execute_cmd-Freed :
      (fuel : ℕ) (command : String) (handle_return_code : Bool) (command_exec_timeout : Option ℕ)
      (tries open_channel_timeout connect_timeout : ℕ) (c : Connection C)
      → connect_timeout < fuel
      → IsWithin C L fuel command_exec_timeout
      → c.held ≡ false
      → Freed C (connection_time C c) (
          execute_cmd C fuel command handle_return_code command_exec_timeout tries
            open_channel_timeout connect_timeout c)
  execute_cmd-Freed fuel command handle_return_code command_exec_timeout tries open_channel_timeout
        connect_timeout c enough within free =
      (execute_cmd-Frees fuel command handle_return_code command_exec_timeout tries
          open_channel_timeout connect_timeout enough within).at
        c free

  -- From a state in which the lock is free, `execute_cmd_pty` ends and leaves it free.
  pub execute_cmd_pty-Frees :
      (fuel : ℕ) (command : String) (tries connect_timeout : ℕ)
      → connect_timeout < fuel
      → Frees C (execute_cmd_pty C fuel command tries connect_timeout)
  unfolding execute_cmd_pty
  execute_cmd_pty-Frees fuel command tries connect_timeout enough =
      Frees-if C (ltb tries 1) _ _ (Frees-raise C value_error) (
        attempts-Frees C L tries name_error _ (
          Frees-bind C (connect C fuel connect_timeout 5000 (some 5) 2000) _
            (connect-Frees C L fuel connect_timeout 5000 (some 5) 2000 enough)
            λ _. execute_pty-Frees C L command))
