-- ===== src/Ssh.antt =====
-- src/coppercomm/ssh_connection/ssh_connection.py, class `SSHConnection`: the connection. The client
-- of paramiko is a parameter. Times are whole milliseconds.
pub mod Command
pub mod Accepted
pub mod Ends
pub mod Copy
pub mod Fetch
use coppercomm.Prelude.{
  ℕ, ◌+◌, ◌≤◌, ◌<◌, ◌≡◌, String, Bool, true, false, not, Option, none, some, if◌then◌else◌, Error,
  os_error, authentication_exception, no_valid_connections, eof_error, ssh_exception,
  ssh_connection_error, ssh_command_failed, ssh_timeout_reached, name_error, ℤ, Act, Result, ok,
  raised, no_fuel, pure, raise, modify, try, ◌>>=◌, ◌>>◌, cut_off,
}
use coppercomm.Loops.{while_before}

-- What a call of the client raises, if anything: `none` when it returns.
abbrev pub Raises : Type 0
Raises = Option Error

-- paramiko's `SSHClient`, its transport, and one channel. What another host does to the connection
-- shows in the states that the calls leave.
pub record Client : Type 1 where
  pub State : Type 0
  -- `SSHClient.connect(..., timeout=...)`
  pub connect : ℕ → State → Raises × State
  -- `get_transport()`, and `is_active()` of what it gives
  pub transport : State → Option Bool × State
  pub set_keepalive : ℕ → State → State
  pub close : State → State
  -- `open_channel(kind="session", timeout=...)`, `settimeout`, `makefile` and `makefile_stderr`
  pub open_channel : ℕ → Option ℕ → State → Raises × State
  pub get_pty : State → Raises × State
  pub exec_command : String → State → Raises × State
  pub exit_status_ready : State → Bool × State
  pub recv_exit_status : State → ℤ × State
  pub clock : State → ℕ × State
  pub sleep : ℕ → State → State
  -- the true time, which the clock shows
  pub time : State → ℕ

-- A call of the client as a Python call.
abbrev pub outcome : {S : Type 0} → Raises × S → Result (Unit {0}) × S
outcome (none, s) = (ok tt, s)
outcome (some e, s) = (raised e, s)

-- `except (NoValidConnectionsError, AuthenticationException, OSError, socket.timeout)`; a
-- `socket.timeout` is an `OSError`.
unfoldable pub is_connect_error : Error → Bool
is_connect_error no_valid_connections = true
is_connect_error authentication_exception = true
is_connect_error os_error = true
is_connect_error _ = false

-- `except SSHException`, with paramiko's and the module's own subclasses.
unfoldable pub is_ssh_exception : Error → Bool
is_ssh_exception ssh_exception = true
is_ssh_exception authentication_exception = true
is_ssh_exception ssh_connection_error = true
is_ssh_exception ssh_command_failed = true
is_ssh_exception ssh_timeout_reached = true
is_ssh_exception _ = false

module _ (C : Client) where
  abbrev pub client_now : Act C.State ℕ
  client_now s = let (t, s') = C.clock s in (ok t, s')

  abbrev pub client_sleep : ℕ → Act C.State (Unit {0})
  client_sleep d = modify (C.sleep d)

  abbrev pub is_active : Option Bool × C.State → Result Bool × C.State
  is_active (none, s) = (ok false, s)
  is_active (some active, s) = (ok active, s)

  -- `SSHConnection.connected`
  unfoldable pub connected : Act C.State Bool
  connected s = is_active (C.transport s)

  -- The loop of `_wait_for_connection` with its variable `last_e`, which is unbound at first: a
  -- `NameError`, if it is read then.
  pub record Waiting : Type 0 where
    pub client : C.State
    pub last_e : Error

  abbrev pub on_client : {A : Type 0} → Act C.State A → Act Waiting A
  on_client m w = let (r, s) = m w.client in (r, record w { client = s })

  unfoldable pub try_to_connect : ℕ → ℕ → Act Waiting (Option (Unit {0}))
  unfolding connected is_connect_error
  try_to_connect retry_delay tcp_timeout =
      try
        (on_client do
          λ s. outcome (C.connect tcp_timeout s)
          is_connected ← connected
          if is_connected then pure (some tt) else pure none)
        is_connect_error
        (λ err. on_client (client_sleep retry_delay) >>= λ _.
          modify (λ w. record w { last_e = err }) >>= λ _. pure none)

  abbrev pub or_raise_last : Result (Option (Unit {0})) × Waiting → Result (Unit {0}) × C.State
  or_raise_last (ok (some a), w) = (ok a, w.client)
  or_raise_last (ok none, w) = (raised w.last_e, w.client)
  or_raise_last (raised e, w) = (raised e, w.client)
  or_raise_last (no_fuel, w) = (no_fuel, w.client)

  unfoldable pub wait_for_connection : ℕ → ℕ → ℕ → ℕ → Act C.State (Unit {0})
  unfolding try_to_connect
  wait_for_connection fuel timeout retry_delay tcp_timeout s = or_raise_last (
      (on_client client_now >>= λ t.
      while_before fuel (on_client client_now) (t + timeout)
        (try_to_connect retry_delay tcp_timeout))
        (record { client = s; last_e = name_error }))

  -- The connection, and whether the lock `_ssh_mutex` is held. The lock is one for all connections:
  -- what is modelled is a thread of its own, which never gets a lock back that it holds already.
  pub record Connection : Type 0 where
    pub client : C.State
    pub held : Bool

  abbrev pub without_mutex : {A : Type 0} → Act C.State A → Act Connection A
  without_mutex m c = let (r, s) = m c.client in (r, record c { client = s })

  -- `with SSHConnection._ssh_mutex:`
  abbrev pub with_mutex : {A : Type 0} → Act C.State A → Act Connection A
  with_mutex m c =
      if c.held
      then (no_fuel, c)
      else let (r, s) = m c.client in (r, record c { client = s; held = false })

  -- `transport.set_keepalive(...)` for an interval that is not `None`.
  abbrev pub on_transport : ℕ → Option Bool × C.State → Result (Unit {0}) × C.State
  on_transport interval (none, s) = (raised os_error, s)
  on_transport interval (some active, s) = (ok tt, C.set_keepalive interval s)

  unfoldable pub keep_alive : Option ℕ → Act C.State (Unit {0})
  keep_alive none = pure tt
  keep_alive (some interval) = λ s. on_transport interval (C.transport s)

  unfoldable pub connect : ℕ → ℕ → ℕ → Option ℕ → ℕ → Act Connection (Unit {0})
  unfolding connected wait_for_connection keep_alive is_connect_error
  connect fuel timeout tcp_timeout keepalive_interval retry_delay = do
    is_connected ← without_mutex connected
    if is_connected
        then pure tt
        else try
            (with_mutex (
              wait_for_connection fuel timeout retry_delay tcp_timeout >>= λ _.
              keep_alive keepalive_interval))
            is_connect_error (λ _. raise ssh_connection_error)

  unfoldable pub disconnect : Act Connection (Unit {0})
  unfolding connected
  disconnect = do
    is_connected ← without_mutex connected
    if is_connected then without_mutex (modify C.close) else pure tt

  -- `__del__`
  unfoldable pub finalize : Act Connection (Unit {0})
  unfolding connected
  finalize = do
    is_connected ← without_mutex connected
    if is_connected then without_mutex (modify C.close) else pure tt
