-- ===== src/Ssh/Ends/Mutex.antt =====
-- A call on a connection whose lock is free comes to an end and leaves the lock free.
use coppercomm.Prelude.{
  ℕ, zero, suc, ◌≤◌, ◌<◌, ◌≡◌, refl, ◌≢◌, arith, String, Bool, true, false, Option, some,
  if◌then◌else◌, Error, ssh_connection_error, Act, Result, ok, raised, no_fuel, pure, raise, modify,
  try, handle, continue, ◌>>=◌,
}
use coppercomm.Loops.Total.{Terminates, Terminates-bind}
use coppercomm.Ssh.{
  Client, Connection, with_mutex, without_mutex, connected, wait_for_connection, is_connect_error,
  connect, disconnect, is_ssh_exception,
}
use coppercomm.Ssh.Command.{
  create_and_setup_channel, is_channel_error, collect_status, execute_once, attempts, execute_pty,
}
use coppercomm.Ssh.Ends.Client.{
  IsTimely, outcome-Terminates, connected-Terminates, close-Terminates,
  wait_for_connection-Terminates,
}
use coppercomm.Ssh.Ends.Channel.{
  keep_alive-Terminates, open_on-Terminates, IsWithin, collect_status-Terminates,
}

module _ (C : Client) where
  abbrev pub connection_time : Connection C → ℕ
  connection_time c = C.time c.client

  -- A call that began at the time `t` has ended, with the lock free.
  abbrev pub Freed : {A : Type 0} → ℕ → Result A × Connection C → Type 0
  Freed t (r, c) = (r ≢ no_fuel) × (c.held ≡ false) × (t ≤ connection_time c)

  -- From a state in which the lock is free, the call comes to an end and leaves the lock free.
  pub record Frees {A : Type 0} (m : Act (Connection C) A) : Type 0 where
    pub at : (c : Connection C) → c.held ≡ false → Freed (connection_time c) (m c)

  module _ {A : Type 0} where
    Frees-pure : (a : A) → Frees (pure a)
    Frees-pure a = record { at = λ c free. (λ e. cc, free, omega arith) }

    pub Frees-raise : (e : Error) → Frees {A = A} (raise e)
    Frees-raise e = record { at = λ c free. (λ x. cc, free, omega arith) }

    pub Frees-if :
        (b : Bool) (m n : Act (Connection C) A) → Frees m → Frees n → Frees (if b then m else n)
    Frees-if true m n fm fn = fm
    Frees-if false m n fm fn = fn

    Frees-with_mutex : (m : Act C.State A) → Terminates C.time m → Frees (with_mutex C m)
    Frees-with_mutex m tm = record {
      at = λ c free. rw free (tm.ends c.client, refl, tm.later c.client);
    }

    Frees-without_mutex : (m : Act C.State A) → Terminates C.time m → Frees (without_mutex C m)
    Frees-without_mutex m tm = record { at = λ c free. (tm.ends c.client, free, tm.later c.client) }

    handle-Freed :
        (caught : Error → Bool) (h : Error → Act (Connection C) A) (t : ℕ) (r : Result A)
        (c : Connection C)
        → ((e : Error) → Frees (h e))
        → Freed t (r, c)
        → Freed t (handle caught h (r, c))
    handle-Freed caught h t (ok a) c fh freed = freed
    handle-Freed caught h t (raised e) c fh freed = caught_or_not (caught e)
      where
        caught_or_not : (b : Bool) → Freed t (if b then h e c else (raised e, c))
        caught_or_not true =
            let (ends, free, later) = (fh e).at c freed.1 in (ends, free, omega (arith, freed.2))
        caught_or_not false = freed
    handle-Freed caught h t no_fuel c fh freed = absurd (freed.0 refl)

    Frees-try :
        (m : Act (Connection C) A) (caught : Error → Bool) (h : Error → Act (Connection C) A)
        → Frees m
        → ((e : Error) → Frees (h e))
        → Frees (try m caught h)
    Frees-try m caught h fm fh = record {
      at = λ c free. handle-Freed caught h (connection_time c) (m c).0 (m c).1 fh (fm.at c free);
    }

  module _ {A B : Type 0} where
    continue-Freed :
        (f : A → Act (Connection C) B) (t : ℕ) (r : Result A) (c : Connection C)
        → ((a : A) → Frees (f a))
        → Freed t (r, c)
        → Freed t (continue f (r, c))
    continue-Freed f t (ok a) c ff freed =
        let (ends, free, later) = (ff a).at c freed.1 in (ends, free, omega (arith, freed.2))
    continue-Freed f t (raised e) c ff freed = (λ x. cc, freed.1, freed.2)
    continue-Freed f t no_fuel c ff freed = absurd (freed.0 refl)

    pub Frees-bind :
        (m : Act (Connection C) A) (f : A → Act (Connection C) B)
        → Frees m
        → ((a : A) → Frees (f a))
        → Frees (m >>= f)
    Frees-bind m f fm ff = record {
      at = λ c free. continue-Freed f (connection_time c) (m c).0 (m c).1 ff (fm.at c free);
    }

module _ (C : Client) (L : IsTimely C) where
  disconnect-Frees : Frees C (disconnect C)
  unfolding disconnect
  disconnect-Frees =
      Frees-bind C (without_mutex C (connected C)) _
        (Frees-without_mutex C (connected C) (connected-Terminates C L))
        λ b.
          Frees-if C b _ _ (Frees-without_mutex C (modify C.close) (close-Terminates C L))
            (Frees-pure C tt)

  pub connect-Frees :
      (fuel timeout tcp_timeout : ℕ) (keepalive_interval : Option ℕ) (retry_delay : ℕ)
      → timeout < fuel
      → Frees C (connect C fuel timeout tcp_timeout keepalive_interval retry_delay)
  unfolding connect
  connect-Frees fuel timeout tcp_timeout keepalive_interval retry_delay enough =
      Frees-bind C (without_mutex C (connected C)) _
        (Frees-without_mutex C (connected C) (connected-Terminates C L))
        λ b. Frees-if C b _ _ (Frees-pure C tt) (
          Frees-try C _ is_connect_error _
            (Frees-with_mutex C _ (
              Terminates-bind (wait_for_connection C fuel timeout retry_delay tcp_timeout) _
                (wait_for_connection-Terminates C L fuel timeout retry_delay tcp_timeout enough)
                λ _. keep_alive-Terminates C L keepalive_interval))
            λ _. Frees-raise C ssh_connection_error)

  create_and_setup_channel-Frees :
      (command_exec_timeout : Option ℕ) (open_channel_timeout : ℕ)
      → Frees C (create_and_setup_channel C command_exec_timeout open_channel_timeout)
  unfolding create_and_setup_channel
  create_and_setup_channel-Frees command_exec_timeout open_channel_timeout =
      Frees-with_mutex C _ (open_on-Terminates C L open_channel_timeout command_exec_timeout)

  pub execute_once-Frees :
      (fuel : ℕ) (command : String) (handle_return_code : Bool) (command_exec_timeout : Option ℕ)
      (open_channel_timeout : ℕ)
      → IsWithin C L fuel command_exec_timeout
      → Frees C
          (execute_once C fuel command handle_return_code command_exec_timeout open_channel_timeout)
  unfolding execute_once
  execute_once-Frees fuel command handle_return_code command_exec_timeout open_channel_timeout
        enough =
      Frees-bind C _ _
        (Frees-try C _ is_channel_error _
          (Frees-bind C (create_and_setup_channel C command_exec_timeout open_channel_timeout) _
            (create_and_setup_channel-Frees command_exec_timeout open_channel_timeout)
            λ _.
              Frees-without_mutex C _
                (outcome-Terminates C L (C.exec_command command) (L.time-exec_command command)))
          λ _. Frees-raise C ssh_connection_error)
        λ _.
          Frees-without_mutex C (collect_status C fuel handle_return_code command_exec_timeout)
            (collect_status-Terminates C L fuel handle_return_code command_exec_timeout enough)

  pub execute_pty-Frees : (command : String) → Frees C (execute_pty C command)
  unfolding execute_pty
  execute_pty-Frees command =
      Frees-try C _ is_channel_error _
        (Frees-bind C (create_and_setup_channel C (some 10000) 10000) _
          (create_and_setup_channel-Frees (some 10000) 10000)
          λ _.
            Frees-bind C _ _
              (Frees-without_mutex C _ (outcome-Terminates C L C.get_pty L.time-get_pty))
              λ _.
                Frees-without_mutex C _
                  (outcome-Terminates C L (C.exec_command command) (L.time-exec_command command)))
        λ _. Frees-raise C ssh_connection_error

  pub attempts-Frees :
      {A : Type 0} (tries : ℕ) (last_e : Error) (call : Act (Connection C) A)
      → Frees C call
      → Frees C (attempts C tries last_e call)
  unfolding attempts
  attempts-Frees zero last_e call fc = Frees-raise C last_e
  attempts-Frees (suc tries) last_e call fc =
      Frees-try C call is_ssh_exception _ fc
        λ e. Frees-bind C (disconnect C) _ disconnect-Frees λ _. attempts-Frees tries e call fc
