-- ===== src/Ssh/Ends/Client.antt =====
-- The calls that only reach the client: each comes to an end, and time does not run backwards in it.
use coppercomm.Prelude.{
  ℕ, ◌+◌, ◌≤◌, ◌<◌, ◌≡◌, refl, ap, ◌≢◌, arith, String, Bool, Option, none, some, if◌then◌else◌,
  Error, name_error, Act, Result, ok, raised, no_fuel, pure, modify, handle, continue, ◌>>=◌,
}
use coppercomm.Loops.{while_before}
use coppercomm.Loops.Total.{
  Terminates, Terminates-bind, Terminates-if, Terminates-pure, Terminates-wait, Shows, Round,
}
use coppercomm.Ssh.{
  Client, Raises, outcome, client_now, client_sleep, is_active, connected, Waiting, on_client,
  try_to_connect, or_raise_last, wait_for_connection, is_connect_error,
}

-- What the code relies on: a clock shows the time, time does not run backwards, a sleep lasts as
-- long as it was asked to, and an attempt to connect takes time.
pub record IsTimely (C : Client) : Type 0 where
  pub clock_shows : (s : C.State) → (C.clock s).0 ≡ C.time (C.clock s).1
  pub time-clock : (s : C.State) → C.time s ≤ C.time (C.clock s).1
  pub time-sleep : (d : ℕ) (s : C.State) → C.time s + d ≤ C.time (C.sleep d s)
  pub time-connect : (limit : ℕ) (s : C.State) → C.time s < C.time (C.connect limit s).1
  pub time-transport : (s : C.State) → C.time s ≤ C.time (C.transport s).1
  pub time-set_keepalive :
      (interval : ℕ) (s : C.State) → C.time s ≤ C.time (C.set_keepalive interval s)
  pub time-close : (s : C.State) → C.time s ≤ C.time (C.close s)
  pub time-open_channel :
      (a : ℕ) (b : Option ℕ) (s : C.State) → C.time s ≤ C.time (C.open_channel a b s).1
  pub time-get_pty : (s : C.State) → C.time s ≤ C.time (C.get_pty s).1
  pub time-exec_command :
      (command : String) (s : C.State) → C.time s ≤ C.time (C.exec_command command s).1
  pub time-exit_status_ready : (s : C.State) → C.time s ≤ C.time (C.exit_status_ready s).1
  pub time-recv_exit_status : (s : C.State) → C.time s ≤ C.time (C.recv_exit_status s).1

module _ (C : Client) (L : IsTimely C) where
  -- A step that ended at a state no earlier than `t`.
  abbrev pub Ended : {A : Type 0} → ℕ → Result A × C.State → Type 0
  Ended t (r, s) = (r ≢ no_fuel) × (t ≤ C.time s)

  outcome-Ended : (t : ℕ) (r : Raises) (s : C.State) → t ≤ C.time s → Ended t (outcome (r, s))
  outcome-Ended t none s h = (λ e. cc, h)
  outcome-Ended t (some x) s h = (λ e. cc, h)

  pub outcome-Terminates :
      (step : C.State → Raises × C.State)
      → ((s : C.State) → C.time s ≤ C.time (step s).1)
      → Terminates C.time (λ s. outcome (step s))
  outcome-Terminates step later = record {
    ends = λ s. (outcome-Ended (C.time s) (step s).0 (step s).1 (later s)).0;
    later = λ s. (outcome-Ended (C.time s) (step s).0 (step s).1 (later s)).1;
  }

  is_active-Ended :
      (t : ℕ) (r : Option Bool) (s : C.State) → t ≤ C.time s → Ended t (is_active C (r, s))
  is_active-Ended t none s h = (λ e. cc, h)
  is_active-Ended t (some b) s h = (λ e. cc, h)

  pub connected-Terminates : Terminates C.time (connected C)
  unfolding connected
  connected-Terminates = record {
    ends = λ s.
        (is_active-Ended (C.time s) (C.transport s).0 (C.transport s).1 (L.time-transport s)).0;
    later = λ s.
        (is_active-Ended (C.time s) (C.transport s).0 (C.transport s).1 (L.time-transport s)).1;
  }

  pub close-Terminates : Terminates C.time (modify C.close)
  close-Terminates = record { ends = λ s e. cc; later = λ s. L.time-close s }

  client_sleep-Terminates : (d : ℕ) → Terminates C.time (client_sleep C d)
  client_sleep-Terminates d = record {
    ends = λ s e. cc;
    later = λ s. omega (arith, L.time-sleep d s);
  }

  pub client_now-Shows : Shows C.time (client_now C)
  client_now-Shows = record { reads = λ s. ap ok (L.clock_shows s); later = λ s. L.time-clock s }

  -- The time of a loop's local state.
  abbrev waiting_time : Waiting C → ℕ
  waiting_time w = C.time w.client

  on_client-Shows : Shows waiting_time (on_client C (client_now C))
  on_client-Shows = record {
    reads = λ w. ap ok (L.clock_shows w.client);
    later = λ w. L.time-clock w.client;
  }

  -- An attempt to connect, without its handler.
  attempted : ℕ → Act C.State (Option (Unit {0}))
  attempted tcp_timeout = (λ s. outcome (C.connect tcp_timeout s)) >>= λ _.
      connected C >>= λ is_connected. if is_connected then pure (some tt) else pure none

  attempted-Later :
      (tcp_timeout : ℕ) (s : C.State)
      → ((attempted tcp_timeout s).0 ≢ no_fuel) × (C.time s < C.time (attempted tcp_timeout s).1)
  unfolding attempted
  attempted-Later tcp_timeout s =
      go (C.connect tcp_timeout s).0 (C.connect tcp_timeout s).1 (L.time-connect tcp_timeout s)
    where
      rest :
          Terminates C.time
            (connected C >>= λ is_connected. if is_connected then pure (some tt) else pure none)
      rest =
          Terminates-bind (connected C) _ connected-Terminates
            λ b. Terminates-if b _ _ (Terminates-pure (some tt)) (Terminates-pure none)

      go :
          (r : Raises) (s' : C.State)
          → C.time s < C.time s'
          → let x =
              continue
                (λ _. connected C >>= λ is_connected.
                  if is_connected then pure (some tt) else pure none)
                (outcome (r, s')) in
            (x.0 ≢ no_fuel) × (C.time s < C.time x.1)
      go none s' h = (rest.ends s', omega (arith, rest.later s', h))
      go (some e) s' h = (λ x. cc, h)

  try_to_connect-Later :
      (retry_delay tcp_timeout : ℕ) (w : Waiting C)
      → ((try_to_connect C retry_delay tcp_timeout w).0 ≢ no_fuel)
        × (waiting_time w < waiting_time (try_to_connect C retry_delay tcp_timeout w).1)
  unfolding try_to_connect attempted
  try_to_connect-Later retry_delay tcp_timeout w =
      go (attempted tcp_timeout w.client).0 (attempted tcp_timeout w.client).1
        (attempted-Later tcp_timeout w.client)
    where
      on_error : Error → Act (Waiting C) (Option (Unit {0}))
      on_error err = on_client C (client_sleep C retry_delay) >>= λ _.
          modify (λ w'. record w' { last_e = err }) >>= λ _. pure none

      go :
          (r : Result (Option (Unit {0}))) (s : C.State)
          → (r ≢ no_fuel) × (C.time w.client < C.time s)
          → let x = handle is_connect_error on_error (r, record w { client = s }) in
            (x.0 ≢ no_fuel) × (waiting_time w < waiting_time x.1)
      go (ok a) s h = (λ x. cc, h.1)
      go (raised e) s h = ground (arith, h.1, L.time-sleep retry_delay s)
      go no_fuel s h = absurd (h.0 refl)

  try_to_connect-Round :
      (retry_delay tcp_timeout : ℕ) → Round waiting_time (try_to_connect C retry_delay tcp_timeout)
  try_to_connect-Round retry_delay tcp_timeout = record {
    ends = λ w. (try_to_connect-Later retry_delay tcp_timeout w).0;
    later = λ w. omega (arith, (try_to_connect-Later retry_delay tcp_timeout w).1);
    advances = λ w _. (try_to_connect-Later retry_delay tcp_timeout w).1;
  }

  pub wait_for_connection-Terminates :
      (fuel timeout retry_delay tcp_timeout : ℕ)
      → timeout < fuel
      → Terminates C.time (wait_for_connection C fuel timeout retry_delay tcp_timeout)
  unfolding wait_for_connection
  wait_for_connection-Terminates fuel timeout retry_delay tcp_timeout enough = record {
    ends = λ s. (both s).0;
    later = λ s. (both s).1;
  }
    where
      loop : Terminates waiting_time (
          on_client C (client_now C) >>= λ t.
          while_before fuel
            (on_client C (client_now C))
            (t + timeout)
            (try_to_connect C retry_delay tcp_timeout))
      loop =
          Terminates-wait (on_client C (client_now C)) (try_to_connect C retry_delay tcp_timeout)
            on_client-Shows (try_to_connect-Round retry_delay tcp_timeout) fuel timeout enough

      last :
          (t : ℕ) (r : Result (Option (Unit {0}))) (w : Waiting C)
          → r ≢ no_fuel
          → t ≤ waiting_time w
          → Ended t (or_raise_last C (r, w))
      last t (ok (some a)) w ne h = (λ e. cc, h)
      last t (ok none) w ne h = (λ e. cc, h)
      last t (raised e) w ne h = (λ e. cc, h)
      last t no_fuel w ne h = absurd (ne refl)

      both :
          (s : C.State)
          → Ended (C.time s) (wait_for_connection C fuel timeout retry_delay tcp_timeout s)
      both s =
          last (C.time s) _ _ (loop.ends (record { client = s; last_e = name_error }))
            (loop.later (record { client = s; last_e = name_error }))
