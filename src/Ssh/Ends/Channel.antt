-- ===== src/Ssh/Ends/Channel.antt =====
-- The calls on a channel come to an end, among them the wait for an exit status.
use coppercomm.Prelude.{
  ℕ, ◌≤◌, ◌<◌, arith, Bool, true, false, ◌&&◌, not, Option, none, some, pos, int_eq,
  ssh_command_failed, ssh_timeout_reached,
}
use coppercomm.Loops.Total.{
  Terminates, Terminates-bind, Terminates-if, Terminates-pure, Terminates-raise, Terminates-wait,
  Round,
}
use coppercomm.Ssh.{Client, client_now, on_transport, keep_alive}
use coppercomm.Ssh.Command.{
  open_on, look_for_status, is_found, is_exit_status_ready, exit_status, check_status,
  without_status, collect_status,
}
use coppercomm.Ssh.Ends.Client.{IsTimely, Ended, outcome-Terminates, client_now-Shows}

module _ (C : Client) (L : IsTimely C) where
  on_transport-Ended :
      (interval t : ℕ) (r : Option Bool) (s : C.State)
      → t ≤ C.time s
      → Ended C L t (on_transport C interval (r, s))
  on_transport-Ended interval t none s h = (λ e. cc, h)
  on_transport-Ended interval t (some b) s h =
      (λ e. cc, omega (arith, L.time-set_keepalive interval s))

  pub keep_alive-Terminates : (interval : Option ℕ) → Terminates C.time (keep_alive C interval)
  unfolding keep_alive
  keep_alive-Terminates none = Terminates-pure tt
  keep_alive-Terminates (some interval) = record { ends = λ s. (both s).0; later = λ s. (both s).1 }
    where
      both : (s : C.State) → Ended C L (C.time s) (on_transport C interval (C.transport s))
      both s =
          on_transport-Ended interval (C.time s) (C.transport s).0 (C.transport s).1
            (L.time-transport s)

  open_on-Ended :
      (a : ℕ) (b : Option ℕ) (t : ℕ) (r : Option Bool) (s : C.State)
      → t ≤ C.time s
      → Ended C L t (open_on C a b (r, s))
  open_on-Ended a b t none s h = (λ e. cc, h)
  open_on-Ended a b t (some active) s h =
      let opened = outcome-Terminates C L (C.open_channel a b) (L.time-open_channel a b) in
      (opened.ends s, omega (arith, opened.later s))

  pub open_on-Terminates :
      (a : ℕ) (b : Option ℕ) → Terminates C.time (λ s. open_on C a b (C.transport s))
  open_on-Terminates a b = record { ends = λ s. (both s).0; later = λ s. (both s).1 }
    where
      both : (s : C.State) → Ended C L (C.time s) (open_on C a b (C.transport s))
      both s = open_on-Ended a b (C.time s) (C.transport s).0 (C.transport s).1 (L.time-transport s)

  look_for_status-Round : Round C.time (look_for_status C)
  unfolding look_for_status
  look_for_status-Round = record {
    ends = λ s e. ground arith;
    later =
        λ s. ground (arith, L.time-exit_status_ready s, L.time-sleep 50 (C.exit_status_ready s).1);
    advances = λ s e.
        ground (arith, L.time-exit_status_ready s, L.time-sleep 50 (C.exit_status_ready s).1);
  }

  is_found-Terminates : (r : Option (Unit {0})) → Terminates C.time (is_found C r)
  is_found-Terminates none = Terminates-pure false
  is_found-Terminates (some a) = Terminates-pure true

  -- The limit of a wait, if there is one, is below the fuel.
  abbrev pub IsWithin : ℕ → Option ℕ → Type 0
  IsWithin fuel none = Unit
  IsWithin fuel (some timeout) = timeout < fuel

  is_exit_status_ready-Terminates :
      (fuel : ℕ) (timeout : Option ℕ)
      → IsWithin fuel timeout
      → Terminates C.time (is_exit_status_ready C fuel timeout)
  unfolding is_exit_status_ready
  is_exit_status_ready-Terminates fuel none enough = Terminates-pure false
  is_exit_status_ready-Terminates fuel (some timeout) enough =
      Terminates-bind _ (is_found C)
        (Terminates-wait (client_now C) (look_for_status C) (client_now-Shows C L)
          look_for_status-Round fuel timeout enough)
        is_found-Terminates

  exit_status-Terminates : Terminates C.time (exit_status C)
  exit_status-Terminates = record { ends = λ s e. cc; later = λ s. L.time-recv_exit_status s }

  without_status-Terminates : (timeout : Option ℕ) → Terminates C.time (without_status C timeout)
  without_status-Terminates none = Terminates-pure none
  without_status-Terminates (some timeout) = Terminates-raise ssh_timeout_reached

  pub collect_status-Terminates :
      (fuel : ℕ) (handle_return_code : Bool) (timeout : Option ℕ)
      → IsWithin fuel timeout
      → Terminates C.time (collect_status C fuel handle_return_code timeout)
  unfolding collect_status
  collect_status-Terminates fuel handle_return_code timeout enough =
      Terminates-bind (is_exit_status_ready C fuel timeout) _
        (is_exit_status_ready-Terminates fuel timeout enough)
        λ ready.
          Terminates-if ready _ _
            (Terminates-bind (exit_status C) (check_status C handle_return_code)
              exit_status-Terminates
              λ code.
                Terminates-if (not (int_eq code (pos 0)) && handle_return_code) _ _
                  (Terminates-raise ssh_command_failed) (Terminates-pure (some code)))
            (without_status-Terminates timeout)
