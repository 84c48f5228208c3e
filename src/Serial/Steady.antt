-- ===== src/Serial/Steady.antt =====
-- A port whose clock runs on, and the end of the search for an echo.
use coppercomm.Prelude.{
  ℕ, zero, suc, ◌*◌, ◌≤◌, ◌<◌, ◌≡◌, refl, ap, ◌≢◌, arith, String, Bool, Option, none, some,
  if◌then◌else◌, occurs_in, Act, Result, ok, raised, no_fuel, pure, continue, ◌>>=◌,
  coppercomm_connection,
}
use coppercomm.Loops.Total.{
  Terminates, Terminates-bind, Terminates-if, Terminates-pure, Terminates-raise, Terminates-wait,
  Shows, Round,
}
use coppercomm.Serial.{
  Port, Reading, ended, quiet, closed, Reader, clock_now, send_text, line_of, get_line,
  look_for_echo, unless_seen, type_command,
}

-- The clock of a port shows the time, time does not run backwards, and it runs while a line is read.
pub record IsSteady (P : Port) : Type 0 where
  pub clock_shows : (s : P.State) → (P.clock s).0 ≡ P.time (P.clock s).1
  pub time-clock : (s : P.State) → P.time s ≤ P.time (P.clock s).1
  pub time-read : (s : P.State) → P.time s < P.time (P.read s).1
  pub time-send :
      (linebreak : Bool) (text : String) (s : P.State) → P.time s ≤ P.time (P.send linebreak text s)

module _ (P : Port) (L : IsSteady P) where
  abbrev pub port_time : Reader P → ℕ
  port_time s = P.time s.port

  -- A line that was read took time.
  line_of-Later :
      (r : Reading × P.State) (s : Reader P)
      → P.time s.port < P.time r.1
      → ((line_of P r s).0 ≢ no_fuel) × (port_time s < port_time (line_of P r s).1)
  line_of-Later (ended text, p) s h = (λ e. cc, h)
  line_of-Later (quiet text, p) s h = (λ e. cc, h)
  line_of-Later (closed, p) s h = (λ e. cc, h)

  pub get_line-Later :
      (s : Reader P) → ((get_line P s).0 ≢ no_fuel) × (port_time s < port_time (get_line P s).1)
  unfolding get_line
  get_line-Later s = line_of-Later (P.read s.port) s (L.time-read s.port)

  get_line-Terminates : Terminates port_time (get_line P)
  get_line-Terminates = record {
    ends = λ s. (get_line-Later s).0;
    later = λ s. omega (arith, (get_line-Later s).1);
  }

  clock_now-Shows : Shows port_time (clock_now P)
  clock_now-Shows = record {
    reads = λ s. ap ok (L.clock_shows s.port);
    later = λ s. L.time-clock s.port;
  }

  -- What follows the reading of a line takes no time.
  pub after_line-Later :
      {A : Type 0} (f : String → Act (Reader P) A)
      → ((text : String) → Terminates port_time (f text))
      → (s : Reader P)
      → (((get_line P >>= f) s).0 ≢ no_fuel) × (port_time s < port_time ((get_line P >>= f) s).1)
  after_line-Later f tf s = go (get_line P s).0 (get_line P s).1 (get_line-Later s)
    where
      go :
          (r : Result String) (s' : Reader P)
          → (r ≢ no_fuel) × (port_time s < port_time s')
          → ((continue f (r, s')).0 ≢ no_fuel) × (port_time s < port_time (continue f (r, s')).1)
      go (ok text) s' h = ((tf text).ends s', omega (arith, (tf text).later s', h.1))
      go (raised e) s' h = (λ x. cc, h.1)
      go no_fuel s' h = absurd (h.0 refl)

  look_for_echo-Round : (command : String) → Round port_time (look_for_echo P command)
  unfolding look_for_echo
  look_for_echo-Round command = record {
    ends = λ s. (after_line-Later _ rest s).0;
    later = λ s. omega (arith, (after_line-Later _ rest s).1);
    advances = λ s e. (after_line-Later _ rest s).1;
  }
    where
      rest :
          (text : String)
          → Terminates port_time (if occurs_in command text then pure (some tt) else pure none)
      rest text =
          Terminates-if (occurs_in command text) _ _ (Terminates-pure (some tt))
            (Terminates-pure none)

  send_text-Terminates :
      (linebreak : Bool) (text : String) → Terminates port_time (send_text P linebreak text)
  send_text-Terminates linebreak text = record {
    ends = λ s h. cc;
    later = λ s. L.time-send linebreak text s.port;
  }

  -- The search for an echo in `_send_command` ends, by a return or by an exception, whatever the
  -- port reads, if its fuel exceeds the ticks of two seconds, the clock shows the time, time does
  -- not run backwards, and the reading of a line takes time.
  pub type_command-Terminates :
      (fuel max_retypes : ℕ) (command : String) (send_linebreak : Bool)
      → 2 * P.second < fuel
      → Terminates port_time (type_command P fuel max_retypes command send_linebreak)
  unfolding type_command
  type_command-Terminates fuel zero command send_linebreak enough =
      Terminates-raise coppercomm_connection
  type_command-Terminates fuel (suc max_retypes) command send_linebreak enough =
      Terminates-bind _ (unless_seen P (type_command P fuel max_retypes command send_linebreak))
        (Terminates-bind (send_text P send_linebreak command) _
          (send_text-Terminates send_linebreak command)
          λ _.
            Terminates-wait (clock_now P) (look_for_echo P command) clock_now-Shows
              (look_for_echo-Round command) fuel (2 * P.second) enough)
        (onward (type_command-Terminates fuel max_retypes command send_linebreak enough))
    where
      onward :
          Terminates port_time (type_command P fuel max_retypes command send_linebreak)
          → (seen : Option (Unit {0}))
          → Terminates port_time
              (unless_seen P (type_command P fuel max_retypes command send_linebreak) seen)
      onward later (some a) = Terminates-pure tt
      onward later none = later
