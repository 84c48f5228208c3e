-- ===== src/Adb/Wait/Ends.antt =====
-- The polling loops of `Adb` come to an end: each returns or raises, whatever the device does.
use coppercomm.Prelude.{
  ℕ, ◌≤◌, ◌<◌, ◌≡◌, refl, ap, ◌≢◌, String, Option, none, some, arith, Error, Act, Result, ok,
  raised, no_fuel, lift, continue, ◌>>=◌, exception, strip, truthy,
}
use coppercomm.Host.{Host, IsLawful}
use coppercomm.Loops.Total.{
  Terminates, Terminates-bind, Terminates-try, Terminates-if, Terminates-pure, Terminates-raise,
  Shows, Round, Terminates-wait,
}
use coppercomm.LocalConsole.{line}
use coppercomm.Adb.{Session, DeviceState, now, shell, unchecked}
use coppercomm.Adb.Ends.{host_time, shell-Terminates, lift-Terminates, get_state-Terminates}
use coppercomm.Adb.State.{get_state, device_state_of}
use coppercomm.Adb.Server.{restart_server, is_command_failed}
use coppercomm.Adb.Server.Ends.{ReleasesPort, restart_server-Terminates}
use coppercomm.Adb.Wait.{
  StateArgument, member, value, to_state, is_suppressed, resume, or_raise, poll, react,
  look_for_state, wait_for_state, react_to_boot, look_for_boot, wait_for_boot_complete,
  look_for_log, wait_for_log,
}

to_state-ne-no_fuel : (state : StateArgument) → to_state state ≢ no_fuel
unfolding to_state device_state_of
to_state-ne-no_fuel (member s) h = cc
to_state-ne-no_fuel (value v) h = ground arith

module _ (H : Host) (L : IsLawful H) where
  pub now-Shows : Shows (host_time H L) (now H)
  now-Shows = record { reads = λ s. ap ok (L.clock_shows s.host); later = λ s. L.time-clock s.host }

  -- What is to be shown of a round that has come to `x` since the time `t`.
  abbrev Done : {A : Type 0} → ℕ → Result (Option A) × Session H → Type 0
  Done t (r, s) = (r ≢ no_fuel) × (t ≤ H.time s.host) × (r ≡ ok none → t < H.time s.host)

  continue-resume-Done :
      (interval t : ℕ)
      → 0 < interval
      → (r : Result (Option (Unit {0}))) (s : Session H) → r ≢ no_fuel
      → t ≤ H.time s.host
      → Done t (continue (resume H interval) (r, s))
  continue-resume-Done interval t pos (ok (some a)) s ne le = (λ h. cc, le, λ h. cc)
  continue-resume-Done interval t pos (ok none) s ne le = (
    λ h. cc,
    omega (arith, L.time-sleep interval s.host),
    λ h. omega (arith, L.time-sleep interval s.host),
  )
  continue-resume-Done interval t pos (raised e) s ne le = (λ h. cc, le, λ h. cc)
  continue-resume-Done interval t pos no_fuel s ne le = absurd (ne refl)

  pub resume-Round :
      (m : Act (Session H) (Option (Unit {0}))) (interval : ℕ)
      → 0 < interval
      → Terminates (host_time H L) m
      → Round (host_time H L) (m >>= resume H interval)
  resume-Round m interval pos t = record {
    ends = λ s. (done s).0;
    later = λ s. (done s).1;
    advances = λ s. (done s).2;
  }
    where
      done : (s : Session H) → Done (H.time s.host) (continue (resume H interval) (m s))
      done s =
          continue-resume-Done interval (H.time s.host) pos (m s).0 (m s).1 (t.ends s) (t.later s)

  -- A wait whose rounds end, and whose fuel exceeds its limit in milliseconds, ends.
  pub waiting-Terminates :
      (m : Act (Session H) (Option (Unit {0}))) (e : Error) (fuel timeout interval : ℕ)
      → 0 < interval
      → timeout < fuel
      → Terminates (host_time H L) m
      → Terminates (host_time H L) (poll H fuel timeout (m >>= resume H interval) >>= or_raise H e)
  waiting-Terminates m e fuel timeout interval pos enough t =
      Terminates-bind (poll H fuel timeout (m >>= resume H interval)) (or_raise H e)
        (Terminates-wait (now H) _ now-Shows (resume-Round m interval pos t) fuel timeout enough)
        outcome
    where
      outcome : (r : Option (Unit {0})) → Terminates (host_time H L) (or_raise H e r)
      outcome none = Terminates-raise e
      outcome (some a) = Terminates-pure a

  module _ {fuel : ℕ} (R : ReleasesPort H fuel) where
    react-Terminates :
        (expected current : DeviceState)
        → Terminates (host_time H L) (react H fuel expected current)
    unfolding react
    react-Terminates expected current =
        Terminates-if _ _ _
          (Terminates-bind (restart_server H fuel) _ (restart_server-Terminates H L R)
            (λ _. Terminates-pure none))
          (Terminates-if _ _ _ (Terminates-pure (some tt)) (Terminates-pure none))

    look_for_state-Terminates :
        (expected : DeviceState) → Terminates (host_time H L) (look_for_state H fuel expected)
    unfolding look_for_state
    look_for_state-Terminates expected =
        Terminates-try _ is_suppressed _
          (Terminates-bind (get_state H) _ (get_state-Terminates H L) (react-Terminates expected))
          (λ _. Terminates-pure none)

    -- `wait_for_state` ends, by a return or by an exception, whatever the device answers, if it
    -- pauses between its rounds, its fuel exceeds its limit in milliseconds, time does not run
    -- backwards, a clock shows it and a sleep lasts as long as asked, and the socket of a server
    -- that `adb kill-server` has killed disappears from the listings of `ss` within the fuel.
    pub wait_for_state-Terminates :
        (state : StateArgument) (timeout polling_interval : ℕ)
        → 0 < polling_interval
        → timeout < fuel
        → Terminates (host_time H L) (wait_for_state H fuel state timeout polling_interval)
    unfolding wait_for_state
    wait_for_state-Terminates state timeout polling_interval pos enough =
        Terminates-bind (lift (to_state state)) _
          (lift-Terminates H L (to_state state) (to_state-ne-no_fuel state))
          λ expected.
            waiting-Terminates (look_for_state H fuel expected) exception fuel timeout
              polling_interval pos enough (look_for_state-Terminates expected)

    react_to_boot-Terminates :
        (output : String) → Terminates (host_time H L) (react_to_boot H fuel output)
    unfolding react_to_boot
    react_to_boot-Terminates output =
        Terminates-if _ _ _
          (Terminates-bind (restart_server H fuel) _ (restart_server-Terminates H L R)
            (λ _. Terminates-pure none))
          (Terminates-if _ _ _ (Terminates-pure (some tt)) (Terminates-pure none))

    look_for_boot-Terminates : Terminates (host_time H L) (look_for_boot H fuel)
    unfolding look_for_boot
    look_for_boot-Terminates =
        Terminates-try _ is_command_failed _
          (Terminates-bind (shell H (line "getprop sys.boot_completed") (unchecked 30000)) _
            (shell-Terminates H L (line "getprop sys.boot_completed") (unchecked 30000))
            (λ output. react_to_boot-Terminates (strip output)))
          (λ _. Terminates-pure none)

    -- `wait_for_boot_complete` ends, by a return or by an exception, whatever the device answers,
    -- if its fuel exceeds its limit in milliseconds, time does not run backwards, a clock shows it
    -- and a sleep lasts as long as asked, and the socket of a killed server disappears from the listings
    -- of `ss` within the fuel.
    pub wait_for_boot_complete-Terminates :
        (timeout : ℕ)
        → timeout < fuel
        → Terminates (host_time H L) (wait_for_boot_complete H fuel timeout)
    unfolding wait_for_boot_complete
    wait_for_boot_complete-Terminates timeout enough =
        waiting-Terminates (look_for_boot H fuel) exception fuel timeout 2000 (omega arith) enough
          look_for_boot-Terminates

  look_for_log-Terminates :
      (fuel : ℕ) (command : String) → Terminates (host_time H L) (look_for_log H fuel command)
  unfolding look_for_log
  look_for_log-Terminates fuel command =
      Terminates-bind (shell H (line command) (unchecked 30000)) _
        (shell-Terminates H L (line command) (unchecked 30000))
        (λ output.
          Terminates-if (truthy output) _ _ (Terminates-pure (some tt)) (Terminates-pure none))

  -- `wait_for_log` ends, by a return or by an exception, whatever the device answers, if its fuel
  -- exceeds its limit in milliseconds, time does not run backwards, a clock shows it and a sleep
  -- lasts as long as asked.
  pub wait_for_log-Terminates :
      (fuel : ℕ) (log_buffer log_tag : String) (log_text : Option String) (timeout : ℕ)
      → timeout < fuel
      → Terminates (host_time H L) (wait_for_log H fuel log_buffer log_tag log_text timeout)
  unfolding wait_for_log
  wait_for_log-Terminates fuel log_buffer log_tag log_text timeout enough =
      waiting-Terminates _ exception fuel timeout 2000 (omega arith) enough
        (look_for_log-Terminates fuel _)
