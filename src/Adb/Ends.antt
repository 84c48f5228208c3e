-- ===== src/Adb/Ends.antt =====
-- Every call of an `Adb` object that does not wait comes to an end, and no clock runs backwards in
-- it. Only `restart_server` needs an assumption, that the port of a killed server is released.
use coppercomm.Prelude.{
  ℕ, zero, suc, ◌≢◌, String, Bool, true, false, List, [], ◌∷◌, arith, inl, inr, occurs_in,
  difference, Act, Result, no_fuel, lift, ◌>>=◌, Bool-cases, Option-cases,
}
use coppercomm.Host.{Host, IsLawful}
use coppercomm.Loops.Total.{
  Terminates, Terminates-bind, Terminates-if, Terminates-pure, Terminates-raise,
}
use coppercomm.LocalConsole.{Command, words, Options, line, command_words, execute_words}
use coppercomm.LocalConsole.Outcomes.{execute_words-verdict, verdict-ne-no_fuel}
use coppercomm.Shlex.{shlex_split}
use coppercomm.Adb.{Session, is_given, on_host, sleep, check_output, shell, unchecked}
use coppercomm.Adb.Devices.{get_all_devices}
use coppercomm.Adb.State.{
  classify, choose_device, find_device, query_state, ask_again, await_authorization, read_state,
  when_found, get_state,
}

module _ (H : Host) (L : IsLawful H) where
  abbrev pub host_time : Session H → ℕ
  host_time s = H.time s.host

  on_host-Terminates :
      {A : Type 0} (m : Act H.State A) → Terminates H.time m → Terminates host_time (on_host H m)
  on_host-Terminates m tm = record { ends = λ s. tm.ends s.host; later = λ s. tm.later s.host }

  pub sleep-Terminates : (d : ℕ) → Terminates host_time (sleep H d)
  sleep-Terminates d = record {
    ends = λ s h. cc;
    later = λ s. omega (arith, L.time-sleep d s.host);
  }

  execute_words-Terminates :
      (argv : List String) (o : Options) → Terminates H.time (execute_words H argv o)
  execute_words-Terminates argv o = record {
    ends = λ s. rw execute_words-verdict (verdict-ne-no_fuel H o _);
    later = λ s. rw execute_words-verdict (L.time-run _ _ _ s);
  }

  command_words-Terminates : (command : Command) → Terminates host_time (command_words command)
  unfolding command_words
  command_words-Terminates (words ws) = Terminates-pure ws
  command_words-Terminates (line text) = elim (Option-cases (shlex_split text)) [
    | inl bad ↦ rw (bad, command_words) (Terminates-raise _)
    | inr (ws, good) ↦ rw (good, command_words) (Terminates-pure ws)
  ]

  pub check_output-Terminates :
      (in_shell : Bool) (command : Command) (o : Options)
      → Terminates host_time (check_output H in_shell command o)
  unfolding check_output
  check_output-Terminates in_shell command o =
      Terminates-bind (command_words command) _ (command_words-Terminates command) λ argv. record {
        ends = λ s. (on_host-Terminates _ (execute_words-Terminates _ o)).ends s;
        later = λ s. (on_host-Terminates _ (execute_words-Terminates _ o)).later s;
      }

  pub shell-Terminates :
      (command : Command) (o : Options) → Terminates host_time (shell H command o)
  unfolding shell
  shell-Terminates command o = check_output-Terminates true command o

  pub lift-Terminates : {A : Type 0} (r : Result A) → r ≢ no_fuel → Terminates host_time (lift r)
  lift-Terminates r ne = record { ends = λ s. ne; later = λ s. omega arith }

  pub classify-ne-no_fuel : (answer : String) → classify answer ≢ no_fuel
  unfolding classify
  classify-ne-no_fuel answer h = ground arith

  choose_device-Terminates : (ids : List String) → Terminates host_time (choose_device H ids)
  unfolding choose_device
  choose_device-Terminates [] = record { ends = λ s h. cc; later = λ s. omega arith }
  choose_device-Terminates (x ∷ []) = record { ends = λ s h. cc; later = λ s. omega arith }
  choose_device-Terminates (x ∷ y ∷ ids) = record { ends = λ s h. cc; later = λ s. omega arith }

  get_all_devices-Terminates : Terminates H.time (get_all_devices H)
  unfolding get_all_devices
  get_all_devices-Terminates =
      Terminates-bind (execute_words H _ _) _ (execute_words-Terminates _ _)
        (λ output. Terminates-pure _)

  find_device-Terminates : Terminates host_time (find_device H)
  unfolding find_device
  find_device-Terminates = record {
    ends = λ s. elim (Bool-cases (is_given s.adb.adb_device_id)) [
      | inl named ↦ rw (named, find_device) (λ h. cc)
      | inr unnamed ↦ rw (unnamed, find_device) ((searching s.adb.ignore_ids).ends s)
    ];
    later = λ s. elim (Bool-cases (is_given s.adb.adb_device_id)) [
      | inl named ↦ rw (named, find_device) (omega arith)
      | inr unnamed ↦ rw (unnamed, find_device) ((searching s.adb.ignore_ids).later s)
    ];
  }
    where
      searching :
          (ignored : List String)
          → Terminates host_time
              (on_host H (get_all_devices H) >>= λ ids. choose_device H (difference ids ignored))
      searching ignored =
          Terminates-bind _ _ (on_host-Terminates _ get_all_devices-Terminates)
            (λ ids. choose_device-Terminates _)

  query_state-Terminates : Terminates host_time (query_state H)
  unfolding query_state
  query_state-Terminates = check_output-Terminates false (line "get-state") (unchecked 5000)

  await_authorization-Terminates :
      (retries : ℕ) (answer : String) → Terminates host_time (await_authorization H retries answer)
  unfolding await_authorization
  await_authorization-Terminates zero answer = Terminates-pure answer
  await_authorization-Terminates (suc retries) answer =
      elim (Bool-cases (occurs_in "device still authorizing" answer)) [
        | inl waiting ↦
            rw (waiting, await_authorization)
              (Terminates-bind _ _ (sleep-Terminates 1000) λ _.
                Terminates-bind _ _ query_state-Terminates (await_authorization-Terminates retries))
        | inr done ↦ rw (done, await_authorization) (Terminates-pure answer)
      ]

  read_state-Terminates : Terminates host_time (read_state H)
  unfolding read_state ask_again
  read_state-Terminates = Terminates-bind (query_state H) _ query_state-Terminates λ first.
      Terminates-bind (ask_again H first) _ (asked first) λ second.
        Terminates-bind (await_authorization H 10 second) _
          (await_authorization-Terminates 10 second)
          λ answer. lift-Terminates (classify answer) (classify-ne-no_fuel answer)
    where
      asked : (first : String) → Terminates host_time (ask_again H first)
      asked first = Terminates-if _ _ _ query_state-Terminates (Terminates-pure first)

  -- `get_state` always comes to an end: at most ten rounds wait for the authorization.
  pub get_state-Terminates : Terminates host_time (get_state H)
  unfolding get_state
  get_state-Terminates = Terminates-bind _ _ find_device-Terminates found
    where
      found : (b : Bool) → Terminates host_time (when_found H b)
      found true = read_state-Terminates
      found false = Terminates-pure _
