-- ===== src/AdbLogger/Aside.antt =====
-- What the calls of the thread other than `_setup_file` leave of its files.
use coppercomm.Prelude.{
  ℕ, zero, suc, ◌≡◌, refl, Bool, true, false, not, if◌then◌else◌, Option, none, some, String, ℤ,
  pos, int_eq, ltb, leb, arith, Error, called_process_error, process_timeout, adb_loop_stopped,
  attribute_error, os_error, Act, pure, modify, ◌>>=◌,
}
use coppercomm.Host.{Host, Completion, completed, expired, unstartable}
use coppercomm.AdbLogger.Loop.{
  Outside, Settings, Logger, world, doing, checked, run_result, logged_subprocess_run,
  setup_adb_connection, is_adb_shell_working, is_connection_established, poll_truthy, and_then,
  read_stderr, stop_if_cmd_exits, poll_is_none, is_logging, setup_file, file_name, start_logging,
  stop_logging, unless_appending, restart, read_flag, loop_body, loop_failed, adb_loop, end_process,
  shut_down, is_subprocess, is_called_process, max_adb_hiccups, full_cmd_as_list,
}
use coppercomm.AdbLogger.Rules.{
  Preserves, Preserves-pure, Preserves-raise, Preserves-gets, Preserves-try, Preserves-if,
  Preserves-bind,
}

module _ (H : Host) (O : Outside H) (G : Settings) where
  -- A change of what is not about files.
  abbrev pub Aside : (Logger H O G → Logger H O G) → Type 0
  Aside f =
      (l : Logger H O G) → ((f l).file ≡ l.file) × ((f l).log_filenames_list ≡ l.log_filenames_list)

  module _ (P : Logger H O G → Type 0) where
    -- The predicate reads the files only.
    abbrev pub AboutFiles : Type 0
    AboutFiles =
        (l l' : Logger H O G)
        → l'.file ≡ l.file
        → l'.log_filenames_list ≡ l.log_filenames_list
        → P l
        → P l'

  module _ {P : Logger H O G → Type 0} (about : AboutFiles P) where
    pub world-Preserves : {A : Type 0} (f : H.State → A × H.State) → Preserves P (world H O G f)
    world-Preserves f = record { at = λ l p. about l _ refl refl p }

    pub doing-Preserves : (f : H.State → H.State) → Preserves P (doing H O G f)
    doing-Preserves f = record { at = λ l p. about l _ refl refl p }

    pub sidestep-Preserves : (f : Logger H O G → Logger H O G) → Aside f → Preserves P (modify f)
    sidestep-Preserves f h = record { at = λ l p. about l (f l) (h l).0 (h l).1 p }

    pub checked-Preserves : (r : Option Error) → Preserves P (checked H O G r)
    checked-Preserves none = Preserves-pure tt
    checked-Preserves (some e) = Preserves-raise e

    run_result-Preserves : (c : Completion) → Preserves P (run_result H O G c)
    run_result-Preserves (completed text code) =
        Preserves-if (int_eq code (pos 0)) _ _ (Preserves-pure code)
          (Preserves-raise called_process_error)
    run_result-Preserves expired = Preserves-raise process_timeout
    run_result-Preserves unstartable = Preserves-raise os_error

    logged-Preserves :
        (command : String) (timeout : ℕ) → Preserves P (logged_subprocess_run H O G command timeout)
    unfolding logged_subprocess_run
    logged-Preserves command timeout =
        Preserves-bind _ _ (world-Preserves (H.run _ (some timeout) none)) run_result-Preserves

    setup_adb-Preserves : Preserves P (setup_adb_connection H O G)
    unfolding setup_adb_connection
    setup_adb-Preserves = Preserves-bind _ _ (logged-Preserves "start-server" 15000) λ _.
        Preserves-bind _ _
          (logged-Preserves (if leb 34 G.adb_version then "wait-for-device" else "wait-for-any")
            15000)
          λ _. Preserves-bind _ _ (logged-Preserves "root" 15000) λ _.
            Preserves-bind _ _ (doing-Preserves (H.sleep 100))
              λ _. Preserves-bind _ _ (logged-Preserves "get-state" 15000) λ _. Preserves-pure tt

    pub and_then-Preserves :
        (a b : Act (Logger H O G) Bool)
        → Preserves P a
        → Preserves P b
        → Preserves P (and_then H O G a b)
    and_then-Preserves a b pa pb =
        Preserves-bind a _ pa λ x. Preserves-if x b _ pb (Preserves-pure false)

    polled-Preserves : (f : Option ℤ → Bool) → Preserves P (world H O G O.poll >>= λ p. pure (f p))
    polled-Preserves f = Preserves-bind _ _ (world-Preserves O.poll) λ p. Preserves-pure (f p)

    is_logging-Preserves : Preserves P (is_logging H O G)
    unfolding is_logging
    is_logging-Preserves =
        and_then-Preserves _ _ (Preserves-gets λ l. l.connection)
          (polled-Preserves (poll_is_none H O G))

    established-Preserves : Preserves P (is_connection_established H O G)
    unfolding is_connection_established is_adb_shell_working
    established-Preserves = Preserves-bind _ _ (world-Preserves O.locked) λ locked.
        Preserves-if locked _ _ (Preserves-pure false) (
          Preserves-try _ is_subprocess _
            (Preserves-bind _ _ (logged-Preserves "shell whoami" 500)
              λ code. Preserves-pure (int_eq code (pos 0)))
            λ _. Preserves-pure false)

    pub stop_if-Preserves : Preserves P (stop_if_cmd_exits H O G)
    unfolding stop_if_cmd_exits
    stop_if-Preserves =
        Preserves-bind _ _
          (and_then-Preserves _ _ (Preserves-gets λ l. l.connection)
            (and_then-Preserves _ _ (polled-Preserves (poll_truthy H O G)) established-Preserves))
          λ hiccup.
            Preserves-if hiccup _ _
              (Preserves-bind _ _ (world-Preserves O.poll) λ _.
                Preserves-bind (read_stderr H O G) _ (Preserves-raise attribute_error) λ _.
                  Preserves-bind _ _
                    (sidestep-Preserves
                      (λ l. record l { adb_hiccup_counter = suc l.adb_hiccup_counter })
                      λ l. (refl, refl))
                    λ _. Preserves-bind _ _ (doing-Preserves (H.sleep 500)) λ _.
                      Preserves-bind _ _
                        (Preserves-gets λ l. ltb max_adb_hiccups l.adb_hiccup_counter)
                        λ too_many.
                          Preserves-if too_many _ _ (Preserves-raise adb_loop_stopped)
                            (Preserves-pure tt))
              (sidestep-Preserves (λ l. record l { adb_hiccup_counter = 0 }) λ l. (refl, refl))

    start_logging-Preserves : Preserves P (start_logging H O G)
    unfolding start_logging
    start_logging-Preserves =
        Preserves-bind _ _ (Preserves-gets λ l. file_name H O G l.file) λ name.
          Preserves-bind _ _
            (Preserves-bind _ _ (world-Preserves (O.popen (full_cmd_as_list H O G G.command) name))
              checked-Preserves)
            λ _. sidestep-Preserves (λ l. record l { connection = true }) λ l. (refl, refl)

    stop_logging-Preserves : Preserves P (stop_logging H O G)
    unfolding stop_logging
    stop_logging-Preserves =
        sidestep-Preserves (λ l. if l.stop_adb_loop then l else record l { stop_adb_loop = true })
          λ l. ground arith

    read_flag-Preserves : Preserves P (read_flag H O G)
    unfolding read_flag
    read_flag-Preserves = Preserves-bind _ _ (world-Preserves O.asked_to_stop) λ asked.
        Preserves-bind _ _ (Preserves-if asked _ _ stop_logging-Preserves (Preserves-pure tt))
          λ _. Preserves-gets λ l. l.stop_adb_loop

    unless_appending-Preserves :
        (m : Act (Logger H O G) (Unit {0})) → Preserves P m → Preserves P (unless_appending H O G m)
    unless_appending-Preserves m pm =
        Preserves-if (not G.append_after_interrupt) m _ pm (Preserves-pure tt)

    module _ (setup_file-Preserves : Preserves P (setup_file H O G)) where
      restart-Preserves : Preserves P (restart H O G)
      unfolding restart
      restart-Preserves =
          Preserves-bind _ _
            (sidestep-Preserves (λ l. record l { logger_started = false }) λ l. (refl, refl))
            λ _.
              Preserves-bind _ _
                (unless_appending-Preserves (stop_if_cmd_exits H O G) stop_if-Preserves)
                λ _.
                  Preserves-bind _ _
                    (sidestep-Preserves (λ l. record l { connection = false }) λ l. (refl, refl))
                    λ _. Preserves-bind _ _ setup_adb-Preserves λ _.
                      Preserves-bind _ _ setup_file-Preserves λ _.
                        Preserves-bind _ _ start_logging-Preserves λ _.
                          sidestep-Preserves (λ l. record l { logger_started = true })
                            λ l. (refl, refl)

      loop_body-Preserves : Preserves P (loop_body H O G)
      unfolding loop_body
      loop_body-Preserves = Preserves-bind _ _ read_flag-Preserves λ stopping.
          Preserves-bind _ _
            (Preserves-if stopping _ _
              (Preserves-bind _ _
                (sidestep-Preserves (λ l. record l { logger_started = false }) λ l. (refl, refl))
                λ _. Preserves-raise adb_loop_stopped)
              (Preserves-pure tt))
            λ _. Preserves-bind _ _ is_logging-Preserves λ logging.
              Preserves-bind _ _ (Preserves-if logging _ _ (Preserves-pure tt) restart-Preserves)
                λ _. doing-Preserves (H.sleep 500)

      loop_failed-Preserves : (e : Error) → Preserves P (loop_failed H O G e)
      unfolding loop_failed
      loop_failed-Preserves e =
          Preserves-if (is_called_process e) _ _
            (Preserves-bind _ _
              (unless_appending-Preserves (stop_if_cmd_exits H O G) stop_if-Preserves)
              λ _. doing-Preserves (H.sleep 300))
            stop_logging-Preserves

      pub adb_loop-Preserves : (fuel : ℕ) → Preserves P (adb_loop H O G fuel)
      unfolding adb_loop
      adb_loop-Preserves zero = record { at = λ l p. p }
      adb_loop-Preserves (suc fuel) =
          Preserves-bind _ _
            (Preserves-try _ is_subprocess _ loop_body-Preserves loop_failed-Preserves)
            λ _. adb_loop-Preserves fuel

    pub shut_down-Preserves : Preserves P (shut_down H O G)
    unfolding shut_down end_process
    shut_down-Preserves = Preserves-bind _ _ (Preserves-gets λ l. l.connection) λ connected.
        Preserves-bind _ _
          (Preserves-if connected _ _
            (Preserves-bind _ _ (doing-Preserves O.terminate) λ _.
              Preserves-try _ is_subprocess _
                (Preserves-bind _ _ (world-Preserves (O.wait 15000)) checked-Preserves)
                λ _.
                  Preserves-try _ is_subprocess _
                    (Preserves-bind _ _ (doing-Preserves O.kill)
                      λ _. Preserves-bind _ _ (world-Preserves (O.wait 15000)) checked-Preserves)
                    λ _. Preserves-pure tt)
            (Preserves-pure tt))
          λ _. sidestep-Preserves (λ l. record l { is_open = false }) λ l. (refl, refl)
