-- ===== src/AdbLogger/Collected.antt =====
-- The files that the thread collects.
use coppercomm.Prelude.{
  ℕ, ◌≤◌, ◌≡◌, refl, sym, ap, ◌∙◌, Bool, true, false, not, ◌||◌, if◌then◌else◌, Option, none, some,
  String, [], ◌∷◌, ◌++◌, length, arith, Result, ok, raised, no_fuel, pure,
}
use coppercomm.Host.{Host}
use coppercomm.AdbLogger.Loop.{
  Outside, Settings, Logger, is_missing, next_name, open_next, setup_file, adb_loop,
  finally_shut_down, run, is_stopped,
}
use coppercomm.AdbLogger.Rules.{
  Moves, Preserves, Moves-modify, Moves-bind, Preserves-pure, Preserves-raise, Preserves-try,
  Preserves-bind,
}
use coppercomm.AdbLogger.Aside.{
  AboutFiles, world-Preserves, sidestep-Preserves, checked-Preserves, adb_loop-Preserves,
  shut_down-Preserves,
}

module _ (H : Host) (O : Outside H) (G : Settings) where
  -- One file at most was collected, and none before the thread has a file.
  abbrev pub OneFile : Logger H O G → Type 0
  OneFile l = (length l.log_filenames_list ≤ 1) × (l.file ≡ none → l.log_filenames_list ≡ [])

  abbrev NoFile : Logger H O G → Type 0
  NoFile l = l.log_filenames_list ≡ []

  OneFile-AboutFiles : AboutFiles H O G OneFile
  OneFile-AboutFiles l l' e f p = rw (e, f) p

  NoFile-AboutFiles : AboutFiles H O G NoFile
  NoFile-AboutFiles l l' e f p = rw f p

  NoFile-OneFile : (l : Logger H O G) → NoFile l → OneFile l
  NoFile-OneFile l e = rw e (omega arith, λ _. refl)

  open_next-OneFile : Moves NoFile OneFile (open_next H O G)
  unfolding open_next
  open_next-OneFile =
      Moves-bind _ _
        (sidestep-Preserves H O G NoFile-AboutFiles (λ l. record l { is_open = false })
          λ l. (refl, refl))
        NoFile-OneFile
        λ _.
          Moves-bind (next_name H O G) _ (record { at = λ l p. p }) NoFile-OneFile
            λ name.
              Moves-bind _ _
                (Preserves-bind _ _ (world-Preserves H O G NoFile-AboutFiles (O.open_file name))
                  (checked-Preserves H O G NoFile-AboutFiles))
                NoFile-OneFile
                λ _.
                  Moves-modify
                    (λ l. record l {
                      file = some name;
                      is_open = true;
                      log_filenames_list = l.log_filenames_list ++ (O.abspath name l.host ∷ []);
                    })
                    λ l e. rw e (omega arith, λ x. absurd (cc))

  opened-OneFile :
      (needed : Bool) (l : Logger H O G)
      → OneFile l
      → (needed ≡ true → NoFile l)
      → OneFile ((if needed then open_next H O G else pure tt) l).1
  opened-OneFile true l p h = open_next-OneFile.at l (h refl)
  opened-OneFile false l p h = p

  missing_none : (file : Option String) → (not true || is_missing H O G file) ≡ true → file ≡ none
  missing_none none e = refl
  missing_none (some name) e = absurd (cc)

  setup_file-OneFile : G.append_after_interrupt ≡ true → Preserves OneFile (setup_file H O G)
  unfolding setup_file
  setup_file-OneFile appending = record {
    at = λ l p.
        opened-OneFile (not G.append_after_interrupt || is_missing H O G l.file) l p λ needed. p.1 (
          missing_none l.file
            (ap (λ b. not b || is_missing H O G l.file) (sym appending) ∙ needed));
  }

  finally-OneFile :
      (r : Result (Unit {0})) (l : Logger H O G)
      → OneFile l
      → OneFile (finally_shut_down H O G (r, l)).1
  finally-OneFile (ok a) l p = (shut_down-Preserves H O G OneFile-AboutFiles).at l p
  finally-OneFile (raised e) l p =
      (Preserves-bind _ _ (shut_down-Preserves H O G OneFile-AboutFiles)
          λ _. Preserves-raise {A = Unit {0}} e).at
        l p
  finally-OneFile no_fuel l p = p

  -- A thread of the adb logger that appends after interrupts collects one file at most, however
  -- often the process ends and is started again: it leaves this true if it is true before, with no
  -- file collected before the thread has one.
  pub run-OneFile :
      G.append_after_interrupt ≡ true
      → (fuel : ℕ) (l : Logger H O G) → OneFile l
      → OneFile (run H O G fuel l).1
  unfolding run
  run-OneFile appending fuel l p = finally-OneFile _ _ (
      (Preserves-try (adb_loop H O G fuel) is_stopped (λ _. pure tt)
          (adb_loop-Preserves H O G OneFile-AboutFiles (setup_file-OneFile appending) fuel)
          (λ e. Preserves-pure tt)).at
        l p)
