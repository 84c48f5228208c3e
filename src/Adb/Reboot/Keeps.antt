-- ===== src/Adb/Reboot/Keeps.antt =====
-- A restart leaves the attributes of the `Adb` object as they are.
use coppercomm.Prelude.{
  ◌+◌, ℕ, refl, Bool, true, false, String, Option, none, some, inl, inr, str_eq, Act, Option-cases,
  Bool-cases, assertion_error, pure, is_assertion_error,
}
use coppercomm.Host.{Host}
use coppercomm.Loops.Keeps.{Keeps, Keeps-bind, Keeps-try, Keeps-while}
use coppercomm.LocalConsole.{Command, words, line, Options, command_words}
use coppercomm.Shlex.{shlex_split}
use coppercomm.Adb.{Adb, Session, on_host, now, sleep, check_output, shell, adb_defaults}
use coppercomm.Adb.Wait.{or_raise}
use coppercomm.Adb.Reboot.{
  get_boot_id, trigger_reboot, reboot_command, react_to_id, look_for_id, reboot_and_wait,
}

module _ (H : Host) where
  abbrev pub object : Session H → Adb
  object s = s.adb

  on_host-Keeps : {A : Type 0} (m : Act H.State A) → Keeps object (on_host H m)
  on_host-Keeps m = record { same = λ s. refl }

  command_words-Keeps : (command : Command) → Keeps object (command_words command)
  unfolding command_words
  command_words-Keeps (words ws) = record { same = λ s. refl }
  command_words-Keeps (line text) = elim (Option-cases (shlex_split text)) [
    | inl bad ↦ rw (bad, command_words) (record { same = λ s. refl })
    | inr (ws, good) ↦ rw (good, command_words) (record { same = λ s. refl })
  ]

  check_output-Keeps :
      (in_shell : Bool) (command : Command) (o : Options)
      → Keeps object (check_output H in_shell command o)
  unfolding check_output
  check_output-Keeps in_shell command o =
      Keeps-bind object (command_words command) _ (command_words-Keeps command)
        (λ argv. record { same = λ s. refl })

  get_boot_id-Keeps : Keeps object (get_boot_id H)
  unfolding get_boot_id shell
  get_boot_id-Keeps =
      check_output-Keeps true (line "cat /proc/sys/kernel/random/boot_id") adb_defaults

  trigger_reboot-Keeps : (mode : Option String) → Keeps object (trigger_reboot H mode)
  unfolding trigger_reboot
  trigger_reboot-Keeps mode =
      Keeps-bind object (check_output H false (line (reboot_command mode)) adb_defaults) _
        (check_output-Keeps false (line (reboot_command mode)) adb_defaults)
        (λ out. record { same = λ s. refl })

  react_to_id-Keeps : (initial id : String) → Keeps object (react_to_id H initial id)
  unfolding react_to_id
  react_to_id-Keeps initial id = elim (Bool-cases (str_eq initial id)) [
    | inl same ↦ rw (react_to_id, same) (record { same = λ s. refl })
    | inr other ↦ rw (react_to_id, other) (record { same = λ s. refl })
  ]

  look_for_id-Keeps : (initial : String) → Keeps object (look_for_id H initial)
  unfolding look_for_id
  look_for_id-Keeps initial =
      Keeps-try object _ is_assertion_error (λ _. pure none)
        (Keeps-bind object (sleep H 1000) _ (record { same = λ s. refl })
          (λ _. Keeps-bind object (get_boot_id H) _ get_boot_id-Keeps (react_to_id-Keeps initial)))
        (λ _. record { same = λ s. refl })

  pub reboot_and_wait-Keeps :
      (fuel timeout : ℕ) (mode : Option String) → Keeps object (reboot_and_wait H fuel timeout mode)
  unfolding reboot_and_wait
  reboot_and_wait-Keeps fuel timeout mode =
      Keeps-bind object (get_boot_id H) _ get_boot_id-Keeps λ initial.
        Keeps-bind object _ (or_raise H assertion_error)
          (Keeps-bind object (now H) _ (record { same = λ s. refl })
            λ t. Keeps-bind object (trigger_reboot H mode) _ (trigger_reboot-Keeps mode) λ _.
              Keeps-while object (now H) (look_for_id H initial) (record { same = λ s. refl })
                (look_for_id-Keeps initial) fuel (t + timeout))
          raised_or_not
    where
      raised_or_not : (r : Option (Unit {0})) → Keeps object (or_raise H assertion_error r)
      raised_or_not none = record { same = λ s. refl }
      raised_or_not (some a) = record { same = λ s. refl }
