-- ===== src/Adb/Reboot/Ends.antt =====
-- A restart, a remount and a factory reset come to an end.
use coppercomm.Prelude.{
  ℕ, ◌<◌, arith, String, true, false, not, Option, none, some, str_eq, strip, Act, pure, try, ◌>>=◌,
  assertion_error, remount_error, pos, [], ◌∷◌,
}
use coppercomm.Prelude.{is_assertion_error}
use coppercomm.Host.{Host, IsLawful}
use coppercomm.Loops.Total.{
  Terminates, Terminates-bind, Terminates-try, Terminates-if, Terminates-pure, Terminates-raise,
  Terminates-wait_after, Round,
}
use coppercomm.LocalConsole.{line, Options}
use coppercomm.Adb.{Session, device, recovery, now, shell, check_output, adb_defaults}
use coppercomm.Adb.Ends.{host_time, shell-Terminates, check_output-Terminates}
use coppercomm.Adb.Server.Ends.{ReleasesPort}
use coppercomm.Adb.Wait.{wait_for_state, wait_for_boot_complete, or_raise, member}
use coppercomm.Adb.Wait.Ends.{
  now-Shows, wait_for_state-Terminates, wait_for_boot_complete-Terminates,
}
use coppercomm.Adb.Root.{gain_root_permissions}
use coppercomm.Adb.Root.Laws.{change_root_permissions-Terminates}
use coppercomm.Adb.Reboot.{
  get_boot_id, trigger_reboot, reboot_command, react_to_id, look_for_id, remount, reboot_and_wait,
  remounted, settle, remount_again, mount_filesytem_as_root, perform_factory_reset,
}

abbrev wipe : Options
wipe = record adb_defaults { timeout = some 120000; valid_exit_codes = pos 0 ∷ pos 255 ∷ [] }

module _ (H : Host) (L : IsLawful H) where
  get_boot_id-Terminates : Terminates (host_time H L) (get_boot_id H)
  unfolding get_boot_id
  get_boot_id-Terminates =
      shell-Terminates H L (line "cat /proc/sys/kernel/random/boot_id") adb_defaults

  trigger_reboot-Terminates :
      (mode : Option String) → Terminates (host_time H L) (trigger_reboot H mode)
  unfolding trigger_reboot
  trigger_reboot-Terminates mode =
      Terminates-bind (check_output H false (line (reboot_command mode)) adb_defaults) _
        (check_output-Terminates H L false (line (reboot_command mode)) adb_defaults)
        λ _. Terminates-pure tt

  remount-Terminates : Terminates (host_time H L) (remount H)
  unfolding remount
  remount-Terminates =
      Terminates-bind (shell H (line "remount") (record adb_defaults { assert_ok = false })) _
        (shell-Terminates H L (line "remount") (record adb_defaults { assert_ok = false }))
        λ out. Terminates-pure (strip out)

  -- What follows the pause of a round.
  checked : (initial : String) → Act (Session H) (Option (Unit {0}))
  checked initial =
      try (get_boot_id H >>= react_to_id H initial) is_assertion_error (λ _. pure none)

  checked-Terminates : (initial : String) → Terminates (host_time H L) (checked initial)
  unfolding checked react_to_id
  checked-Terminates initial =
      Terminates-try (get_boot_id H >>= react_to_id H initial) is_assertion_error (λ _. pure none)
        (Terminates-bind (get_boot_id H) _ get_boot_id-Terminates λ id.
          Terminates-if (not (str_eq initial id)) _ _ (Terminates-pure (some tt))
            (Terminates-pure none))
        λ _. Terminates-pure none

  look_for_id-Round : (initial : String) → Round (host_time H L) (look_for_id H initial)
  unfolding look_for_id checked
  look_for_id-Round initial = record {
    ends = λ s. (checked-Terminates initial).ends (slept s);
    later =
        λ s. omega (arith, L.time-sleep 1000 s.host, (checked-Terminates initial).later (slept s));
    advances = λ s _.
        omega (arith, L.time-sleep 1000 s.host, (checked-Terminates initial).later (slept s));
  }
    where
      slept : Session H → Session H
      slept s = record s { host = H.sleep 1000 s.host }

  -- `reboot_and_wait` ends, by a return or by an exception, whatever the device answers, if the
  -- fuel exceeds its limit in milliseconds, time does not run backwards, a clock shows it and a
  -- sleep lasts as long as asked.
  pub reboot_and_wait-Terminates :
      (fuel timeout : ℕ) (mode : Option String)
      → timeout < fuel
      → Terminates (host_time H L) (reboot_and_wait H fuel timeout mode)
  unfolding reboot_and_wait
  reboot_and_wait-Terminates fuel timeout mode enough =
      Terminates-bind (get_boot_id H) _ get_boot_id-Terminates λ initial.
        Terminates-bind _ (or_raise H assertion_error)
          (Terminates-wait_after (now H) (trigger_reboot H mode) (look_for_id H initial)
            (now-Shows H L) (trigger_reboot-Terminates mode) (look_for_id-Round initial) fuel
            timeout enough)
          outcome
    where
      outcome : (r : Option (Unit {0})) → Terminates (host_time H L) (or_raise H assertion_error r)
      outcome none = Terminates-raise assertion_error
      outcome (some a) = Terminates-pure a

  module _ {fuel : ℕ} (R : ReleasesPort H fuel) (enough : 240000 < fuel) where
    gain-Terminates : Terminates (host_time H L) (gain_root_permissions H fuel 10000 3)
    unfolding gain_root_permissions
    gain-Terminates = change_root_permissions-Terminates H L R 10000 3 true (omega arith)

    wait-Terminates : Terminates (host_time H L) (wait_for_boot_complete H fuel 240000)
    wait-Terminates = wait_for_boot_complete-Terminates H L R 240000 enough

    remount_again-Terminates : Terminates (host_time H L) (remount_again H fuel)
    unfolding remount_again
    remount_again-Terminates =
        Terminates-bind (reboot_and_wait H fuel 120000 none) _
          (reboot_and_wait-Terminates fuel 120000 none (omega arith))
          λ _. Terminates-bind (wait_for_boot_complete H fuel 240000) _ wait-Terminates λ _.
            Terminates-bind (gain_root_permissions H fuel 10000 3) _ gain-Terminates λ _.
              Terminates-bind (remount H) (settle H fuel) remount-Terminates λ out.
                Terminates-if (remounted H fuel out) _ _ (Terminates-pure tt)
                  (Terminates-raise remount_error)

    -- `mount_filesytem_as_root` ends, by a return or by an exception, if the fuel exceeds 240000,
    -- the milliseconds of its longest wait, time does not run backwards, a clock shows it and a
    -- sleep lasts as long as asked, and the socket of a server that `adb kill-server` has killed
    -- disappears from the listings of `ss` within the fuel.
    pub mount_filesytem_as_root-Terminates :
        Terminates (host_time H L) (mount_filesytem_as_root H fuel)
    unfolding mount_filesytem_as_root
    mount_filesytem_as_root-Terminates =
        Terminates-bind (gain_root_permissions H fuel 10000 3) _ gain-Terminates λ _.
          Terminates-bind
            (shell H (line "disable-verity") (record adb_defaults { assert_ok = false })) _
            (shell-Terminates H L (line "disable-verity")
              (record adb_defaults { assert_ok = false }))
            λ _. Terminates-bind (remount H) _ remount-Terminates λ out.
              Terminates-if (remounted H fuel out) _ _ (Terminates-pure tt) remount_again-Terminates

    -- `perform_factory_reset` ends, by a return or by an exception, if the fuel exceeds 240000, the
    -- milliseconds of its longest wait, time does not run backwards, a clock shows it and a sleep
    -- lasts as long as asked, and the socket of a killed server disappears from the listings of `ss`
    -- within the fuel.
    pub perform_factory_reset-Terminates : Terminates (host_time H L) (perform_factory_reset H fuel)
    unfolding perform_factory_reset
    perform_factory_reset-Terminates =
        Terminates-bind (reboot_and_wait H fuel 120000 (some "recovery")) _
          (reboot_and_wait-Terminates fuel 120000 (some "recovery") (omega arith))
          λ _.
            Terminates-bind (wait_for_state H fuel (member recovery) 120000 2000) _
              (wait_for_state-Terminates H L R (member recovery) 120000 2000 (omega arith)
                (omega arith))
              λ _. Terminates-bind (gain_root_permissions H fuel 10000 3) _ gain-Terminates λ _.
                Terminates-bind (shell H (line "recovery --wipe_data") wipe) _
                  (shell-Terminates H L (line "recovery --wipe_data") wipe)
                  λ _.
                    Terminates-bind (wait_for_state H fuel (member device) 120000 2000) _
                      (wait_for_state-Terminates H L R (member device) 120000 2000 (omega arith)
                        (omega arith))
                      λ _. wait-Terminates
