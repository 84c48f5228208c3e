-- ===== src/Adb/Reboot/Laws.antt =====
-- What has been read of the device when a restart or a remount returns.
use coppercomm.Prelude.{
  ℕ, ◌+◌, ◌≡◌, refl, String, true, false, Option, none, if◌then◌else◌, str_eq, Act, Result, ok,
  raised, no_fuel, pure, raise, continue, ◌>>=◌, Bool-cases, inl, inr, assertion_error,
  remount_error,
}
use coppercomm.Prelude.{is_assertion_error}
use coppercomm.Host.{Host}
use coppercomm.Loops.{while_before}
use coppercomm.Loops.Results.{
  After, After-map, Ensures, Ensures-bind, Ensures-last, Ensures-try, Ensures-Returned, Returned,
  Left, while_before-Left,
}
use coppercomm.Loops.Keeps.{After-both}
use coppercomm.LocalConsole.{line}
use coppercomm.Adb.{Session, now, sleep, shell, adb_defaults}
use coppercomm.Adb.Wait.{wait_for_boot_complete, or_raise}
use coppercomm.Adb.Wait.Results.{or_raise-After}
use coppercomm.Adb.Root.{gain_root_permissions}
use coppercomm.Adb.Reboot.Keeps.{reboot_and_wait-Keeps}
use coppercomm.Adb.Reboot.{
  get_boot_id, trigger_reboot, react_to_id, look_for_id, remount, reboot_and_wait, remounted,
  settle, remount_again, mount_filesytem_as_root, occurs_in_lower,
}

module _ (H : Host) where
  -- The device has just told a boot id that is not `initial`.
  abbrev pub NewId : String → Unit {0} → Session H → Type 0
  NewId initial _ s = (id : String) × Returned (get_boot_id H) id s × (str_eq initial id ≡ false)

  -- A call that began in the state `start` first read a boot id of the device, and what the device
  -- has just told is another one.
  abbrev Retold : Session H → Unit {0} → Session H → Type 0
  Retold start u s =
      (initial : String) × (before : Session H) × (get_boot_id H start ≡ (ok initial, before))
      × NewId initial u s

  -- And it is the same device: the object still names it.
  abbrev pub Rebooted : Session H → Unit {0} → Session H → Type 0
  Rebooted start u s = Retold start u s × (s.adb ≡ start.adb)

  react_to_id-Left :
      (initial id : String) (s : Session H)
      → Returned (get_boot_id H) id s
      → After (Left (NewId initial)) (react_to_id H initial id s)
  unfolding react_to_id
  react_to_id-Left initial id s seen = elim (Bool-cases (str_eq initial id)) [
    | inl same ↦ rw (react_to_id, same) tt
    | inr other ↦ rw (react_to_id, other) (id, seen, other)
  ]

  look_for_id-Left : (initial : String) → Ensures (look_for_id H initial) (Left (NewId initial))
  unfolding look_for_id
  look_for_id-Left initial =
      Ensures-try (Left (NewId initial)) _ is_assertion_error (λ _. pure none)
        (Ensures-last (Left (NewId initial)) (sleep H 1000) _ λ _.
          Ensures-bind (Returned (get_boot_id H)) (Left (NewId initial)) (get_boot_id H)
            (react_to_id H initial) (Ensures-Returned (get_boot_id H)) (react_to_id-Left initial))
        (λ _. record { at = λ s. tt })

  module _ (fuel : ℕ) where
    -- What follows the first reading, for each outcome of it.
    continue_told :
        (start : Session H) (f : String → Act (Session H) (Unit {0}))
        → ((initial : String) → Ensures (f initial) (NewId initial))
        → (x : Result String × Session H) → get_boot_id H start ≡ x
        → After (Retold start) (continue f x)
    continue_told start f ef (ok initial, before) told =
        After-map {Q = Retold start} (λ u s new. (initial, before, told, new)) _
          ((ef initial).at before)
    continue_told start f ef (raised e, before) told = tt
    continue_told start f ef (no_fuel, before) told = tt

    -- When `reboot_and_wait` returns, the device has just told a boot id that differs from the one
    -- that the call read of it first, in the state in which it began; the object still names the
    -- same device.
    pub reboot_and_wait-Rebooted :
        (timeout : ℕ) (mode : Option String) (start : Session H)
        → After (Rebooted start) (reboot_and_wait H fuel timeout mode start)
    unfolding reboot_and_wait
    reboot_and_wait-Rebooted timeout mode start =
        After-both (Retold start) (λ s. s.adb ≡ start.adb)
          (reboot_and_wait H fuel timeout mode start)
          (continue_told start _ waited (get_boot_id H start) refl)
          ((reboot_and_wait-Keeps H fuel timeout mode).same start)
      where
        rounds :
            (initial : String) (deadline : ℕ)
            → Ensures
                (while_before fuel (now H) deadline (look_for_id H initial))
                (Left (NewId initial))
        rounds initial deadline =
            while_before-Left (NewId initial) (now H) _ (look_for_id-Left initial) fuel deadline

        waited :
            (initial : String)
            → Ensures
                (now H
                  >>= (λ t. trigger_reboot H mode >>= λ _.
                      while_before fuel (now H) (t + timeout) (look_for_id H initial))
                  >>= or_raise H assertion_error)
                (NewId initial)
        waited initial =
            Ensures-bind (Left (NewId initial)) (NewId initial) _ (or_raise H assertion_error)
              (Ensures-last (Left (NewId initial)) (now H) _ λ t.
                Ensures-last (Left (NewId initial)) (trigger_reboot H mode) _
                  λ _. rounds initial (t + timeout))
              (or_raise-After H (NewId initial) assertion_error)

    -- The device has just answered to `remount` that it succeeded.
    abbrev pub Remounted : Unit {0} → Session H → Type 0
    Remounted _ s =
        (out : String) × Returned (remount H) out s
        × (occurs_in_lower "remount succeeded" out ≡ true)

    settle-Remounted :
        (m : Act (Session H) (Unit {0}))
        → Ensures m Remounted
        → (out : String) (s : Session H) → Returned (remount H) out s
        → After Remounted ((if remounted H fuel out then pure tt else m) s)
    settle-Remounted m em out s seen = elim (Bool-cases (occurs_in_lower "remount succeeded" out)) [
      | inl done ↦ rw done (out, seen, done)
      | inr other ↦ rw other (em.at s)
    ]

    remount_again-Remounted : Ensures (remount_again H fuel) Remounted
    unfolding remount_again
    remount_again-Remounted = Ensures-last Remounted (reboot_and_wait H fuel 120000 none) _ λ _.
        Ensures-last Remounted (wait_for_boot_complete H fuel 240000) _ λ _.
          Ensures-last Remounted (gain_root_permissions H fuel 10000 3) _ λ _.
            Ensures-bind (Returned (remount H)) Remounted (remount H) (settle H fuel)
              (Ensures-Returned (remount H))
              (settle-Remounted (raise remount_error) (record { at = λ s. tt }))

    -- When `mount_filesytem_as_root` returns, the device has just answered to `remount` that it
    -- succeeded, at the first try or after a restart.
    pub mount_filesytem_as_root-Remounted : Ensures (mount_filesytem_as_root H fuel) Remounted
    unfolding mount_filesytem_as_root
    mount_filesytem_as_root-Remounted =
        Ensures-last Remounted (gain_root_permissions H fuel 10000 3) _ λ _.
          Ensures-last Remounted
            (shell H (line "disable-verity") (record adb_defaults { assert_ok = false })) _
            λ _.
              Ensures-bind (Returned (remount H)) Remounted (remount H) _
                (Ensures-Returned (remount H))
                (settle-Remounted (remount_again H fuel) remount_again-Remounted)
