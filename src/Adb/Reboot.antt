-- ===== src/Adb/Reboot.antt =====
-- `Adb.get_boot_id`, `trigger_reboot`, `reboot_and_wait`, `mount_filesytem_as_root` and
-- `perform_factory_reset`.
pub mod Keeps
pub mod Laws
pub mod Ends
use Prim.Native.Char.{code}
use coppercomm.Prelude.{
  ℕ, ◌+◌, ◌==◌, leb, String, ◌<>◌, Bool, true, false, ◌&&◌, ◌||◌, not, Option, none, some, List, [],
  ◌∷◌, if◌then◌else◌, str_eq, strip, truthy, assertion_error, remount_error, pos, Act, Result, ok,
  raised, pure, raise, try, ◌>>=◌, ◌>>◌,
}
use coppercomm.Prelude.{is_assertion_error}
use coppercomm.Host.{Host}
use coppercomm.Loops.{while_before}
use coppercomm.LocalConsole.{line, Options}
use coppercomm.Adb.{Session, device, recovery, now, sleep, shell, check_output, adb_defaults}
use coppercomm.Adb.Wait.{wait_for_state, wait_for_boot_complete, or_raise, member}
use coppercomm.Adb.Root.{gain_root_permissions}

-- `text.lower()` for one character, so far as ASCII letters come of it.
abbrev lower : ℕ → ℕ
lower c = if leb b'A' c && leb c b'Z' then c + 32 else c

unfoldable pub begins_lower : String → String → Bool
begins_lower String.[] text = true
begins_lower (String.◌∷◌ a needle) String.[] = false
begins_lower (String.◌∷◌ a needle) (String.◌∷◌ c text) =
    code a == lower (code c) && begins_lower needle text

-- `needle in text.lower()`, for a needle of ASCII characters but `i` and `k`, to which letters
-- beyond ASCII are lowered.
unfoldable pub occurs_in_lower : String → String → Bool
unfolding begins_lower
occurs_in_lower needle String.[] = begins_lower needle ""
occurs_in_lower needle (String.◌∷◌ c text) =
    begins_lower needle (String.◌∷◌ c text) || occurs_in_lower needle text

-- The words of the command that restarts the device.
unfoldable pub reboot_command : Option String → String
reboot_command none = "reboot"
reboot_command (some mode) = if truthy mode then "reboot " <> mode else "reboot"

module _ (H : Host) where
  unfoldable pub get_boot_id : Act (Session H) String
  unfolding shell
  get_boot_id = shell H (line "cat /proc/sys/kernel/random/boot_id") adb_defaults

  unfoldable pub trigger_reboot : Option String → Act (Session H) (Unit {0})
  unfolding check_output reboot_command
  trigger_reboot mode = do check_output H false (line (reboot_command mode)) adb_defaults; pure tt

  -- What a round of `reboot_and_wait` does with the boot id that it has read.
  unfoldable pub react_to_id : String → String → Act (Session H) (Option (Unit {0}))
  react_to_id initial boot_id = if not (str_eq initial boot_id) then pure (some tt) else pure none

  unfoldable pub look_for_id : String → Act (Session H) (Option (Unit {0}))
  unfolding get_boot_id react_to_id is_assertion_error
  look_for_id initial =
      try (sleep H 1000 >>= λ _. get_boot_id >>= react_to_id initial) is_assertion_error
        (λ _. pure none)

  -- `shell(command="remount", assert_ok=False).strip()`
  unfoldable pub remount : Act (Session H) String
  unfolding shell strip
  remount = do
    out ← shell H (line "remount") (record adb_defaults { assert_ok = false })
    pure (strip out)

module _ (H : Host) (fuel : ℕ) where
  unfoldable pub reboot_and_wait : ℕ → Option String → Act (Session H) (Unit {0})
  unfolding get_boot_id trigger_reboot look_for_id
  reboot_and_wait timeout mode = get_boot_id H >>= λ initial.
      now H
      >>= (λ t. trigger_reboot H mode >>= λ _.
          while_before fuel (now H) (t + timeout) (look_for_id H initial))
      >>= or_raise H assertion_error

  abbrev pub remounted : String → Bool
  remounted out = occurs_in_lower "remount succeeded" out

  abbrev pub settle : String → Act (Session H) (Unit {0})
  settle out = if remounted out then pure tt else raise remount_error

  -- The second try, after a restart.
  unfoldable pub remount_again : Act (Session H) (Unit {0})
  unfolding reboot_and_wait wait_for_boot_complete gain_root_permissions remount occurs_in_lower
  remount_again = do
    reboot_and_wait 120000 none
    wait_for_boot_complete H fuel 240000
    gain_root_permissions H fuel 10000 3
    out ← remount H
    settle out

  unfoldable pub mount_filesytem_as_root : Act (Session H) (Unit {0})
  unfolding gain_root_permissions remount remount_again shell occurs_in_lower
  mount_filesytem_as_root = do
    gain_root_permissions H fuel 10000 3
    shell H (line "disable-verity") (record adb_defaults { assert_ok = false })
    out ← remount H
    if remounted out then pure tt else remount_again

  unfoldable pub perform_factory_reset : Act (Session H) (Unit {0})
  unfolding reboot_and_wait wait_for_state gain_root_permissions shell wait_for_boot_complete
  perform_factory_reset = do
    reboot_and_wait 120000 (some "recovery")
    wait_for_state H fuel (member recovery) 120000 2000
    gain_root_permissions H fuel 10000 3
    shell H (line "recovery --wipe_data")
        (record adb_defaults { timeout = some 120000; valid_exit_codes = pos 0 ∷ pos 255 ∷ [] })
    wait_for_state H fuel (member device) 120000 2000
    wait_for_boot_complete H fuel 240000
