-- ===== src/Adb/Root.antt =====
-- `Adb._change_root_permissions`, `gain_root_permissions`, `remove_root_permissions` and
-- `is_userdebug`.
pub mod Laws
use coppercomm.Prelude.{
  ℕ, zero, suc, String, Bool, true, false, if◌then◌else◌, str_eq, strip, Error, assertion_error,
  command_failed, timeout_expired, pattern_not_found, coppercomm_error, coppercomm_connection,
  device_resource_unavailable, Act, Result, ok, raised, pure, raise, try, ◌>>=◌, ◌>>◌,
}
use coppercomm.Prelude.{is_assertion_error}
use coppercomm.Host.{Host}
use coppercomm.LocalConsole.{Options, line}
use coppercomm.Adb.{DeviceState, Session, sleep, check_output, shell, adb_defaults}
use coppercomm.Adb.State.{get_state}
use coppercomm.Adb.Wait.{wait_for_state, member}

-- `requested_user` and `command`
abbrev pub requested_user : Bool → String
requested_user root = if root then "root" else "shell"

abbrev pub root_command : Bool → String
root_command root = if root then "root" else "unroot"

module _ (H : Host) where
  unfoldable pub whoami : Act (Session H) String
  unfolding shell strip
  whoami = do output ← shell H (line "whoami") adb_defaults; pure (strip output)

  -- One attempt of the verification: it raises `CommandFailedError` for any other user.
  unfoldable pub verify_user : String → Act (Session H) (Unit {0})
  unfolding whoami
  verify_user user = do
    new_user ← whoami
    if str_eq new_user user then pure tt else raise command_failed

  -- `for attempt in range(1, retries + 1):`
  unfoldable pub verify_attempts : ℕ → String → Act (Session H) (Unit {0})
  unfolding verify_user is_assertion_error
  verify_attempts zero user = raise command_failed
  verify_attempts (suc retries) user =
      let again = sleep H 1000 >>= λ _. verify_attempts retries user in
      try (verify_user user) is_assertion_error (λ _. again)

  unfoldable pub is_userdebug : Act (Session H) Bool
  unfolding shell strip
  is_userdebug = do
    build_type ← shell H (line "getprop ro.build.type") adb_defaults
    pure (str_eq (strip build_type) "userdebug")

module _ (H : Host) (fuel : ℕ) where
  unfoldable pub change_root_permissions : ℕ → ℕ → Bool → Act (Session H) (Unit {0})
  unfolding whoami verify_attempts check_output
  change_root_permissions timeout retries root = do
    current_state ← get_state H
    user ← whoami H
    if str_eq user (requested_user root) then pure tt else do
      check_output H false (line (root_command root)) (record adb_defaults { assert_ok = false })
      sleep H 250
      wait_for_state H fuel (member current_state) timeout 2000
      verify_attempts H retries (requested_user root)

  unfoldable pub gain_root_permissions : ℕ → ℕ → Act (Session H) (Unit {0})
  unfolding change_root_permissions
  gain_root_permissions timeout retries = change_root_permissions timeout retries true

  unfoldable pub remove_root_permissions : ℕ → ℕ → Act (Session H) (Unit {0})
  unfolding change_root_permissions
  remove_root_permissions timeout retries = change_root_permissions timeout retries false
