-- ===== src/Adb/Root/Laws.antt =====
-- A change of the root permissions ends with the requested user, or raises.
use coppercomm.Prelude.{
  ℕ, zero, suc, ◌<◌, String, Bool, false, arith, if◌then◌else◌, str_eq, eq_iff, pure, raise, ◌>>=◌,
  Bool-cases, inl, inr, command_failed, subst, strip,
}
use coppercomm.Prelude.{is_assertion_error}
use coppercomm.Host.{Host, IsLawful}
use coppercomm.Loops.Total.{
  Terminates, Terminates-bind, Terminates-try, Terminates-if, Terminates-pure, Terminates-raise,
}
use coppercomm.Loops.Results.{
  After, Ensures, Ensures-bind, Ensures-try, Ensures-last, Ensures-Returned, Returned,
}
use coppercomm.LocalConsole.{line}
use coppercomm.Adb.{DeviceState, Session, sleep, check_output, adb_defaults}
use coppercomm.Adb.Ends.{
  host_time, sleep-Terminates, shell-Terminates, check_output-Terminates, get_state-Terminates,
}
use coppercomm.Adb.State.{get_state}
use coppercomm.Adb.Wait.{wait_for_state, member}
use coppercomm.Adb.Wait.Ends.{wait_for_state-Terminates}
use coppercomm.Adb.Server.Ends.{ReleasesPort}
use coppercomm.Adb.Root.{
  requested_user, root_command, whoami, verify_user, verify_attempts, change_root_permissions,
}

module _ (H : Host) where
  -- The device has just told that commands run as `user`.
  abbrev pub RunsAs : String → Unit {0} → Session H → Type 0
  RunsAs user _ s = Returned (whoami H) user s

  verify_user-RunsAs : (user : String) → Ensures (verify_user H user) (RunsAs user)
  unfolding verify_user
  verify_user-RunsAs user =
      Ensures-bind (Returned (whoami H)) (RunsAs user) (whoami H) _ (Ensures-Returned (whoami H))
        told
    where
      told :
          (new_user : String) (s : Session H)
          → Returned (whoami H) new_user s
          → After (RunsAs user) ((if str_eq new_user user then pure tt else raise command_failed) s)
      told new_user s seen = elim (Bool-cases (str_eq new_user user)) [
        | inl same ↦
            rw same (subst (λ u. Returned (whoami H) u s) ((eq_iff new_user user).0 same) seen)
        | inr other ↦ rw other tt
      ]

  verify_attempts-RunsAs :
      (retries : ℕ) (user : String) → Ensures (verify_attempts H retries user) (RunsAs user)
  unfolding verify_attempts
  verify_attempts-RunsAs zero user = record { at = λ s. tt }
  verify_attempts-RunsAs (suc retries) user =
      Ensures-try (RunsAs user) (verify_user H user) is_assertion_error _ (verify_user-RunsAs user)
        λ _. Ensures-last (RunsAs user) (sleep H 1000) _ (λ _. verify_attempts-RunsAs retries user)

  module _ (fuel : ℕ) where
    -- When `_change_root_permissions` returns, the device has just told by `whoami` that commands
    -- run as the requested user.
    pub change_root_permissions-RunsAs :
        (timeout retries : ℕ) (root : Bool)
        → Ensures
            (change_root_permissions H fuel timeout retries root)
            (RunsAs (requested_user root))
    unfolding change_root_permissions
    change_root_permissions-RunsAs timeout retries root = Ensures-last _ (get_state H) _ λ current.
        (Ensures-bind (Returned (whoami H)) (RunsAs (requested_user root)) (whoami H) _
          (Ensures-Returned (whoami H))
          λ user s' seen. elim (Bool-cases (str_eq user (requested_user root))) [
            | inl already ↦
                rw already (subst (λ u. Returned (whoami H) u s') ((eq_iff user _).0 already) seen)
            | inr other ↦ rw other ((switched current).at s')
          ])
      where
        switched :
            (current : DeviceState)
            → Ensures
                (check_output H false
                    (line (root_command root))
                    (record adb_defaults { assert_ok = false })
                  >>= λ _. sleep H 250 >>= λ _.
                      wait_for_state H fuel (member current) timeout 2000 >>= λ _.
                      verify_attempts H retries (requested_user root))
                (RunsAs (requested_user root))
        switched current =
            Ensures-last _
              (check_output H false (line (root_command root))
                (record adb_defaults { assert_ok = false }))
              _
              λ _. Ensures-last _ (sleep H 250) _ λ _.
                Ensures-last _ (wait_for_state H fuel (member current) timeout 2000) _
                  λ _. verify_attempts-RunsAs retries (requested_user root)

-- A change of the root permissions comes to an end.
module _ (H : Host) (L : IsLawful H) {fuel : ℕ} (R : ReleasesPort H fuel) where
  whoami-Terminates : Terminates (host_time H L) (whoami H)
  unfolding whoami
  whoami-Terminates =
      Terminates-bind _ _ (shell-Terminates H L (line "whoami") adb_defaults)
        (λ output. Terminates-pure (strip output))

  verify_attempts-Terminates :
      (retries : ℕ) (user : String) → Terminates (host_time H L) (verify_attempts H retries user)
  unfolding verify_attempts verify_user
  verify_attempts-Terminates zero user = Terminates-raise command_failed
  verify_attempts-Terminates (suc retries) user =
      Terminates-try (verify_user H user) is_assertion_error _
        (Terminates-bind (whoami H) _ whoami-Terminates (λ told.
          Terminates-if (str_eq told user) _ _ (Terminates-pure tt)
            (Terminates-raise command_failed)))
        (λ _.
          Terminates-bind (sleep H 1000) _ (sleep-Terminates H L 1000)
            (λ _. verify_attempts-Terminates retries user))

  -- A change of the root permissions ends, by a return or by an exception, if the fuel exceeds its
  -- limit in milliseconds, time does not run backwards, a clock shows it and a sleep lasts as long
  -- as asked, and the socket of a server that `adb kill-server` has killed disappears from the
  -- listings of `ss` within the fuel.
  pub change_root_permissions-Terminates :
      (timeout retries : ℕ) (root : Bool)
      → timeout < fuel
      → Terminates (host_time H L) (change_root_permissions H fuel timeout retries root)
  unfolding change_root_permissions
  change_root_permissions-Terminates timeout retries root enough =
      Terminates-bind (get_state H) _ (get_state-Terminates H L) λ current.
        Terminates-bind (whoami H) _ whoami-Terminates λ user.
          Terminates-if (str_eq user (requested_user root)) _ _ (Terminates-pure tt) (
            Terminates-bind
              (check_output H false (line (root_command root))
                (record adb_defaults { assert_ok = false }))
              _
              (check_output-Terminates H L false (line (root_command root))
                (record adb_defaults { assert_ok = false }))
              λ _. Terminates-bind (sleep H 250) _ (sleep-Terminates H L 250) λ _.
                Terminates-bind (wait_for_state H fuel (member current) timeout 2000) _
                  (wait_for_state-Terminates H L R (member current) timeout 2000 (omega arith)
                    enough)
                  λ _. verify_attempts-Terminates retries (requested_user root))
