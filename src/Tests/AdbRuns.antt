-- ===== src/Tests/AdbRuns.antt =====
-- The scenarios of tests/test_device_adb.py that this part of the library covers, and the theorems
-- on `Adb` at concrete inputs.
use coppercomm.Prelude.{
  ◌≡◌, refl, String, true, some, List, [], ◌∷◌, arith, ok, raised, coppercomm_error, occurs_in,
}
use coppercomm.Loops.{while_before}
use coppercomm.Loops.Total.{Terminates}
use coppercomm.Loops.Results.{Ensures}
use coppercomm.LocalConsole.{execute_words}
use coppercomm.Adb.{Session, DeviceState, recovery, no_adb_device, new_adb}
use coppercomm.Adb.Ends.{host_time}
use coppercomm.Shlex.{shlex_split}
use coppercomm.Adb.State.{get_state, classify}
use coppercomm.Adb.Wait.{wait_for_state, member, to_state, wait_for_boot_complete}
use coppercomm.Adb.Wait.Ends.{wait_for_state-Terminates}
use coppercomm.Adb.Wait.Results.{
  Reached, wait_for_state-Reached, Booted, wait_for_boot_complete-Booted,
}
use coppercomm.Adb.Root.{gain_root_permissions, change_root_permissions}
use coppercomm.Adb.Root.Laws.{
  RunsAs, change_root_permissions-RunsAs, change_root_permissions-Terminates,
}
use coppercomm.Tests.Bench.{bench, bench-IsLawful, bench-ReleasesPort, session, said}

abbrev query : List String
query = "adb" ∷ "-s" ∷ "xyz" ∷ "get-state" ∷ []

abbrev whoami_query : List String
whoami_query = "adb" ∷ "-s" ∷ "xyz" ∷ "shell" ∷ "whoami" ∷ []

abbrev root_session : Session bench
root_session = session (said "device" ∷ said "shell" ∷ said "" ∷ said "device" ∷ said "root\n" ∷ [])

-- test_adb_gain_root_permissions
gain_root_runs :
    let (r, s) = gain_root_permissions bench 1000 10000 3 root_session in
    (r ≡ ok tt)
    × (s.host.ran
        ≡ query ∷ whoami_query ∷ ("adb" ∷ "-s" ∷ "xyz" ∷ "root" ∷ []) ∷ query ∷ whoami_query ∷ [])
unfolding gain_root_permissions get_state wait_for_state while_before shlex_split execute_words
    occurs_in classify
gain_root_runs = (refl, refl)

-- test_adb_gain_root_permissions_already_root
already_root_runs :
    let (r, s) =
      gain_root_permissions bench 1000 10000 3 (session (said "device" ∷ said "root" ∷ [])) in
    (r ≡ ok tt) × (s.host.ran ≡ query ∷ whoami_query ∷ [])
unfolding gain_root_permissions get_state wait_for_state while_before shlex_split execute_words
    occurs_in classify
already_root_runs = (refl, refl)

-- test_adb_get_state_no_device
no_device_runs : (get_state bench (session (said "device xyz not found" ∷ []))).0 ≡ ok no_adb_device
unfolding get_state shlex_split execute_words occurs_in classify
no_device_runs = refl

-- test_adb_consturctor_raise_error
conflict_runs : new_adb (some "xyz") (some ("id1" ∷ "id2" ∷ [])) ≡ raised coppercomm_error
unfolding new_adb
conflict_runs = refl

wait_for_state-Terminates_example :
    Terminates (host_time bench bench-IsLawful) (wait_for_state bench 1000 (member recovery) 500 2)
wait_for_state-Terminates_example =
    wait_for_state-Terminates bench bench-IsLawful (bench-ReleasesPort 1000 (omega arith))
      (member recovery) 500 2 (omega arith) (omega arith)

change_root_permissions-Terminates_example :
    Terminates (host_time bench bench-IsLawful) (change_root_permissions bench 1000 900 3 true)
change_root_permissions-Terminates_example =
    change_root_permissions-Terminates bench bench-IsLawful (bench-ReleasesPort 1000 (omega arith))
      900 3 true (omega arith)

wait_for_state-Reached_example : Ensures (wait_for_state bench 1000 (member recovery) 500 2) (λ u s.
    (expected : DeviceState) × (to_state (member recovery) ≡ ok expected)
    × Reached bench 1000 expected u s)
wait_for_state-Reached_example = wait_for_state-Reached bench 1000 (member recovery) 500 2

wait_for_boot_complete-Booted_example :
    Ensures (wait_for_boot_complete bench 1000 999) (Booted bench 1000)
wait_for_boot_complete-Booted_example = wait_for_boot_complete-Booted bench 1000 999

change_root_permissions-RunsAs_example :
    Ensures (change_root_permissions bench 1000 900 3 true) (RunsAs bench "root")
change_root_permissions-RunsAs_example = change_root_permissions-RunsAs bench 1000 900 3 true
