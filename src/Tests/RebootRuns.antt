-- ===== src/Tests/RebootRuns.antt =====
-- The theorems on restarts, services, files and the attributes of `Adb`, at concrete inputs.
use coppercomm.Prelude.{
  ◌≡◌, refl, true, none, some, [], ◌∷◌, arith, ok, pure, ◌>>=◌, difference, occurs_in,
}
use coppercomm.Loops.{while_before}
use coppercomm.Shlex.{shlex_split}
use coppercomm.Loops.Total.{Terminates}
use coppercomm.Loops.Results.{After, Ensures}
use coppercomm.LocalConsole.{execute_words}
use coppercomm.Adb.{Adb, Session, on_host, new_adb, set_device_id, adb_defaults}
use coppercomm.Adb.Devices.{get_all_devices}
use coppercomm.Adb.Ends.{host_time}
use coppercomm.Adb.Files.{pull, pull-runs}
use coppercomm.Adb.Server.{restart_server}
use coppercomm.Adb.Server.Ends.{restart_server-Terminates}
use coppercomm.Adb.State.{find_device}
use coppercomm.Adb.State.Laws.{Adopts, find_device-Adopts}
use coppercomm.Adb.Reboot.{reboot_and_wait, mount_filesytem_as_root}
use coppercomm.Adb.Reboot.Ends.{reboot_and_wait-Terminates, mount_filesytem_as_root-Terminates}
use coppercomm.Adb.Services.{wait_for_system_service_availability}
use coppercomm.Adb.Services.Laws.{
  Listed, wait_for_system_service_availability-Listed,
  wait_for_system_service_availability-Terminates,
}
use coppercomm.Adb.Reboot.Laws.{
  Rebooted, Remounted, reboot_and_wait-Rebooted, mount_filesytem_as_root-Remounted,
}
use coppercomm.Tests.Bench.{bench, bench-IsLawful, bench-ReleasesPort, session, said, replay}

-- A device that tells one boot id before its restart, and another at the second reading after it.
abbrev two_ids : Session bench
two_ids = session (said "a" ∷ said "" ∷ said "a" ∷ said "b" ∷ [])

reboot_and_wait-Rebooted_example :
    After (Rebooted bench two_ids) (reboot_and_wait bench 1000 900 (some "recovery") two_ids)
reboot_and_wait-Rebooted_example = reboot_and_wait-Rebooted bench 1000 900 (some "recovery") two_ids

-- The restart of that device is seen.
two_ids_runs : (reboot_and_wait bench 10000 9000 (some "recovery") two_ids).0 ≡ ok tt
unfolding reboot_and_wait while_before shlex_split execute_words
two_ids_runs = refl

reboot_and_wait-Terminates_example :
    Terminates (host_time bench bench-IsLawful) (reboot_and_wait bench 1000 900 (some "recovery"))
reboot_and_wait-Terminates_example =
    reboot_and_wait-Terminates bench bench-IsLawful 1000 900 (some "recovery") (omega arith)

mount_filesytem_as_root-Terminates_example :
    Terminates (host_time bench bench-IsLawful) (mount_filesytem_as_root bench 240001)
mount_filesytem_as_root-Terminates_example =
    mount_filesytem_as_root-Terminates bench bench-IsLawful
      (bench-ReleasesPort 240001 (omega arith)) (omega arith)

wait_for_system_service_availability-Listed_example :
    Ensures (wait_for_system_service_availability bench 1000 "car" 900) (Listed bench "car")
wait_for_system_service_availability-Listed_example =
    wait_for_system_service_availability-Listed bench 1000 "car" 900

wait_for_system_service_availability-Terminates_example :
    Terminates
      (host_time bench bench-IsLawful)
      (wait_for_system_service_availability bench 1000 "car" 900)
wait_for_system_service_availability-Terminates_example =
    wait_for_system_service_availability-Terminates bench bench-IsLawful 1000 "car" 900
      (omega arith)

mount_filesytem_as_root-Remounted_example :
    Ensures (mount_filesytem_as_root bench 1000) (Remounted bench 1000)
mount_filesytem_as_root-Remounted_example = mount_filesytem_as_root-Remounted bench 1000

-- A server that runs when it is restarted: three listings and two pauses pass before it is up.
restart_server_runs :
    let (r, s) = restart_server bench 10 (session (said "" ∷ said "" ∷ [])) in
    (r ≡ ok tt)
    × (s.host.clock ≡ 7)
    × (s.host.ran
        ≡ ("adb" ∷ "-s" ∷ "xyz" ∷ "kill-server" ∷ [])
          ∷ ("adb" ∷ "-s" ∷ "xyz" ∷ "start-server" ∷ [])
          ∷ [])
unfolding restart_server shlex_split execute_words occurs_in
restart_server_runs = (refl, refl, refl)

restart_server-Terminates_example :
    Terminates (host_time bench bench-IsLawful) (restart_server bench 10)
restart_server-Terminates_example =
    restart_server-Terminates bench bench-IsLawful (bench-ReleasesPort 10 (omega arith))

pull-runs_example :
    pull bench "/sdcard/my file" "it's" (some 60000) (session (said "" ∷ []))
    ≡ (on_host bench (
            execute_words bench
              ("adb" ∷ "-s" ∷ "xyz" ∷ "pull" ∷ "/sdcard/my file" ∷ "it's" ∷ [])
              (record adb_defaults { timeout = some 60000 }))
          >>= λ _. pure tt)
        (session (said "" ∷ []))
pull-runs_example = pull-runs bench "/sdcard/my file" "it's" (some 60000) (session (said "" ∷ []))

abbrev unnamed : Adb
unnamed = record { adb_device_id = none; adb_cmd = "adb" ∷ []; ignore_ids = "R5" ∷ [] }

abbrev two_attached : Session bench
two_attached = record {
  adb = unnamed;
  host = replay (said "List of devices attached\nR5\tdevice\nemulator-5554\tdevice\n" ∷ []);
}

abbrev one_adopted : Session bench
one_adopted = record {
  adb = set_device_id "emulator-5554" unnamed;
  host = (get_all_devices bench two_attached.host).1;
}

find_device_runs : find_device bench two_attached ≡ (ok true, one_adopted)
unfolding find_device get_all_devices execute_words difference
find_device_runs = refl

find_device-Adopts_example : Adopts bench two_attached one_adopted
find_device-Adopts_example = find_device-Adopts bench two_attached one_adopted refl find_device_runs

named_xyz_runs :
    new_adb (some "xyz") none
    ≡ ok (record {
      adb_device_id = some "xyz";
      adb_cmd = "adb" ∷ "-s" ∷ "xyz" ∷ [];
      ignore_ids = [];
    })
unfolding new_adb
named_xyz_runs = refl
