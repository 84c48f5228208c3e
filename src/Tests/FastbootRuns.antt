-- ===== src/Tests/FastbootRuns.antt =====
-- Scenarios of tests/test_fastboot_interface.py, and the theorems on `Fastboot` at concrete inputs.
use coppercomm.Prelude.{◌≡◌, refl, none, [], ◌∷◌, ok, occurs_in, split, split_lines, inl}
use coppercomm.LocalConsole.{execute_words}
use coppercomm.Fastboot.{fastboot, FastbootSession, fastboot_state, flash}
use coppercomm.Fastboot.Laws.{Addresses, fastboot_state-Addresses}
use coppercomm.Tests.Bench.{bench, replay, said}

abbrev nameless : FastbootSession bench
nameless = record {
  object = record { device_id = none; fastboot_cmd = "fastboot" ∷ [] };
  host = replay (said "1234\tfastboot\n" ∷ said "" ∷ []);
}

-- The first device is adopted, and the next command addresses it.
adopted_runs :
    let (r, s) = fastboot_state bench nameless in
    let (u, s') = flash bench "boot" "boot.img" 60000 s in
    (r ≡ ok fastboot)
    × (u ≡ ok tt)
    × (s'.host.ran
        ≡ ("fastboot" ∷ "devices" ∷ [])
          ∷ ("fastboot" ∷ "-s" ∷ "1234" ∷ "flash" ∷ "boot" ∷ "boot.img" ∷ [])
          ∷ [])
unfolding fastboot_state flash execute_words occurs_in split split_lines
adopted_runs = (refl, refl, refl)

nameless-Addresses : Addresses nameless.object
unfolding Addresses
nameless-Addresses = inl refl

fastboot_state-Addresses_example : Addresses (fastboot_state bench nameless).1.object
fastboot_state-Addresses_example = fastboot_state-Addresses bench nameless nameless-Addresses
