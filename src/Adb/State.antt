-- ===== src/Adb/State.antt =====
-- `Adb.get_state`: which device is meant, and what `adb get-state` says of it.
pub mod Laws
use coppercomm.Prelude.{
  ℕ, zero, suc, String, Bool, true, false, ◌||◌, Option, none, some, List, [], ◌∷◌, if◌then◌else◌,
  str_eq, occurs_in, strip, difference, Act, Result, ok, raised, pure, raise, lift, ◌>>=◌, ◌>>◌,
  coppercomm_error, value_error,
}
use coppercomm.Host.{Host}
use coppercomm.LocalConsole.{line}
use coppercomm.Adb.{
  DeviceState, device, recovery, offline, unauthorized, no_adb_device, Session, is_given, on_host,
  set_device_id, sleep, check_output, unchecked,
}
use coppercomm.Adb.Devices.{get_all_devices}

-- `DeviceState(value)`
unfoldable pub device_state_of : String → Result DeviceState
device_state_of value =
    if str_eq value "device"
    then ok device
    else if str_eq value "recovery"
    then ok recovery
    else if str_eq value "offline"
    then ok offline
    else if str_eq value "unauthorized"
    then ok unauthorized
    else if str_eq value "not found"
    then ok no_adb_device
    else raised value_error

-- What `get_state` makes of the answer.
unfoldable pub classify : String → Result DeviceState
unfolding device_state_of
classify answer =
    if occurs_in "more than one" answer
    then raised coppercomm_error
    else if occurs_in "unauthorized" answer
    then ok unauthorized
    else if occurs_in "offline" answer
    then ok offline
    else if occurs_in "no devices/emulators found" answer
        || occurs_in "not found" answer
        || occurs_in "cannot connect to daemon" answer
    then ok no_adb_device
    else device_state_of (strip answer)

module _ (H : Host) where
  -- Which device is meant, when none was named: the one that is attached and not ignored. The
  -- result says whether there is one.
  unfoldable pub choose_device : List String → Act (Session H) Bool
  unfolding set_device_id
  choose_device [] s = (ok false, s)
  choose_device (id ∷ []) s = (ok true, record s { adb = set_device_id id s.adb })
  choose_device (x ∷ y ∷ ids) s = (raised coppercomm_error, s)

  unfoldable pub find_device : Act (Session H) Bool
  unfolding choose_device difference
  find_device s = elim (is_given s.adb.adb_device_id) [
    | true ↦ (ok true, s)
    | false ↦
        (do ids ← on_host H (get_all_devices H); choose_device (difference ids s.adb.ignore_ids)) s
  ]

  unfoldable pub query_state : Act (Session H) String
  unfolding check_output
  query_state = check_output H false (line "get-state") (unchecked 5000)

  -- `if "daemon started successfully" in current_state:`
  unfoldable pub ask_again : String → Act (Session H) String
  unfolding query_state
  ask_again answer =
      if occurs_in "daemon started successfully" answer then query_state else pure answer

  -- `while max_retries > 0 and "device still authorizing" in current_state:`
  unfoldable pub await_authorization : ℕ → String → Act (Session H) String
  unfolding query_state
  await_authorization zero answer = pure answer
  await_authorization (suc retries) answer = elim (occurs_in "device still authorizing" answer) [
    | true ↦ sleep H 1000 >>= λ _. query_state >>= λ next. await_authorization retries next
    | false ↦ pure answer
  ]

  unfoldable pub read_state : Act (Session H) DeviceState
  unfolding query_state ask_again await_authorization
  read_state = do
    first ← query_state
    second ← ask_again first
    answer ← await_authorization 10 second
    lift (classify answer)

  abbrev pub when_found : Bool → Act (Session H) DeviceState
  when_found true = read_state
  when_found false = pure no_adb_device

  unfoldable pub get_state : Act (Session H) DeviceState
  unfolding find_device read_state
  get_state = find_device >>= when_found
