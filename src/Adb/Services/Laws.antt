-- ===== src/Adb/Services/Laws.antt =====
-- The names that a listing of services gives, and the wait for one of them.
use coppercomm.Prelude.{
  ℕ, ◌<◌, ◌≡◌, refl, ◌≢◌, arith, String, true, false, Option, none, some, List, [], ◌∷◌,
  if◌then◌else◌, strip, truthy, split, split_on, drop, contains, assertion_error, Result, ok,
  raised, no_fuel, pure, Bool-cases, inl, inr,
}
use coppercomm.Host.{Host, IsLawful}
use coppercomm.Loops.Total.{Terminates, Terminates-bind, Terminates-if, Terminates-pure}
use coppercomm.Loops.Results.{After, Ensures, Ensures-bind, Ensures-Returned, Returned, Left}
use coppercomm.LocalConsole.{line}
use coppercomm.Adb.{Session, shell, adb_defaults}
use coppercomm.Adb.Ends.{host_time, shell-Terminates, lift-Terminates}
use coppercomm.Adb.Wait.Ends.{waiting-Terminates}
use coppercomm.Adb.Wait.Results.{waiting-Ensures}
use coppercomm.Adb.Services.{
  second_word, add_name, service_names, list_available_system_services, look_for_service,
  wait_for_system_service_availability,
}

second_word-ne-no_fuel : (words : List String) → second_word words ≢ no_fuel
unfolding second_word
second_word-ne-no_fuel [] h = cc
second_word-ne-no_fuel (x ∷ []) h = cc
second_word-ne-no_fuel (x ∷ y ∷ words) h = cc

add_name-ne-no_fuel :
    (name : Result String) (names : Result (List String))
    → name ≢ no_fuel
    → names ≢ no_fuel
    → add_name name names ≢ no_fuel
add_name-ne-no_fuel (ok name) (ok names) a b h = cc
add_name-ne-no_fuel (ok name) (raised e) a b h = cc
add_name-ne-no_fuel (ok name) no_fuel a b h = b refl
add_name-ne-no_fuel (raised e) names a b h = cc
add_name-ne-no_fuel no_fuel names a b h = a refl

service_names-ne-no_fuel : (rows : List String) → service_names rows ≢ no_fuel
unfolding service_names
service_names-ne-no_fuel [] = λ h. cc
service_names-ne-no_fuel (row ∷ rows) = elim (Bool-cases (truthy (strip row))) [
  | inl text ↦
      rw text (
        add_name-ne-no_fuel _ _ (second_word-ne-no_fuel (split row))
          (service_names-ne-no_fuel rows))
  | inr blank ↦ rw blank (service_names-ne-no_fuel rows)
]

module _ (H : Host) where
  -- The device has just listed the service.
  abbrev pub Listed : String → Unit {0} → Session H → Type 0
  Listed service _ s =
      (names : List String) × Returned (list_available_system_services H) names s
      × (contains names service ≡ true)

  look_for_service-Left :
      (service : String) → Ensures (look_for_service H service) (Left (Listed service))
  unfolding look_for_service
  look_for_service-Left service =
      Ensures-bind (Returned (list_available_system_services H)) (Left (Listed service))
        (list_available_system_services H) _ (Ensures-Returned (list_available_system_services H))
        found
    where
      found :
          (names : List String) (s : Session H)
          → Returned (list_available_system_services H) names s
          → After {S = Session H} {A = Option (Unit {0})}
              (Left (Listed service))
              ((if contains names service then pure (some tt) else pure none) s)
      found names s seen = elim (Bool-cases (contains names service)) [
        | inl here ↦ rw here (names, seen, here)
        | inr other ↦ rw other tt
      ]

  -- When `wait_for_system_service_availability` returns, the device has just listed the service.
  pub wait_for_system_service_availability-Listed :
      (fuel : ℕ) (service : String) (timeout : ℕ)
      → Ensures (wait_for_system_service_availability H fuel service timeout) (Listed service)
  unfolding wait_for_system_service_availability
  wait_for_system_service_availability-Listed fuel service timeout =
      waiting-Ensures H (Listed service) fuel timeout 500 assertion_error
        (look_for_service H service) (look_for_service-Left service)

module _ (H : Host) (L : IsLawful H) where
  list_available_system_services-Terminates :
      Terminates (host_time H L) (list_available_system_services H)
  unfolding list_available_system_services
  list_available_system_services-Terminates =
      Terminates-bind (shell H (line "service list") (record adb_defaults { assert_ok = false })) _
        (shell-Terminates H L (line "service list") (record adb_defaults { assert_ok = false }))
        λ output.
          lift-Terminates H L (service_names (drop 1 (split_on 10 output)))
            (service_names-ne-no_fuel (drop 1 (split_on 10 output)))

  -- A wait in `wait_for_system_service_availability` ends, by a return or by an exception, whatever
  -- the device answers, if its fuel exceeds its limit in milliseconds, time does not run backwards,
  -- a clock shows it and a sleep lasts as long as asked.
  pub wait_for_system_service_availability-Terminates :
      (fuel : ℕ) (service : String) (timeout : ℕ)
      → timeout < fuel
      → Terminates (host_time H L) (wait_for_system_service_availability H fuel service timeout)
  unfolding wait_for_system_service_availability look_for_service
  wait_for_system_service_availability-Terminates fuel service timeout enough =
      waiting-Terminates H L (look_for_service H service) assertion_error fuel timeout 500
        (omega arith) enough
        (Terminates-bind (list_available_system_services H) _
          list_available_system_services-Terminates
          λ names.
            Terminates-if (contains names service) _ _ (Terminates-pure (some tt))
              (Terminates-pure none))
