-- ===== src/Adb/Services.antt =====
-- `Adb.list_available_system_services` and `wait_for_system_service_availability`.
pub mod Laws
use Prim.Native.Char.{code}
use coppercomm.Prelude.{
  ℕ, ◌+◌, ◌==◌, String, Bool, true, false, ◌&&◌, Option, none, some, List, [], ◌∷◌, if◌then◌else◌,
  str_eq, strip, truthy, split, split_on, drop, contains, index_error, assertion_error, Act, Result,
  ok, raised, no_fuel, pure, raise, lift, ◌>>=◌, ◌>>◌,
}
use coppercomm.Host.{Host}
use coppercomm.LocalConsole.{line, Options}
use coppercomm.Adb.{Session, shell, adb_defaults}
use coppercomm.Adb.Wait.{poll, resume, or_raise}

-- `word.rstrip(":")`
unfoldable pub rstrip_colons : String → String
rstrip_colons String.[] = ""
rstrip_colons (String.◌∷◌ c s) =
    let rest = rstrip_colons s in if code c == 58 && str_eq rest "" then "" else String.◌∷◌ c rest

-- `line.split()[1].rstrip(":")`, of the words of a line.
unfoldable pub second_word : List String → Result String
unfolding rstrip_colons
second_word (number ∷ name ∷ words) = ok (rstrip_colons name)
second_word words = raised index_error

abbrev add_name : Result String → Result (List String) → Result (List String)
add_name (ok name) (ok names) = ok (name ∷ names)
add_name (ok name) (raised e) = raised e
add_name (ok name) no_fuel = no_fuel
add_name (raised e) names = raised e
add_name no_fuel names = no_fuel

-- The list comprehension, over the lines behind the first.
unfoldable pub service_names : List String → Result (List String)
unfolding second_word split strip
service_names [] = ok []
service_names (row ∷ rows) =
    let names = service_names rows in
    if truthy (strip row) then add_name (second_word (split row)) names else names

module _ (H : Host) where
  unfoldable pub list_available_system_services : Act (Session H) (List String)
  unfolding shell service_names split_on
  list_available_system_services = do
    output ← shell H (line "service list") (record adb_defaults { assert_ok = false })
    lift (service_names (drop 1 (split_on 10 output)))

  unfoldable pub look_for_service : String → Act (Session H) (Option (Unit {0}))
  unfolding list_available_system_services
  look_for_service service = do
    available_services ← list_available_system_services
    if contains available_services service then pure (some tt) else pure none

  unfoldable pub wait_for_system_service_availability : ℕ → String → ℕ → Act (Session H) (Unit {0})
  unfolding look_for_service
  wait_for_system_service_availability fuel service timeout = do
    available ← poll H fuel timeout (look_for_service service >>= resume H 500)
    or_raise H assertion_error available
