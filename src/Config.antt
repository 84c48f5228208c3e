-- ===== src/Config.antt =====
-- src/coppercomm/config_file_parser.py, class `Config`: entries by a dotted path, and the named getters.
pub mod Value
pub mod Entries
pub mod Finder
pub mod Getters
use coppercomm.Prelude.{
  ℕ, String, Bool, true, false, Option, none, some, List, [], ◌∷◌, if◌then◌else◌, split_on, Error,
  key_error, config_file_parse_error, Result, ok, raised, no_fuel,
}
use coppercomm.Config.Value.{Json, obj, Fields, item, not_there, fails, step}

-- `throw_config_error_on_value_missing_in_config`: a `KeyError` comes out as a
-- `ConfigFileParseError`, anything else as it is.
unfoldable pub throw_config_error : {A : Type 0} → Result A → Result A
throw_config_error (ok a) = ok a
throw_config_error (raised key_error) = raised config_file_parse_error
throw_config_error (raised e) = raised e
throw_config_error no_fuel = no_fuel

-- The loop of `__getitem__` over the parts of the path.
unfoldable pub follow : List String → Json → Result Json
unfolding step
follow [] value = ok value
follow (part ∷ parts) value = elim (step value part) [
  | item next ↦ follow parts next
  | not_there ↦ raised key_error
  | fails e ↦ raised e
]

-- The loop of `has_entry`.
unfoldable pub reaches : List String → Json → Result Bool
unfolding step
reaches [] value = ok true
reaches (part ∷ parts) value = elim (step value part) [
  | item next ↦ reaches parts next
  | not_there ↦ ok false
  | fails e ↦ raised e
]

-- `Config`, whose data is the top object of the file.
pub record Config : Type 0 where
  pub device_config_data : Fields

unfoldable pub has_entry : Config → String → Result Bool
unfolding reaches split_on
has_entry config entry_path = reaches (split_on b'.' entry_path) (obj config.device_config_data)

unfoldable pub get_item : Config → String → Result Json
unfolding throw_config_error follow split_on
get_item config entry_path =
    throw_config_error (follow (split_on b'.' entry_path) (obj config.device_config_data))

abbrev or_default : Result Json → Json → Result Json
or_default (raised config_file_parse_error) fallback = ok fallback
or_default r fallback = r

unfoldable pub get : Config → String → Json → Result Json
unfolding get_item
get config entry_path fallback = or_default (get_item config entry_path) fallback
