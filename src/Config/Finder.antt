-- ===== src/Config/Finder.antt =====
-- `find_config_file` and `load_config` of src/coppercomm/config_file_parser.py. The file system and the
-- environment are a parameter; a path is a text.
pub mod Search
pub mod Cached
use coppercomm.Prelude.{
  ℕ, String, Bool, true, false, ◌&&◌, Option, none, some, List, [], ◌∷◌, if◌then◌else◌, str_eq,
  truthy, Error, config_file_parse_error, Result, ok, raised, no_fuel, Act,
}
use coppercomm.Config.{Config}
use coppercomm.Config.Value.{Fields}

pub record FileSystem : Type 0 where
  pub getenv : String → Option String
  pub expand_user : String → String
  pub is_file : String → Bool
  pub is_dir : String → Bool
  -- `path / name`
  pub under : String → String → String
  pub cwd : String
  pub home : String
  -- `json.load` of an opened file
  pub load_json : String → Result Fields

-- `DEFAULT_CONFIG_ENV_VARIABLE` and `DEFAULT_CONFIG_FILENAME`
abbrev pub default_config_env_variable : String
default_config_env_variable = "DEVICE_CONFIG_FILE"

abbrev pub default_config_filename : String
default_config_filename = "device_config.json"

-- The file itself, or the file of that name in a directory.
unfoldable pub file_or_inside : FileSystem → String → String → Option String
file_or_inside fs path filename =
    if fs.is_file path
    then some path
    else if fs.is_dir path && fs.is_file (fs.under path filename)
    then some (fs.under path filename)
    else none

unfoldable pub config_file_from_variable : FileSystem → String → String → Option String
unfolding file_or_inside
config_file_from_variable fs env_variable filename = elim (fs.getenv env_variable) [
  | none ↦ none
  | some value ↦ if truthy value then file_or_inside fs (fs.expand_user value) filename else none
]

unfoldable pub config_file_from_path : FileSystem → Option String → String → Option String
unfolding file_or_inside
config_file_from_path fs none filename = none
config_file_from_path fs (some path) filename = file_or_inside fs (fs.expand_user path) filename

unfoldable pub config_file_from_cwd : FileSystem → String → Option String
config_file_from_cwd fs filename =
    if fs.is_file (fs.under fs.cwd filename) then some (fs.under fs.cwd filename) else none

unfoldable pub config_file_from_home_dir : FileSystem → String → Option String
config_file_from_home_dir fs filename =
    if fs.is_file (fs.under fs.home filename) then some (fs.under fs.home filename) else none

-- `a or b`
abbrev or_else : Option String → Option String → Option String
or_else (some path) other = some path
or_else none other = other

abbrev pub or_not_found : Option String → Result String
or_not_found (some path) = ok path
or_not_found none = raised config_file_parse_error

-- The arguments of `find_config_file` and `load_config`.
pub record Request : Type 0 where
  pub path : Option String
  pub filename : String
  pub env_variable : String

unfoldable pub find_config_file : FileSystem → Request → Result String
unfolding config_file_from_path config_file_from_variable config_file_from_cwd
    config_file_from_home_dir
find_config_file fs q = or_not_found (
    or_else (config_file_from_path fs q.path q.filename) (
      or_else (config_file_from_variable fs q.env_variable q.filename)
        (or_else (config_file_from_cwd fs q.filename) (config_file_from_home_dir fs q.filename))))

-- What one call of the function under `lru_cache` computes.
abbrev load_at : FileSystem → Result String → Result (Config × String)
load_at fs (ok file) = elim (fs.load_json file) [
  | ok data_ ↦ ok (record { device_config_data = data_ }, file)
  | raised e ↦ raised e
  | no_fuel ↦ no_fuel
]
load_at fs (raised e) = raised e
load_at fs no_fuel = no_fuel

unfoldable pub read_config : FileSystem → Request → Result (Config × String)
unfolding find_config_file
read_config fs q = load_at fs (find_config_file fs q)
