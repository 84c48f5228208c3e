-- ===== src/Adb.antt =====
-- src/coppercomm/device_adb/adb_interface.py, class `Adb`: its attributes, the constructor, the
-- property setters and the two calls through which everything reaches the device. The methods
-- stand in the modules below.

pub mod Devices
pub mod State
pub mod Server
pub mod Wait
pub mod Root
pub mod Ends
pub mod Files
pub mod Reboot
pub mod Services
pub mod Version
use coppercomm.Prelude.{
  ℕ, String, ◌≡◌, ◌==◌, arith, Bool, true, false, ◌&&◌, not, Option, none, some, List, [], ◌∷◌,
  ◌++◌, if◌then◌else◌, truthy, dedup_from, Act, Result, ok, raised, pure, raise, ◌>>=◌,
  coppercomm_error,
}
use coppercomm.Host.{Host, read_clock, pause}
use coppercomm.LocalConsole.{Command, Options, defaults, command_words, execute_words}

-- `DeviceState`
pub data DeviceState : Type 0 where
  device recovery offline unauthorized no_adb_device : DeviceState

-- `==` on the enumeration.
abbrev state_number : DeviceState → ℕ
state_number device = 0
state_number recovery = 1
state_number offline = 2
state_number unauthorized = 3
state_number no_adb_device = 4

unfoldable pub same_state : DeviceState → DeviceState → Bool
same_state a b = state_number a == state_number b

pub same_state_sound : (a b : DeviceState) → same_state a b ≡ true → a ≡ b
unfolding same_state
same_state_sound a b h = ground arith

-- The private attributes; `ignore_ids` is a set, kept in the order of first occurrence.
pub record Adb : Type 0 where
  pub adb_device_id : Option String
  pub adb_cmd : List String
  pub ignore_ids : List String

-- `if self._adb_device_id:`
abbrev pub is_given : Option String → Bool
is_given none = false
is_given (some id) = truthy id

-- `if ignore_ids:`
abbrev pub is_listed : Option (List String) → Bool
is_listed none = false
is_listed (some []) = false
is_listed (some (x ∷ xs)) = true

-- `["adb"]`, with `-s` and the id if there is one.
abbrev pub base_command : Option String → List String
base_command none = "adb" ∷ []
base_command (some id) = if truthy id then "adb" ∷ "-s" ∷ id ∷ [] else "adb" ∷ []

-- `set(ignore_ids) if ignore_ids is not None else set()`
unfoldable pub to_set : Option (List String) → List String
unfolding dedup_from
to_set none = []
to_set (some ids) = dedup_from [] ids

-- `Adb._validate_attributes`
unfoldable pub validate_attributes : Option String → Option (List String) → Result (Unit {0})
validate_attributes id ids = if is_given id && is_listed ids then raised coppercomm_error else ok tt

abbrev built : Adb → Result (Unit {0}) → Result Adb
built a (ok _) = ok a
built a (raised e) = raised e
built a Result.no_fuel = Result.no_fuel

-- `Adb(adb_device_id, ignore_ids)`
unfoldable pub new_adb : Option String → Option (List String) → Result Adb
unfolding validate_attributes to_set
new_adb id ids =
    built (record { adb_device_id = id; adb_cmd = base_command id; ignore_ids = to_set ids })
      (validate_attributes id ids)

-- `adb.ignore_ids = ids`
unfoldable pub set_ignore_ids : Option (List String) → Act Adb (Unit {0})
unfolding validate_attributes to_set
set_ignore_ids ids a = elim (validate_attributes a.adb_device_id ids) [
  | ok _ ↦ (ok tt, record a { ignore_ids = to_set ids })
  | raised e ↦ (raised e, a)
  | Result.no_fuel ↦ (Result.no_fuel, a)
]

-- `adb.device_id = value`, which runs no check. The value is a text.
unfoldable pub set_device_id : String → Adb → Adb
set_device_id value a = record a { adb_device_id = some value; adb_cmd = "adb" ∷ "-s" ∷ value ∷ [] }

-- The defaults of `Adb.check_output`: a limit of 30 s.
abbrev pub adb_defaults : Options
adb_defaults = record defaults { timeout = some 30000 }

-- `check_output("get-state", timeout=5, assert_ok=False)` and the like.
abbrev pub unchecked : ℕ → Options
unchecked timeout = record adb_defaults { assert_ok = false; timeout = some timeout }

-- `command.insert(0, "shell")`
abbrev pub insert_shell : Bool → List String → List String
insert_shell shell argv = if shell then "shell" ∷ argv else argv

module _ (H : Host) where
  -- The object with the world that it acts on.
  pub record Session : Type 0 where
    pub adb : Adb
    pub host : H.State

  abbrev pub on_host : {A : Type 0} → Act H.State A → Act Session A
  on_host m s = let (r, h) = m s.host in (r, record s { host = h })

  abbrev pub sleep : ℕ → Act Session (Unit {0})
  sleep d = on_host (pause H d)

  abbrev pub now : Act Session ℕ
  now = on_host (read_clock H)

  -- `self.check_output(command, shell=..., ...)`
  unfoldable pub check_output : Bool → Command → Options → Act Session String
  unfolding command_words
  check_output shell command o = do
    argv ← command_words command
    λ s. on_host (execute_words H (s.adb.adb_cmd ++ insert_shell shell argv) o) s

  -- `self.shell(command, ...)`
  unfoldable pub shell : Command → Options → Act Session String
  unfolding check_output
  shell command o = check_output true command o

  -- The words that a list object holds after it was passed to `check_output`, which inserts into
  -- the caller's list.
  unfoldable pub list_after : Bool → List String → List String
  list_after shell argv = insert_shell shell argv
