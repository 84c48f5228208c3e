-- ===== src/Tests/ConfigRuns.antt =====
-- The theorems on `Config`, on the search for its file and on `execute_command`, at concrete inputs.
use coppercomm.Prelude.{
  ◌≡◌, refl, ◌≢◌, ◌↔◌, String, true, false, none, some, List, [], ◌∷◌, split_lines, re_error, arith,
  join, all, split_on, str_eq, if◌then◌else◌, ok, raised, index_error, attribute_error,
  command_failed, ℤ, pos, contains_int, lstrip, rstrip,
}
use coppercomm.Host.{Completion, completed}
use coppercomm.LocalConsole.{defaults, execute_words, grep}
use coppercomm.LocalConsole.Outcomes.{execute_words-command_failed}
use coppercomm.Config.{Config, follow, has_entry, get_item, get}
use coppercomm.Config.Value.{
  Json, Items, Fields, int, str, arr, obj, nil, cons, end, field, int_of, member,
}
use coppercomm.Config.Entries.{
  seen, behind, dotless, has_entry-seen, has_entry-index_error, get_item-join,
}
use coppercomm.Config.Getters.{
  serial_names, matching_devices, device_matches, get_extra_devices, as_items,
}
use coppercomm.Config.Finder.{FileSystem, Request, find_config_file, or_not_found}
use coppercomm.Config.Finder.Search.{candidates, first_file, IsTree, find_config_file-first_file}
use coppercomm.Config.Getters.Fits.{Fits}
use coppercomm.Config.Getters.Extra.{Picks, get_extra_devices-Picks}
use coppercomm.Config.Finder.Cached.{load_config}
use coppercomm.Tests.Bench.{bench, replay, said}

-- {"HOST": {"tty": "/dev/ttyUSB0"}, "version": "2", "ports": [7, 8]}
abbrev tty_entry : Json
tty_entry = obj (field "tty" (str "/dev/ttyUSB0") end)

abbrev ports : Items
ports = cons (int (pos 7)) (cons (int (pos 8)) nil)

abbrev sample : Config
sample = record {
  device_config_data =
      field "HOST" tty_entry (field "version" (str "2") (field "ports" (arr ports) end));
}

second_port_runs : get_item sample "ports.1" ≡ ok (int (pos 8))
unfolding get_item int_of
second_port_runs = refl

has_entry-seen_example : has_entry sample "ports.-1" ≡ seen (get_item sample "ports.-1")
has_entry-seen_example = has_entry-seen sample "ports.-1"

index_of_two : int_of "2" ≡ some (pos 2)
unfolding int_of lstrip rstrip
index_of_two = refl

ports_followed : follow ("ports" ∷ []) (obj sample.device_config_data) ≡ ok (arr ports)
unfolding follow
ports_followed = refl

path_split : split_on b'.' "ports.2" ≡ "ports" ∷ "2" ∷ []
unfolding split_on
path_split = refl

has_entry-index_error_example :
    (has_entry sample "ports.2" ≡ raised index_error)
    × (get sample "ports.2" (int (pos 0)) ≡ raised index_error)
has_entry-index_error_example =
    has_entry-index_error sample "ports.2" ("ports" ∷ []) "2" ports 2 (int (pos 0)) path_split
      ports_followed index_of_two (omega arith)

tty_behind :
    behind ("HOST" ∷ "tty" ∷ []) (obj sample.device_config_data) ≡ some (str "/dev/ttyUSB0")
unfolding member
tty_behind = refl

keys_plain : all dotless ("HOST" ∷ "tty" ∷ []) ≡ true
keys_plain = refl

keys_given : ◌≢◌ {A = List String} ("HOST" ∷ "tty" ∷ []) []
keys_given h = cc

get_item-join_example :
    (get_item sample (join "." ("HOST" ∷ "tty" ∷ [])) ≡ ok (str "/dev/ttyUSB0"))
    × (get sample (join "." ("HOST" ∷ "tty" ∷ [])) (str "none") ≡ ok (str "/dev/ttyUSB0"))
    × (has_entry sample (join "." ("HOST" ∷ "tty" ∷ [])) ≡ ok true)
get_item-join_example =
    get_item-join sample ("HOST" ∷ "tty" ∷ []) (str "/dev/ttyUSB0") (str "none") keys_plain
      keys_given tty_behind

-- {"HOST": {"tty": "/dev/ttyUSB0"}, "version": "2"}
abbrev two_entries : Fields
two_entries = field "HOST" tty_entry (field "version" (str "2") end)

serials_run : serial_names two_entries ≡ ok ("HOST" ∷ [])
unfolding serial_names
serials_run = refl

abbrev camera : Json
camera = obj (field "device_type" (str "camera") (field "name" (str "front") end))

abbrev switch : Json
switch = obj (field "device_type" (str "switch") (field "name" (str "front") end))

abbrev extra_devices : Items
extra_devices = cons switch (cons camera nil)

cameras_run :
    matching_devices (device_matches (some "camera") (("name", "front") ∷ [])) extra_devices
    ≡ ok (camera ∷ [])
unfolding matching_devices device_matches
cameras_run = refl

-- {"EXTRA_DEVICES": [a switch, a camera]}
abbrev with_extras : Config
with_extras = record { device_config_data = field "EXTRA_DEVICES" (arr extra_devices) end }

front_cameras_run :
    get_extra_devices with_extras (some "camera") (("name", "front") ∷ []) ≡ ok (camera ∷ [])
unfolding get_extra_devices
front_cameras_run = refl

get_extra_devices-Picks_example :
    (value : Json) × (items : Items) × (member "EXTRA_DEVICES" with_extras.device_config_data
      ≡ some value)
    × (as_items value ≡ ok items)
    × Picks (Fits (some "camera") (("name", "front") ∷ [])) (camera ∷ []) items
get_extra_devices-Picks_example =
    get_extra_devices-Picks with_extras (some "camera") (("name", "front") ∷ []) (camera ∷ [])
      front_cameras_run

-- A text in place of the list is gone through by its characters, which have no attributes.
letters_run :
    get_extra_devices
      (record { device_config_data = field "EXTRA_DEVICES" (str "ab") end })
      none
      (("name", "front") ∷ [])
    ≡ raised attribute_error
unfolding get_extra_devices
letters_run = refl

-- A directory "/etc/bench" with a configuration file in it, which the environment variable names.
abbrev disk : FileSystem
disk = record {
  getenv = λ name. if str_eq name "DEVICE_CONFIG_FILE" then some "/etc/bench" else none;
  expand_user = λ path. path;
  is_file = λ path. str_eq path "/etc/bench/device_config.json";
  is_dir = λ path. true;
  under =
      λ path name. if str_eq path "/etc/bench" then "/etc/bench/device_config.json" else "/none";
  cwd = "/work";
  home = "/home/user";
  load_json = λ path. ok two_entries;
}

-- Every file is gone.
abbrev empty_disk : FileSystem
empty_disk = record disk { is_file = λ path. false }

abbrev default_request : Request
default_request = record {
  path = none;
  filename = "device_config.json";
  env_variable = "DEVICE_CONFIG_FILE";
}

disk-IsTree : IsTree disk
unfolding IsTree
disk-IsTree path name here = refl

find_config_file-first_file_example :
    find_config_file disk default_request
    ≡ or_not_found (first_file disk (candidates disk default_request))
find_config_file-first_file_example = find_config_file-first_file disk disk-IsTree default_request

loaded_runs :
    (load_config disk default_request []).0
    ≡ ok (record { device_config_data = two_entries }, "/etc/bench/device_config.json")
unfolding load_config
loaded_runs = refl

abbrev failing : Completion
failing = completed "no such file" (pos 1)

execute_words-command_failed_example :
    ((execute_words bench ("ls" ∷ "x" ∷ []) defaults (replay (failing ∷ []))).0
      ≡ raised command_failed)
    ↔ ((output : String) × (code : ℤ) × (text : String) × (failing ≡ completed output code)
        × (grep bench none output ≡ ok text)
        × (true ≡ true)
        × (contains_int (pos 0 ∷ []) code ≡ false))
execute_words-command_failed_example =
    execute_words-command_failed bench ("ls" ∷ "x" ∷ []) defaults (replay (failing ∷ []))

echo_runs : (execute_words bench ("echo" ∷ "x" ∷ []) defaults (replay (said "x" ∷ []))).0 ≡ ok "x"
unfolding execute_words
echo_runs = refl

-- A pattern that `re` does not take raises before the exit code is looked at.
bad_regrep_runs :
    (execute_words bench
      ("ls" ∷ [])
      (record defaults { regrep = some "(" })
      (replay (failing ∷ []))).0
    ≡ raised re_error
unfolding execute_words grep split_lines
bad_regrep_runs = refl
