-- ===== src/Config/Getters.antt =====
-- The named getters of `Config` in src/coppercomm/config_file_parser.py.
pub mod Fits
pub mod Extra
use coppercomm.Prelude.{
  String, Bool, true, false, Option, none, some, List, [], ◌∷◌, if◌then◌else◌, str_eq, truthy,
  occurs_in, key_error, type_error, attribute_error, pos, Result, ok, raised, no_fuel,
}
use coppercomm.Config.{Config, throw_config_error}
use coppercomm.Config.Value.{
  Json, str, arr, obj, Items, nil, cons, Fields, end, field, member, item, not_there, fails,
  subscript,
}

infixl 5 ◌>>=◌
abbrev pub ◌>>=◌ : {A B : Type 0} → Result A → (A → Result B) → Result B
ok a >>= f = f a
raised e >>= f = raised e
no_fuel >>= f = no_fuel

-- `value[key]` for a text `key`.
unfoldable pub at_key : String → Json → Result Json
unfolding member
at_key key (obj fields) = elim (member key fields) [
  | none ↦ raised key_error
  | some value ↦ ok value
]
at_key key value = raised type_error

-- `value[0]`; an object has texts for its keys.
unfoldable pub first_item : Json → Result Json
first_item (obj fields) = raised key_error
first_item value = elim (subscript value (pos 0)) [
  | item next ↦ ok next
  | not_there ↦ raised key_error
  | fails e ↦ raised e
]

abbrev top : Config → Json
top config = obj config.device_config_data

-- `self.device_config_data[first]` and `self.device_config_data[first][second]`
unfoldable pub get_top : String → Config → Result Json
unfolding at_key throw_config_error
get_top first config = throw_config_error (at_key first (top config))

unfoldable pub get_nested : String → String → Config → Result Json
unfolding at_key throw_config_error
get_nested first second config = throw_config_error (at_key first (top config) >>= at_key second)

unfoldable pub get_serial_device_path : Config → String → Result Json
unfolding get_nested
get_serial_device_path config serial_device = get_nested serial_device "tty" config

unfoldable pub get_serial_prompt : Config → String → String
get_serial_prompt config serial_device = ""

unfoldable pub get_adb_device_id : Config → Result Json
unfolding get_nested
get_adb_device_id = get_nested "ADB" "adb_device_id"

unfoldable pub get_fastboot_device_id : Config → Result Json
unfolding get_nested
get_fastboot_device_id = get_nested "FASTBOOT" "fastboot_device_id"

unfoldable pub get_device_name : Config → Result Json
unfolding get_top
get_device_name = get_top "DEVICE"

unfoldable pub get_product_name : Config → Result Json
unfolding get_top
get_product_name = get_top "PRODUCT_NAME"

unfoldable pub get_qnx_ip : Config → Result Json
unfolding get_nested
get_qnx_ip = get_nested "QNX" "ip"

unfoldable pub get_qnx_port : Config → Result Json
unfolding get_nested
get_qnx_port = get_nested "QNX" "port"

unfoldable pub get_config_version : Config → Result Json
unfolding member
get_config_version config = elim (member "version" config.device_config_data) [
  | none ↦ ok (str "1")
  | some version ↦ ok version
]

unfoldable pub get_host_ip_address : Config → Result Json
unfolding at_key first_item throw_config_error
get_host_ip_address config =
    throw_config_error
      (at_key "NETWORK" (top config) >>= at_key "HOST" >>= first_item >>= at_key "ip")

unfoldable pub get_oem : Config → Result Json
unfolding get_top
get_oem = get_top "OEM"

unfoldable pub get_network_configuraiton_data : Config → Result Json
unfolding get_top
get_network_configuraiton_data = get_top "NETWORK"

unfoldable pub get_fuse_key_type : Config → Result Json
unfolding get_top
get_fuse_key_type = get_top "FUSED_WITH_KEY"

abbrev is_some_value : Option Json → Bool
is_some_value none = false
is_some_value (some value) = true

abbrev pub is_text : String → Json → Bool
is_text text (str s) = str_eq text s
is_text text value = false

abbrev lists_text : String → Items → Bool
lists_text text nil = false
lists_text text (cons value items) = if is_text text value then true else lists_text text items

-- `text in value`: a key of an object, a part of a text, an item of a list.
unfoldable pub is_in : String → Json → Result Bool
unfolding member occurs_in
is_in text (obj fields) = ok (is_some_value (member text fields))
is_in text (str s) = ok (occurs_in text s)
is_in text (arr items) = ok (lists_text text items)
is_in text value = raised type_error

-- The loop of `get_name_of_available_serials_in_config`.
unfoldable pub serial_names : Fields → Result (List String)
unfolding is_in
serial_names end = ok []
serial_names (field name value rest) =
    let others = serial_names rest in
    is_in "tty" value >>= λ serial. others >>= λ names. ok (if serial then name ∷ names else names)

unfoldable pub get_name_of_available_serials_in_config : Config → Result (List String)
unfolding serial_names
get_name_of_available_serials_in_config config = serial_names config.device_config_data

-- `all(device_param.get(field) == value for field, value in kwargs.items())`, for values that are
-- texts. A device that is no object has no `get`.
unfoldable pub has_fields : List (String × String) → Json → Result Bool
unfolding member
has_fields [] device = ok true
has_fields ((name, value) ∷ filters) (obj fields) = elim (member name fields) [
  | none ↦ ok false
  | some found ↦ if is_text value found then has_fields filters (obj fields) else ok false
]
has_fields (f ∷ filters) device = raised attribute_error

-- `_device_matches`
unfoldable pub device_matches : Option String → List (String × String) → Json → Result Bool
unfolding at_key has_fields
device_matches none filters device = has_fields filters device
device_matches (some device_type) filters device =
    if truthy device_type
    then (at_key "device_type" device >>= λ found.
        if is_text device_type found then has_fields filters device else ok false)
    else has_fields filters device

-- The loop of `get_extra_devices`, run to its end.
unfoldable pub matching_devices : (Json → Result Bool) → Items → Result (List Json)
matching_devices test nil = ok []
matching_devices test (cons device items) =
    let others = matching_devices test items in
    test device >>= λ fits. others >>= λ devices. ok (if fits then device ∷ devices else devices)

-- The keys of an object, and the characters of a text, as Python iterates over them.
unfoldable pub keys_of : Fields → Items
keys_of end = nil
keys_of (field name value rest) = cons (str name) (keys_of rest)

unfoldable pub characters_of : String → Items
characters_of String.[] = nil
characters_of (String.◌∷◌ c s) = cons (str (String.◌∷◌ c "")) (characters_of s)

-- `for device in extra_devices`
unfoldable pub as_items : Json → Result Items
unfolding keys_of characters_of
as_items (arr items) = ok items
as_items (obj fields) = ok (keys_of fields)
as_items (str text) = ok (characters_of text)
as_items value = raised type_error

-- `list(config.get_extra_devices(device_type, **filters))`
unfoldable pub get_extra_devices :
    Config → Option String → List (String × String) → Result (List Json)
unfolding get_top matching_devices device_matches as_items
get_extra_devices config device_type filters =
    get_top "EXTRA_DEVICES" config
    >>= as_items
    >>= matching_devices (device_matches device_type filters)
