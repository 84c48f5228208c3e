-- ===== src/Factory.antt =====
-- src/coppercomm/device_factory.py, class `DeviceFactory`: the connections that a configuration
-- describes. A connection is what its constructor is given. The objects that `lru_cache` hands out
-- again are not told from equal ones, but for serial ports, which are opened once.
pub mod Ports
pub mod Fixtures
use coppercomm.Prelude.{
  ℕ, ◌≡◌, refl, ◌∙◌, ap, subst, ◌⊎◌, inl, inr, String, str_eq, contains, Bool, true, false, not,
  Option, none, some, List, [], ◌∷◌, map, if◌then◌else◌, pos, Error, config_file_parse_error,
  device_resource_unavailable, Act, Result, ok, raised, no_fuel, pure, raise, lift, gets, modify,
}
use coppercomm.Config.{Config, get_item, get, has_entry}
use coppercomm.Config.Value.{Json, int, str}
use coppercomm.Config.Getters.{
  ◌>>=◌, get_qnx_ip, get_extra_devices, at_key, get_name_of_available_serials_in_config,
  get_serial_device_path,
}

-- The arguments of `SSHConnection`.
pub record SshTarget : Type 0 where
  pub ip : Json
  pub port : Json
  pub proxy_command : Option Json

abbrev ssh_port : Json
ssh_port = int (pos 22)

unfoldable pub create_ssh_over_adb : Config → Result SshTarget
unfolding get get_item get_qnx_ip
create_ssh_over_adb config = get config "QNX.port" ssh_port >>= λ port.
    get_item config "QNX.proxy_command" >>= λ proxy_command. get_qnx_ip config >>= λ ip.
    ok (record { ip = ip; port = port; proxy_command = some proxy_command })

unfoldable pub create_broadrreach_ssh : Config → Result SshTarget
unfolding has_entry get get_item
create_broadrreach_ssh config = has_entry config "QNX.proxy_command" >>= λ has_proxy.
    if has_proxy
    then raised config_file_parse_error
    else (get_item config "QNX.ip" >>= λ ip. get config "QNX.port" ssh_port >>= λ port.
        ok (record { ip = ip; port = port; proxy_command = none }))

-- `except ConfigFileParseError`
abbrev pub is_config_error : Error → Bool
is_config_error config_file_parse_error = true
is_config_error _ = false

abbrev pub or_else : Result SshTarget → Result SshTarget → Result SshTarget
or_else (ok t) other = ok t
or_else (raised e) other = if is_config_error e then other else raised e
or_else no_fuel other = no_fuel

unfoldable pub create_qnx_ssh : Config → Result SshTarget
unfolding create_broadrreach_ssh create_ssh_over_adb
create_qnx_ssh config = or_else (create_broadrreach_ssh config) (create_ssh_over_adb config)

-- The ids of the phones, each that of an `Adb` object.
unfoldable pub phone_ids : List Json → Result (List Json)
unfolding at_key
phone_ids [] = ok []
phone_ids (phone ∷ phones) =
    let others = phone_ids phones in
    at_key "adb_device_id" phone >>= λ id. others >>= λ ids. ok (id ∷ ids)

unfoldable pub create_phone_adb : Config → Result (List Json)
unfolding get_extra_devices phone_ids
create_phone_adb config =
    get_extra_devices config (some "phone") (("device_os", "android") ∷ []) >>= phone_ids

-- A configured proxy command is used, and nothing else uses one.
abbrev pub Fits : Config → SshTarget → Type 0
Fits config t =
    (t.proxy_command ≡ none
      → (has_entry config "QNX.proxy_command" ≡ ok false) × (get_item config "QNX.ip" ≡ ok t.ip))
    × ((command : Json)
        → t.proxy_command ≡ some command
        → get_item config "QNX.proxy_command" ≡ ok command)

abbrev FitsAny : Config → Result SshTarget → Type 0
FitsAny config (ok t) = Fits config t
FitsAny config (raised e) = Unit
FitsAny config no_fuel = Unit

create_ssh_over_adb-Fits : (config : Config) → FitsAny config (create_ssh_over_adb config)
unfolding create_ssh_over_adb
create_ssh_over_adb-Fits config =
    from_port (get config "QNX.port" ssh_port) (get_item config "QNX.proxy_command")
      (get_qnx_ip config) refl
  where
    from_port :
        (port proxy ip : Result Json)
        → get_item config "QNX.proxy_command" ≡ proxy
        → FitsAny config (
            port >>= λ port. proxy >>= λ proxy_command.
            ip >>= λ ip. ok (record { ip = ip; port = port; proxy_command = some proxy_command }))
    from_port (ok port) (ok proxy) (ok ip) e = (λ x. absurd (cc), λ command x. e ∙ ap ok (cc))
    from_port (ok port) (ok proxy) (raised x) e = tt
    from_port (ok port) (ok proxy) no_fuel e = tt
    from_port (ok port) (raised x) ip e = tt
    from_port (ok port) no_fuel ip e = tt
    from_port (raised x) proxy ip e = tt
    from_port no_fuel proxy ip e = tt

create_broadrreach_ssh-Fits : (config : Config) → FitsAny config (create_broadrreach_ssh config)
unfolding create_broadrreach_ssh
create_broadrreach_ssh-Fits config =
    from_entry (has_entry config "QNX.proxy_command") (get_item config "QNX.ip")
      (get config "QNX.port" ssh_port) refl refl
  where
    from_entry :
        (entry : Result Bool) (ip port : Result Json)
        → has_entry config "QNX.proxy_command" ≡ entry
        → get_item config "QNX.ip" ≡ ip
        → FitsAny config (
            entry >>= λ has_proxy.
            if has_proxy
            then raised config_file_parse_error
            else (ip >>= λ ip.
                port >>= λ port. ok (record { ip = ip; port = port; proxy_command = none })))
    from_entry (ok true) ip port e f = tt
    from_entry (ok false) (ok ip) (ok port) e f = (λ x. (e, f), λ command x. absurd (cc))
    from_entry (ok false) (ok ip) (raised x) e f = tt
    from_entry (ok false) (ok ip) no_fuel e f = tt
    from_entry (ok false) (raised x) port e f = tt
    from_entry (ok false) no_fuel port e f = tt
    from_entry (raised x) ip port e f = tt
    from_entry no_fuel ip port e f = tt

or_else-Fits :
    (config : Config) (r other : Result SshTarget)
    → FitsAny config r
    → FitsAny config other
    → FitsAny config (or_else r other)
or_else-Fits config (ok t) other fr fo = fr
or_else-Fits config (raised e) other fr fo = caught (is_config_error e)
  where
    caught : (b : Bool) → FitsAny config (if b then other else raised e)
    caught true = fo
    caught false = tt
or_else-Fits config no_fuel other fr fo = tt

-- What `create_qnx_ssh` returns fits the configuration.
pub create_qnx_ssh-Fits :
    (config : Config) (t : SshTarget) → create_qnx_ssh config ≡ ok t → Fits config t
unfolding create_qnx_ssh
create_qnx_ssh-Fits config t e = subst (FitsAny config) e (
    or_else-Fits config (create_broadrreach_ssh config) (create_ssh_over_adb config)
      (create_broadrreach_ssh-Fits config) (create_ssh_over_adb-Fits config))
