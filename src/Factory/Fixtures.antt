-- ===== src/Factory/Fixtures.antt =====
-- src/coppercomm/pytest_fixtures/device_fixtures.py: the fixtures that turn what cannot be made into
-- `None`. `no_fuel` is no outcome of these calls.
use coppercomm.Prelude.{
  ◌≡◌, refl, sym, ap, ◌∙◌, Bool, true, false, Option, none, some, if◌then◌else◌, Error,
  config_file_parse_error, Result, ok, raised, no_fuel,
}
use coppercomm.Config.{Config, get_item, get, has_entry}
use coppercomm.Config.Value.{Json}
use coppercomm.Config.Entries.{seen, has_entry-seen}
use coppercomm.Config.Getters.{◌>>=◌, get_qnx_ip}
use coppercomm.Factory.{
  SshTarget, create_ssh_over_adb, create_broadrreach_ssh, create_qnx_ssh, or_else, is_config_error,
}

-- `except Exception: return None`
abbrev pub or_none : {A : Type 0} → Result A → Option A
or_none (ok a) = some a
or_none (raised e) = none
or_none no_fuel = none

unfoldable pub qnx_ssh_over_adb : Config → Option SshTarget
unfolding create_ssh_over_adb
qnx_ssh_over_adb config = or_none (create_ssh_over_adb config)

unfoldable pub qnx_broadrreach_ssh : Config → Option SshTarget
unfolding create_broadrreach_ssh
qnx_broadrreach_ssh config = or_none (create_broadrreach_ssh config)

abbrev pub pick : Option SshTarget → Option SshTarget → Option SshTarget
pick (some t) other = some t
pick none other = other

unfoldable pub qnx_ssh : Config → Option SshTarget
unfolding qnx_broadrreach_ssh qnx_ssh_over_adb
qnx_ssh config = pick (qnx_broadrreach_ssh config) (qnx_ssh_over_adb config)

proxy_there :
    (port proxy ip : Result Json) (t : SshTarget)
    → (port >>= λ port. proxy >>= λ command.
        ip >>= λ ip. ok (record { ip = ip; port = port; proxy_command = some command }))
      ≡ ok t
    → (command : Json) × (proxy ≡ ok command)
proxy_there (ok port) (ok proxy) ip t e = (proxy, refl)
proxy_there (ok port) (raised x) ip t e = absurd (cc)
proxy_there (ok port) no_fuel ip t e = absurd (cc)
proxy_there (raised x) proxy ip t e = absurd (cc)
proxy_there no_fuel proxy ip t e = absurd (cc)

refused :
    (entry : Result Bool) (rest : Result SshTarget)
    → entry ≡ ok true
    → (entry >>= λ has_proxy. if has_proxy then raised config_file_parse_error else rest)
      ≡ raised config_file_parse_error
refused (ok true) rest e = refl
refused (ok false) rest e = absurd (cc)
refused (raised x) rest e = absurd (cc)
refused no_fuel rest e = absurd (cc)

-- Where there is a proxy command, there is no connection over the network.
proxied :
    (config : Config) (t : SshTarget)
    → create_ssh_over_adb config ≡ ok t
    → create_broadrreach_ssh config ≡ raised config_file_parse_error
unfolding create_ssh_over_adb create_broadrreach_ssh
proxied config t e =
    let (command, there) =
      proxy_there (get config "QNX.port" _) (get_item config "QNX.proxy_command")
        (get_qnx_ip config) t e in
    refused (has_entry config "QNX.proxy_command") _
      (has_entry-seen config "QNX.proxy_command" ∙ ap seen there)

is_config_error-of :
    (e : Error)
    → ◌≡◌ {A = Result SshTarget} (raised e) (raised config_file_parse_error)
    → is_config_error e ≡ true
is_config_error-of e h = let same : e ≡ config_file_parse_error = cc in ap is_config_error same

none_either :
    (b : Bool) (e : Error) (r : Result SshTarget)
    → or_none r ≡ none
    → none ≡ or_none (if b then r else raised e)
none_either true e r h = sym h
none_either false e r h = refl

agree :
    (b o : Result SshTarget)
    → ((t : SshTarget) → o ≡ ok t → b ≡ raised config_file_parse_error)
    → pick (or_none b) (or_none o) ≡ or_none (or_else b o)
agree (ok t) o h = refl
agree (raised e) (ok t) h = rw (is_config_error-of e (h t refl)) refl
agree (raised e) (raised x) h = none_either (is_config_error e) e (raised x) refl
agree (raised e) no_fuel h = none_either (is_config_error e) e no_fuel refl
agree no_fuel (ok t) h = absurd (let x = h t refl in cc)
agree no_fuel (raised x) h = refl
agree no_fuel no_fuel h = refl

-- For every configuration, the fixture `qnx_ssh` gives what `DeviceFactory.create_qnx_ssh` returns,
-- and `None` where that raises.
pub qnx_ssh-or_none : (config : Config) → qnx_ssh config ≡ or_none (create_qnx_ssh config)
unfolding qnx_ssh qnx_broadrreach_ssh qnx_ssh_over_adb create_qnx_ssh
qnx_ssh-or_none config =
    agree (create_broadrreach_ssh config) (create_ssh_over_adb config) (proxied config)
