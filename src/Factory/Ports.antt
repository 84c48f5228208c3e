-- ===== src/Factory/Ports.antt =====
-- `DeviceFactory.create_serial` and `create_serial_devices`: serial ports, each opened once. `open_port`
-- stands for the constructor of `SerialConnection`.
use coppercomm.Prelude.{
  String, contains, Option, none, some, List, [], ◌∷◌, if◌then◌else◌, device_resource_unavailable,
  Act, pure, raise, lift, modify, ◌>>=◌,
}
use coppercomm.Config.{Config}
use coppercomm.Config.Value.{Json}
use coppercomm.Config.Getters.{
  get_name_of_available_serials_in_config, get_serial_device_path, get_serial_prompt,
}
use coppercomm.Device.{lookup}

-- The cache of `create_serial`, beside the state that opening a port changes.
module _ {S V : Type 0} (open_port : Json → String → String → Act S V) (config : Config) where
  pub record Ports : Type 0 where
    pub world : S
    pub opened : List (String × V)

  abbrev pub opening : Act S V → Act Ports V
  opening m d = let (r, world) = m d.world in (r, record d { world = world })

  -- `SerialConnection(config, serial_device)`
  unfoldable pub serial_connection : String → Act Ports V
  unfolding get_serial_device_path get_serial_prompt
  serial_connection serial_device = do
    path ← lift (get_serial_device_path config serial_device)
    opening (open_port path serial_device (get_serial_prompt config serial_device))

  abbrev pub cached_or : Act Ports V → Option V → Act Ports V
  cached_or rest none = rest
  cached_or rest (some v) = pure v

  unfoldable pub create_serial : String → Act Ports V
  unfolding serial_connection get_name_of_available_serials_in_config lookup
  create_serial serial_device_type d =
      cached_or
        (lift (get_name_of_available_serials_in_config config) >>= λ names.
          if contains names serial_device_type
          then (serial_connection serial_device_type >>= λ v.
              modify (λ e. record e { opened = (serial_device_type, v) ∷ e.opened }) >>= λ _.
              pure v)
          else raise device_resource_unavailable)
        (lookup serial_device_type d.opened) d

  -- The loop of `create_serial_devices`.
  unfoldable pub create_each : List String → Act Ports (List (String × V))
  unfolding create_serial
  create_each [] = pure []
  create_each (t ∷ ts) = create_serial t >>= λ v. create_each ts >>= λ rest. pure ((t, v) ∷ rest)

  unfoldable pub create_serial_devices : Act Ports (List (String × V))
  unfolding get_name_of_available_serials_in_config create_each
  create_serial_devices = lift (get_name_of_available_serials_in_config config) >>= create_each
