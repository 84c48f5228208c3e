-- ===== src/Tests/FactoryRuns.antt =====
-- Configurations of an SSH connection, a power cycle, and the theorems at concrete inputs.
use coppercomm.Prelude.{
  ◌+◌, ◌≤◌, ◌≡◌, refl, arith, none, some, List, [], ◌∷◌, pos, ok, raised, config_file_parse_error,
  String, Act,
}
use coppercomm.Config.{Config}
use coppercomm.Config.Value.{Json, int, str, obj, end, field}
use coppercomm.Factory.{SshTarget, create_qnx_ssh}
use coppercomm.Factory.Fixtures.{qnx_ssh, or_none, qnx_ssh-or_none}
use coppercomm.Factory.Ports.{create_serial_devices}
use coppercomm.Power.{pauses, pauses-lasts}
use coppercomm.Tests.Bench.{bench, bench-IsLawful, replay}

-- {"QNX": {"ip": "10.0.0.2", "proxy_command": "adb forward"}}, and the same without the command
abbrev with_proxy : Config
with_proxy = record {
  device_config_data =
      field "QNX"
        (obj (field "ip" (str "10.0.0.2") (field "proxy_command" (str "adb forward") end))) end;
}

abbrev without_proxy : Config
without_proxy = record {
  device_config_data = field "QNX" (obj (field "ip" (str "10.0.0.2") end)) end;
}

abbrev over_adb : SshTarget
over_adb = record {
  ip = str "10.0.0.2";
  port = int (pos 22);
  proxy_command = some (str "adb forward");
}

proxy_is_used : create_qnx_ssh with_proxy ≡ ok over_adb
unfolding create_qnx_ssh
proxy_is_used = refl

network_is_used : create_qnx_ssh without_proxy ≡ ok (record over_adb { proxy_command = none })
unfolding create_qnx_ssh
network_is_used = refl

no_entry_at_all :
    create_qnx_ssh (record { device_config_data = end }) ≡ raised config_file_parse_error
unfolding create_qnx_ssh
no_entry_at_all = refl

-- {"HOST": {"tty": "/dev/ttyUSB0"}, "QNX": {"tty": "/dev/ttyUSB1"}}, and ports that log their paths
abbrev two_ports : Config
two_ports = record {
  device_config_data =
      field "HOST" (obj (field "tty" (str "/dev/ttyUSB0") end))
        (field "QNX" (obj (field "tty" (str "/dev/ttyUSB1") end)) end);
}

abbrev open_logged : Json → String → String → Act (List Json) Json
open_logged path name prompt log = (ok path, path ∷ log)

each_port_once :
    (create_serial_devices open_logged two_ports
      (create_serial_devices open_logged two_ports (record { world = []; opened = [] })).1).1.world
    ≡ str "/dev/ttyUSB1" ∷ str "/dev/ttyUSB0" ∷ []
unfolding create_serial_devices
each_port_once = refl

pauses-lasts_example :
    ((pauses bench 20000 15000 (replay [])).0 ≡ ok tt)
    × ((replay []).clock + 15000 ≤ (pauses bench 20000 15000 (replay [])).1.clock)
pauses-lasts_example = pauses-lasts bench bench-IsLawful 20000 15000 (replay []) (omega arith)

qnx_ssh-or_none_example : qnx_ssh with_proxy ≡ or_none (create_qnx_ssh with_proxy)
qnx_ssh-or_none_example = qnx_ssh-or_none with_proxy
