-- ===== src/Lib.antt =====
-- Models and proofs for coppercomm (src/coppercomm), a library that talks to devices under test from a host.
--
-- Parts of the program and the files that model them:
--
--   Prelude (with Tests, Lists, Text, Calls): what the other files share. `Act S A` is a Python call
--     that changes a state `S` and returns an `A` or raises; an exception is its class, a member of
--     `Error`, without its message (src/coppercomm/device_common/exceptions.py).
--   Shlex: `shlex.split` and `shlex.quote`, by which commands become words, and that what is quoted is
--     read back (Shlex/RoundTrip).
--   Host: processes, clocks and the file system, a parameter `H` of everything below. `IsLawful` says
--     what the code relies on. Times are whole milliseconds.
--   Loops: `while time.monotonic() < deadline`, on fuel, with a calculus of calls that end
--     (Loops/Total), of what a call ensures when it returns (Loops/Results), and of what of the state a
--     call leaves alone (Loops/Keeps).
--   LocalConsole: `execute_command` and `resolve_path` of src/coppercomm/device_common/local_console.py.
--     Every command of the devices below goes through `execute_words`.
--   Adb: the class of src/coppercomm/device_adb/adb_interface.py. `Session` is the object with the state
--     of the host. Adb/Devices is `get_all_devices`, Adb/State `get_state`, Adb/Server the server,
--     Adb/Wait the polls, Adb/Root the root permissions, Adb/Reboot restart, remount and factory
--     reset, Adb/Files the transfer of files, Adb/Services the system services. `get_state` is used by
--     the polls, they by the change of root permissions, and all of them by the factory reset.
--   Config: the class of src/coppercomm/config_file_parser.py. Config/Value is JSON and a step of a
--     path, Config/Getters the named getters (Getters/Fits and Getters/Extra are about
--     `get_extra_devices`), Config/Finder the search for the file and `load_config`, whose cache is
--     in Config/Finder/Cached.
--   Serial: sending and expecting of src/coppercomm/device_serial/serial_console_interface.py over
--     a port `P`, and the attempts of src/coppercomm/device_serial/console.py. `Reader` holds the
--     attributes that a call reads and writes. Serial/Expect is `_expect`, Serial/Locked the calls
--     on the object with its lock, Serial/Setup the check of the port's address. Serial/Found is
--     what a result says of the lines, with Serial/Scanned about a round and Serial/Reads about
--     what was read of the port, Serial/Echo the echo, Serial/Held the result of the calls under
--     the lock, Serial/Steady and Serial/Ends the ends. Times are ticks of the clock there.
--     Serial/Thread has `run` and its callers as a step relation, one function for a step of the
--     thread and one for a step of a caller, with the lock and the flags as shared state;
--     Thread/Exclusion is about the lock, Thread/Handover about how it changes hands.
--   Ssh: the class of src/coppercomm/ssh_connection/ssh_connection.py over a client of paramiko, a
--     parameter `C` (`IsTimely` says what is relied on). Ssh/Command is `execute_cmd` and
--     `execute_cmd_pty`, Ssh/Accepted is about what they return, Ssh/Ends about their ends and the
--     lock. Ssh/Copy is `put` and `put_all` over an SFTP client `F`, with a local tree as a value;
--     Copy/Tree is the abstract view, what a tree wants of the remote host, Copy/Steps what each
--     call makes of it, Copy/Overlay compares the two. Ssh/Fetch is `get` and `get_all`, Fetch/Ends
--     about the end of its recursion.
--   AdbLogger: src/coppercomm/loggers/adb_logger/adb_logger_thread.py: the stamping file with what becomes of
--     its texts (AdbLogger/Lines), and the thread (AdbLogger/Loop) with rules for what a call leaves of
--     the state (AdbLogger/Rules, AdbLogger/Aside), the files (AdbLogger/Collected) and the end
--     (AdbLogger/Stops). AdbLogger/Control is the object of adb_logger.py and the logger of
--     src/coppercomm/loggers/device_logger.py.
--   Device: the mapping of SSH connections of src/coppercomm/device.py.
--   Factory: src/coppercomm/device_factory.py on a `Config`, the serial ports in Factory/Ports, and the
--     fixtures of src/coppercomm/pytest_fixtures/device_fixtures.py in Factory/Fixtures.
--   Power: `PowerController.power_reset` of src/coppercomm/device_common/interfaces.py.
--   Fastboot: the class of src/coppercomm/fastboot_interface.py, on the same host.
--   Tests: runs on a host that plays back outcomes of processes (Tests/Bench), after the scenarios of
--     the repository's tests, and the theorems at concrete inputs.
--
-- Fuel: a poll takes one unit for each round, and a round that goes on has slept for a millisecond or
-- more, so fuel above the limit in milliseconds is enough. The loop of
-- `restart_server` has no bound in the source; `ReleasesPort` assumes that the socket of a server that
-- `adb kill-server` has killed disappears from the listings, and gives it fuel for as many of them as
-- that takes.
--
-- `_expect` without a time limit need not end; with one, fuel above the limit in ticks is enough, since
-- the reading of a line takes a tick or more.
--
-- The wait of an SSH connection and of an exit status are such polls too. The loop of the adb logger
-- has no bound: what is stated of it holds for every fuel. `get_all` takes a unit for each directory
-- in another; fuel above their depth (`IsShallow`) is enough.
--
-- Not modelled: logging and the texts of exceptions, for which the program has no branches; the setup
-- of the serial port by pyserial and of the SSH client by its constructor, which are I/O; the streams
-- of an SSH channel; `create_adb` and `create_fastboot`, which hand an id on to a constructor; the
-- loggers and fixtures that only register handlers. A lock of a class is that of one connection or
-- thread: another holder shows as a call that waits.

pub mod Prelude
pub mod Shlex
pub mod Host
pub mod Loops
pub mod LocalConsole
pub mod Adb
pub mod Config
pub mod Fastboot
pub mod Serial
pub mod Ssh
pub mod AdbLogger
pub mod Device
pub mod Factory
pub mod Power
mod Tests
