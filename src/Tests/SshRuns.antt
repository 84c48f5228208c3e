-- ===== src/Tests/SshRuns.antt =====
-- Runs of the SSH connection against a peer that refuses some attempts first, and the theorems at
-- concrete inputs.
use coppercomm.Prelude.{
  ℕ, zero, suc, ◌+◌, ◌≤◌, ◌≡◌, refl, arith, Bool, true, false, Option, none, some, ℤ, pos, Error,
  no_valid_connections, ssh_command_failed, ok, raised,
}
use coppercomm.Loops.{while_before}
use coppercomm.Loops.Results.{Ensures}
use coppercomm.Ssh.{Client, Connection}
use coppercomm.Ssh.Command.{execute_cmd, execute_cmd_pty}
use coppercomm.Ssh.Ends.Client.{IsTimely}
use coppercomm.Ssh.Ends.Mutex.{Freed}
use coppercomm.Ssh.Ends.Commands.{execute_cmd-Freed}
use coppercomm.Ssh.Accepted.{Answered, execute_cmd-Answered}

-- The attempts to come that are refused, whether there is a connection, and the exit code of every
-- command.
record Peer : Type 0 where
  now : ℕ
  refusals : ℕ
  active : Bool
  code : ℤ

abbrev take_attempt : ℕ → Peer → Option Error × Peer
take_attempt zero p = (none, record p { now = p.now + 10; active = true })
take_attempt (suc n) p = (some no_valid_connections, record p { now = p.now + 10; refusals = n })

abbrev bench_client : Client
bench_client = record {
  State = Peer;
  connect = λ limit p. take_attempt p.refusals p;
  transport = λ p. (some p.active, p);
  set_keepalive = λ interval p. p;
  close = λ p. record p { active = false };
  open_channel = λ limit exec p. (none, p);
  get_pty = λ p. (none, p);
  exec_command = λ command p. (none, p);
  exit_status_ready = λ p. (true, p);
  recv_exit_status = λ p. (p.code, p);
  clock = λ p. (p.now, p);
  sleep = λ d p. record p { now = p.now + d };
  time = λ p. p.now;
}

take_attempt-time : (n : ℕ) (p : Peer) → suc p.now ≤ (take_attempt n p).1.now
take_attempt-time zero p = omega arith
take_attempt-time (suc n) p = omega arith

bench_client-IsTimely : IsTimely bench_client
bench_client-IsTimely = record {
  clock_shows = λ p. refl;
  time-clock = λ p. omega arith;
  time-sleep = λ d p. omega arith;
  time-connect = λ limit p. take_attempt-time p.refusals p;
  time-transport = λ p. omega arith;
  time-set_keepalive = λ interval p. omega arith;
  time-close = λ p. omega arith;
  time-open_channel = λ a b p. omega arith;
  time-get_pty = λ p. omega arith;
  time-exec_command = λ command p. omega arith;
  time-exit_status_ready = λ p. omega arith;
  time-recv_exit_status = λ p. omega arith;
}

abbrev facing : ℕ → ℤ → Connection bench_client
facing refusals code = record {
  client = record { now = 0; refusals = refusals; active = false; code = code };
  held = false;
}

execute_cmd_after_refusals :
    (execute_cmd bench_client 10000 "ls" true (some 100) 1 10 9000 (facing 2 (pos 0))).0
    ≡ ok (some (pos 0))
unfolding execute_cmd while_before
execute_cmd_after_refusals = refl

execute_cmd_that_fails :
    (execute_cmd bench_client 10000 "ls" true (some 100) 3 10 9000 (facing 0 (pos 7))).0
    ≡ raised ssh_command_failed
unfolding execute_cmd while_before
execute_cmd_that_fails = refl

execute_cmd_pty_runs : (execute_cmd_pty bench_client 10000 "ls" 1 9000 (facing 1 (pos 0))).0 ≡ ok tt
unfolding execute_cmd_pty while_before
execute_cmd_pty_runs = refl

execute_cmd-Freed_example :
    Freed bench_client 0
      (execute_cmd bench_client 10000 "ls" true (some 100) 3 10 9000 (facing 2 (pos 7)))
execute_cmd-Freed_example =
    execute_cmd-Freed bench_client bench_client-IsTimely 10000 "ls" true (some 100) 3 10 9000
      (facing 2 (pos 7)) (omega arith) (omega arith) refl

execute_cmd-Answered_example :
    Ensures
      (execute_cmd bench_client 10000 "ls" true (some 100) 3 10 9000)
      (Answered bench_client true (some 100))
execute_cmd-Answered_example =
    execute_cmd-Answered bench_client 10000 "ls" true (some 100) 3 10 9000
