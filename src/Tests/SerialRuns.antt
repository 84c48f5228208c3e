-- ===== src/Tests/SerialRuns.antt =====
-- A serial port that plays back lines, runs on it, and the theorems on the console at concrete
-- inputs.
use coppercomm.Prelude.{
  ℕ, ◌+◌, ◌≡◌, refl, arith, true, false, none, some, List, [], ◌∷◌, if◌then◌else◌, occurs_in, pos,
  ok, raised, assertion_error, name_error,
}
use coppercomm.Loops.{while_before}
use coppercomm.Loops.Total.{Terminates}
use coppercomm.Loops.Results.{After, Ensures}
use coppercomm.Serial.{
  Port, Reader, Reading, ended, quiet, regex, on_timeout, prompted_by, send_and_check, type_command,
}
use coppercomm.Serial.Expect.{expect_patterns}
use coppercomm.Serial.Locked.{Console, send_command, send_line_and_expect}
use coppercomm.Serial.Found.{expect_patterns-Found}
use coppercomm.Serial.Scanned.{FoundSince}
use coppercomm.Serial.Echo.{Echoed, send_and_check-Echoed}
use coppercomm.Serial.Steady.{IsSteady, port_time, type_command-Terminates}
use coppercomm.Serial.Ends.{expect_patterns-Terminates}
use coppercomm.Serial.Held.{Found, send_line_and_expect-Found}

record Line : Type 0 where
  clock : ℕ
  readings : List Reading

abbrev next_reading : List Reading → Reading
next_reading [] = quiet ""
next_reading (r ∷ rs) = r

abbrev later_readings : List Reading → List Reading
later_readings [] = []
later_readings (r ∷ rs) = rs

-- A pattern matches itself only, wherever it stands.
abbrev bench_port : Port
bench_port = record {
  State = Line;
  read = λ l. (
    next_reading l.readings,
    record l { clock = l.clock + 1; readings = later_readings l.readings },
  );
  send = λ linebreak text l. l;
  clock = λ l. (l.clock, l);
  second = 10;
  sleep = λ d l. record l { clock = l.clock + d };
  search = λ pattern text. if occurs_in pattern text then some pattern else none;
  escape = λ text. text;
  time = λ l. l.clock;
}

bench_port-IsSteady : IsSteady bench_port
bench_port-IsSteady = record {
  clock_shows = λ l. refl;
  time-clock = λ l. omega arith;
  time-read = λ l. omega arith;
  time-send = λ linebreak text l. omega arith;
}

abbrev console : List Reading → Console bench_port
console readings = record {
  reader = record {
    port = record { clock = 0; readings = readings };
    prompt_regex = some "$";
    matched = "";
    output_lines = [];
  };
  streaming = true;
  locks = 0;
}

-- The command comes back, then a line with the second pattern, then the prompt.
echo_runs :
    let (r, c) =
      send_command bench_port 100 "ls" 2 true
        (regex "zip" ∷ regex "tar" ∷ [])
        []
        50
        true
        none
        true
        (console (ended "$ ls\r" ∷ ended "a.tar\r" ∷ quiet "$ " ∷ [])) in
    (r ≡ ok (pos 1)) × (c.reader.matched ≡ "tar") × (c.reader.output_lines ≡ "a.tar" ∷ "$ " ∷ [])
unfolding send_command while_before occurs_in
echo_runs = (refl, refl, refl)

-- A line that must not come.
forbidden_runs :
    (send_command bench_port 100 "ls" 2 false []
      (regex "error" ∷ [])
      50
      true
      none
      true
      (console (ended "error: 5" ∷ []))).0
    ≡ raised assertion_error
unfolding send_command occurs_in
forbidden_runs = refl

-- No attempt: Python finds the name `error` unbound.
no_attempt_runs :
    (send_line_and_expect bench_port 100 "ls"
      (regex "tar" ∷ [])
      50
      true
      true
      none
      true
      0
      2
      (console [])).0
    ≡ raised name_error
unfolding send_line_and_expect
no_attempt_runs = refl

-- A console on which an earlier call has read a line.
abbrev second_call : Reader bench_port
second_call = record {
  port = record { clock = 7; readings = ended "b\r" ∷ ended "a.tar\r" ∷ [] };
  prompt_regex = some "$";
  matched = "zip";
  output_lines = "a.zip" ∷ [];
}

expect_patterns-Found_example :
    After
      (FoundSince bench_port second_call.port (regex "tar" ∷ on_timeout ∷ []))
      (expect_patterns bench_port 100 (regex "tar" ∷ on_timeout ∷ []) [] 50 false none second_call)
expect_patterns-Found_example =
    expect_patterns-Found bench_port 100 (regex "tar" ∷ on_timeout ∷ []) [] 50 false none
      second_call

-- What an earlier call read is gone, and the line with the pattern is kept.
second_call_runs :
    let (r, s) =
      expect_patterns bench_port 100 (regex "tar" ∷ on_timeout ∷ []) [] 50 false none second_call in
    (r ≡ ok (pos 0)) × (s.matched ≡ "tar") × (s.output_lines ≡ "b" ∷ "a.tar" ∷ [])
unfolding expect_patterns occurs_in
second_call_runs = (refl, refl, refl)

expect_patterns-Terminates_example :
    Terminates
      (port_time bench_port bench_port-IsSteady)
      (expect_patterns bench_port 100 (regex "tar" ∷ []) [] 50 true (some (prompted_by "$")))
expect_patterns-Terminates_example =
    expect_patterns-Terminates bench_port bench_port-IsSteady 100 (regex "tar" ∷ []) [] 50 true
      (some (prompted_by "$")) (omega arith) (omega arith)

send_and_check-Echoed_example :
    Ensures (send_and_check bench_port 100 "ls" 2 true true) (Echoed bench_port "ls")
send_and_check-Echoed_example = send_and_check-Echoed bench_port 100 "ls" 2 true

send_line_and_expect-Found_example :
    Ensures
      (send_line_and_expect bench_port 100 "ls" (regex "tar" ∷ []) 50 true true none true 3 20)
      (λ r c. Found bench_port (regex "tar" ∷ []) r c.reader)
send_line_and_expect-Found_example =
    send_line_and_expect-Found bench_port 100 "ls" (regex "tar" ∷ []) 50 true true none true 3 20

type_command-Terminates_example :
    Terminates (port_time bench_port bench_port-IsSteady) (type_command bench_port 100 2 "ls" true)
type_command-Terminates_example =
    type_command-Terminates bench_port bench_port-IsSteady 100 2 "ls" true (omega arith)
