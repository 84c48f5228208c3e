-- ===== src/Serial.antt =====
-- src/coppercomm/device_serial/serial_console_interface.py: sending a command over a serial port and
-- expecting patterns in what comes back. The port, a pexpect `fdspawn`, and the regular expressions
-- are a parameter. Times are ticks of the clock. The thread that reads between the calls stands in
-- Serial/Thread: while a call holds the lock it does not read.
pub mod Thread
pub mod Expect
pub mod Locked
pub mod Indices
pub mod Reads
pub mod Scanned
pub mod Found
pub mod Echo
pub mod Steady
pub mod Ends
pub mod Held
pub mod Setup
use Prim.Native.Char.{code}
use coppercomm.Prelude.{
  ℕ, zero, suc, ◌-◌, ◌+◌, ◌*◌, ltb, ◌==◌, String, ◌<>◌, Bool, true, false, ◌&&◌, ◌||◌, not, Option,
  none, some, List, [], ◌∷◌, ◌++◌, map, any, if◌then◌else◌, str_eq, truthy, occurs_in, join, ℤ, pos,
  negsuc, Error, assertion_error, coppercomm_connection, serial_connection_error, value_error, Act,
  Result, ok, raised, no_fuel, pure, raise, lift, gets, modify, raise_if, ◌>>=◌, ◌>>◌, cut_off, try,
  is_assertion_error, name_error,
}
use coppercomm.Loops.{while_before}

-- How `connection.expect("\n", timeout=0.2)` ends: with the text before a line break, with the text
-- so far after the time limit, or at the end of the file.
pub data Reading : Type 0 where
  ended quiet : String → Reading
  closed : Reading

pub record Port : Type 1 where
  pub State : Type 0
  pub read : State → Reading × State
  -- `sendline(text)` for `true`, and `send(text)` for `false`
  pub send : Bool → String → State → State
  -- `datetime.now(tz=timezone.utc)`
  pub clock : State → ℕ × State
  pub second : ℕ
  -- `time.sleep(d)`
  pub sleep : ℕ → State → State
  -- `re.search(pattern, text).group(0)`, where there is a match
  pub search : String → String → Option String
  -- `re.escape(text)`
  pub escape : String → String
  -- the true time, which the clock shows
  pub time : State → ℕ

-- A pattern, or pexpect's `TIMEOUT`.
pub data Pattern : Type 0 where
  regex : String → Pattern
  on_timeout : Pattern

pub data Prompt : Type 0 where
  unprompted : Prompt
  prompted_by : String → Prompt
  prompted_by_any : List String → Prompt

-- `line.replace("\r", "")`
unfoldable pub without_cr : String → String
without_cr String.[] = ""
without_cr (String.◌∷◌ c s) = if code c == 13 then without_cr s else String.◌∷◌ c (without_cr s)

abbrev pub is_empty : {A : Type 0} → List A → Bool
is_empty [] = true
is_empty (x ∷ xs) = false

abbrev pub is_missing : {A : Type 0} → Option A → Bool
is_missing none = true
is_missing (some a) = false

module _ (P : Port) where
  -- The attributes that a call reads and writes.
  pub record Reader : Type 0 where
    pub port : P.State
    pub prompt_regex : Option String
    pub matched : String
    pub output_lines : List String

  abbrev starts_escaped : String → Bool
  starts_escaped String.[] = false
  starts_escaped (String.◌∷◌ c s) = code c == 92

  abbrev escaped : String → String
  escaped prompt = if starts_escaped prompt then prompt else P.escape prompt

  unfoldable pub get_prompt_regex : Prompt → String
  unfolding join
  get_prompt_regex unprompted = ""
  get_prompt_regex (prompted_by prompt) = escaped prompt
  get_prompt_regex (prompted_by_any choice) = join "|" (map escaped choice)

  unfoldable pub set_prompt : Prompt → Act Reader (Unit {0})
  unfolding get_prompt_regex
  set_prompt prompt = modify λ s. record s { prompt_regex = some (get_prompt_regex prompt) }

  abbrev all_but_last : List String → List String
  all_but_last [] = []
  all_but_last (x ∷ []) = []
  all_but_last (x ∷ y ∷ xs) = x ∷ all_but_last (y ∷ xs)

  abbrev has_prompt : Option String → Bool
  has_prompt none = false
  has_prompt (some prompt) = truthy prompt

  unfoldable pub get_output : Reader → String
  unfolding join
  get_output s =
      join "\n" (if has_prompt s.prompt_regex then all_but_last s.output_lines else s.output_lines)

  abbrev pub clock_now : Act Reader ℕ
  clock_now s = let (t, p) = P.clock s.port in (ok t, record s { port = p })

  abbrev pub line_of : Reading × P.State → Reader → Result String × Reader
  line_of (ended text, p) s = (ok text, record s { port = p })
  line_of (quiet text, p) s = (ok text, record s { port = p })
  line_of (closed, p) s = (raised serial_connection_error, record s { port = p })

  unfoldable pub get_line : Act Reader String
  get_line s = line_of (P.read s.port) s

  abbrev pub send_text : Bool → String → Act Reader (Unit {0})
  send_text send_linebreak command =
      modify λ s. record s { port = P.send send_linebreak command s.port }

  -- A round of the search for the echo: `re.search(re.escape(command), self._get_line())`.
  unfoldable pub look_for_echo : String → Act Reader (Option (Unit {0}))
  unfolding get_line occurs_in
  look_for_echo command = do
    text ← get_line
    if occurs_in command text then pure (some tt) else pure none

  abbrev pub unless_seen : Act Reader (Unit {0}) → Option (Unit {0}) → Act Reader (Unit {0})
  unless_seen again (some a) = pure tt
  unless_seen again none = again

  -- `while max_retypes > 0:`
  unfoldable pub type_command : ℕ → ℕ → String → Bool → Act Reader (Unit {0})
  unfolding look_for_echo
  type_command fuel zero command send_linebreak = raise coppercomm_connection
  type_command fuel (suc max_retypes) command send_linebreak =
      send_text send_linebreak command >>= λ _. clock_now >>= λ t.
      while_before fuel clock_now (t + 2 * P.second) (look_for_echo command)
      >>= unless_seen (type_command fuel max_retypes command send_linebreak)

  unfoldable pub send_and_check : ℕ → String → ℕ → Bool → Bool → Act Reader (Unit {0})
  unfolding type_command
  send_and_check fuel command max_retypes check_echo send_linebreak =
      if check_echo
      then type_command fuel max_retypes command send_linebreak
      else send_text send_linebreak command
