-- ===== src/Serial/Locked.antt =====
-- `SerialConsoleInterface.expect` and `send_command`, and the attempts of
-- src/coppercomm/device_serial/console.py.
use coppercomm.Prelude.{
  ℕ, zero, suc, ◌-◌, String, Bool, true, false, ◌||◌, not, Option, none, List, [], if◌then◌else◌, ℤ,
  Error, Act, pure, raise, modify, ◌>>=◌, ◌>>◌, try, is_assertion_error, name_error,
}
use coppercomm.Serial.{Port, Pattern, Prompt, Reader, is_empty, send_and_check}
use coppercomm.Serial.Expect.{expect_patterns, not_expecting}

module _ (P : Port) where
  -- The object: whether the thread may read, and how often the caller holds the lock.
  pub record Console : Type 0 where
    pub reader : (Reader P)
    pub streaming : Bool
    pub locks : ℕ

  abbrev held : Console → Console
  held c = record c { streaming = false; locks = suc c.locks }

  -- `self._streaming.clear(); self._lock.acquire(); try: m finally: ...`
  abbrev pub with_lock : {A : Type 0} → Act (Reader P) A → Act Console A
  with_lock m c =
      let (r, reader) = m c.reader in
      (r, record (held c) { reader = reader; streaming = true; locks = (held c).locks - 1 })

  unfoldable pub expect : ℕ → List Pattern → List Pattern → ℕ → Act Console ℤ
  unfolding expect_patterns
  expect fuel expected not_expected timeout =
      with_lock (expect_patterns P fuel expected not_expected timeout false none)

  unfoldable pub send_command :
      ℕ
      → String
      → ℕ
      → Bool
      → List Pattern
      → List Pattern
      → ℕ
      → Bool
      → Option Prompt
      → Bool
      → Act Console ℤ
  unfolding send_and_check expect_patterns
  send_command fuel command max_retypes check_echo expected not_expected timeout wait_for_prompt
        prompt send_linebreak =
      with_lock do
        send_and_check P fuel command max_retypes check_echo send_linebreak
        if not (is_empty expected) || (not (is_empty not_expected) || wait_for_prompt)
            then expect_patterns P fuel expected not_expected timeout wait_for_prompt prompt
            else pure not_expecting

  abbrev pub pause : ℕ → Act Console (Unit {0})
  pause d = modify λ c. record c { reader = record c.reader { port = P.sleep d c.reader.port } }

  -- The attempts of `Console.send_line_and_expect` of src/coppercomm/device_serial/console.py, and the
  -- exception that is raised behind them.
  unfoldable pub attempt : ℕ → ℕ → Error → Act Console ℤ → Act Console ℤ
  unfolding is_assertion_error
  attempt zero attempt_delay error call = raise error
  attempt (suc number) attempt_delay error call =
      try call is_assertion_error
        (λ e. pause attempt_delay >>= λ _. attempt number attempt_delay e call)

  -- `error` is unbound when there is no attempt: a `NameError`.
  unfoldable pub send_line_and_expect :
      ℕ → String → List Pattern → ℕ → Bool → Bool → Option Prompt → Bool → ℕ → ℕ → Act Console ℤ
  unfolding attempt send_command
  send_line_and_expect fuel command pattern timeout check_echo wait_for_prompt prompt send_linebreak
        number_of_attempts attempt_delay =
      attempt number_of_attempts attempt_delay name_error (
        send_command fuel command 2 check_echo pattern [] timeout wait_for_prompt prompt
          send_linebreak)

  -- `Console.send_line`
  unfoldable pub send_line :
      ℕ → String → Bool → Bool → ℕ → Option Prompt → Bool → Act Console (Unit {0})
  unfolding send_command
  send_line fuel command check_echo wait_for_prompt timeout prompt send_linebreak =
      send_command fuel command 2 check_echo [] [] timeout wait_for_prompt prompt send_linebreak
      >>= λ _. pure tt
