-- ===== src/Serial/Held.antt =====
-- The calls on the console object, under its lock: what they return.
use coppercomm.Prelude.{
  ℕ, zero, suc, ◌-◌, ◌≡◌, String, Bool, true, false, ◌||◌, not, Option, List, [], if◌then◌else◌, ℤ,
  pos, some, contains, get_elem?, ◌⊎◌, inl, inr, Error, name_error, is_assertion_error, Act, Result,
  ok, raised, no_fuel, pure,
}
use coppercomm.Loops.Results.{After, After-map, Ensures, Ensures-last, Ensures-try}
use coppercomm.Serial.{
  Port, Pattern, regex, on_timeout, without_cr, Prompt, Reader, is_empty, send_and_check,
}
use coppercomm.Serial.Expect.{not_expecting, expect_patterns}
use coppercomm.Serial.Locked.{
  Console, with_lock, send_command, pause, attempt, send_line_and_expect,
}
use coppercomm.Serial.Found.{expect_patterns-Found}
use coppercomm.Serial.Scanned.{FoundSince}
use coppercomm.Serial.Reads.{contains-map}

module _ (P : Port) where
  -- The pattern of that index stands in a line that was read, and what it matched there is kept.
  abbrev pub Matches : List Pattern → ℕ → Reader P → Type 0
  Matches expected i s =
      (p text : String) × (get_elem? expected i ≡ some (regex p))
      × (contains s.output_lines (without_cr text) ≡ true)
      × (P.search p text ≡ some s.matched)

  -- An index that is returned is that of a pattern that matches, or of `TIMEOUT`.
  abbrev pub Found : List Pattern → ℤ → Reader P → Type 0
  Found expected r s =
      (i : ℕ) → r ≡ pos i → Matches expected i s ⊎ (get_elem? expected i ≡ some on_timeout)

  FoundSince-Found :
      (start : P.State) (expected : List Pattern) (r : ℤ) (s : Reader P)
      → FoundSince P start expected r s
      → Found expected r s
  FoundSince-Found start expected r s (texts, (since, same), answers) i e = elim (answers i e) [
    | inr late ↦ inr late
    | inl (p, text, here, read, seen) ↦
        inl (p, text, here, rw same (contains-map texts text read), seen)
  ]

  expect_patterns-Ensures :
      (fuel : ℕ) (expected not_expected : List Pattern) (timeout : ℕ) (wait_for_prompt : Bool)
      (prompt : Option Prompt)
      → Ensures
          (expect_patterns P fuel expected not_expected timeout wait_for_prompt prompt)
          (Found expected)
  expect_patterns-Ensures fuel expected not_expected timeout wait_for_prompt prompt = record {
    at = λ s.
        After-map (FoundSince-Found s.port expected) _
          (expect_patterns-Found P fuel expected not_expected timeout wait_for_prompt prompt s);
  }

  with_lock-After :
      {A : Type 0} (Q : A → Reader P → Type 0) (m : Act (Reader P) A)
      → Ensures m Q
      → Ensures (with_lock P m) (λ a c. Q a c.reader)
  with_lock-After {A} Q m em = record {
    at = λ c. kept c (m c.reader).0 (m c.reader).1 (em.at c.reader);
  }
    where
      kept :
          (c : Console P) (r : Result A) (s : Reader P)
          → After Q (r, s)
          → After {S = Console P}
              (λ a c'. Q a c'.reader)
              (r, record c { reader = s; streaming = true; locks = suc c.locks - 1 })
      kept c (ok a) s q = q
      kept c (raised e) s q = tt
      kept c no_fuel s q = tt

  send_command-Found :
      (fuel : ℕ) (command : String) (max_retypes : ℕ) (check_echo : Bool)
      (expected not_expected : List Pattern) (timeout : ℕ) (wait_for_prompt : Bool)
      (prompt : Option Prompt) (send_linebreak : Bool)
      → Ensures
          (send_command P fuel command max_retypes check_echo expected not_expected timeout
            wait_for_prompt prompt send_linebreak)
          (λ r c. Found expected r c.reader)
  unfolding send_command
  send_command-Found fuel command max_retypes check_echo expected not_expected timeout
        wait_for_prompt prompt send_linebreak =
      with_lock-After (Found expected) _ (
        Ensures-last (Found expected)
          (send_and_check P fuel command max_retypes check_echo send_linebreak) _
          λ _.
            expecting (not (is_empty expected) || (not (is_empty not_expected) || wait_for_prompt)))
    where
      expecting :
          (b : Bool)
          → Ensures
              (if b
                then expect_patterns P fuel expected not_expected timeout wait_for_prompt prompt
                else pure not_expecting)
              (Found expected)
      expecting true =
          expect_patterns-Ensures fuel expected not_expected timeout wait_for_prompt prompt
      expecting false = record { at = λ s i e. absurd (cc) }

  attempt-Ensures :
      (Q : ℤ → Console P → Type 0) (number attempt_delay : ℕ) (error : Error)
      (call : Act (Console P) ℤ)
      → Ensures call Q
      → Ensures (attempt P number attempt_delay error call) Q
  unfolding attempt
  attempt-Ensures Q zero attempt_delay error call ec = record { at = λ c. tt }
  attempt-Ensures Q (suc number) attempt_delay error call ec =
      Ensures-try Q call is_assertion_error _ ec λ e.
        Ensures-last Q (pause P attempt_delay) _
          λ _. attempt-Ensures Q number attempt_delay e call ec

  -- When `send_line_and_expect` returns an index of the expected patterns, at whichever attempt,
  -- that pattern is `TIMEOUT` or is found in a line that was read, and the text that it matched is
  -- kept for `get_matched`.
  pub send_line_and_expect-Found :
      (fuel : ℕ) (command : String) (pattern : List Pattern) (timeout : ℕ)
      (check_echo wait_for_prompt : Bool) (prompt : Option Prompt) (send_linebreak : Bool)
      (number_of_attempts attempt_delay : ℕ)
      → Ensures
          (send_line_and_expect P fuel command pattern timeout check_echo wait_for_prompt prompt
            send_linebreak number_of_attempts attempt_delay)
          (λ r c. Found pattern r c.reader)
  unfolding send_line_and_expect
  send_line_and_expect-Found fuel command pattern timeout check_echo wait_for_prompt prompt
        send_linebreak number_of_attempts attempt_delay =
      attempt-Ensures (λ r c. Found pattern r c.reader) number_of_attempts attempt_delay name_error
        _
        (send_command-Found fuel command 2 check_echo pattern [] timeout wait_for_prompt prompt
          send_linebreak)
