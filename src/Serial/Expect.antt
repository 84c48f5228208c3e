-- ===== src/Serial/Expect.antt =====
-- `SerialConsoleInterface._expect` of src/coppercomm/device_serial/serial_console_interface.py.
use coppercomm.Prelude.{
  ℕ, zero, suc, ◌+◌, ltb, String, Bool, false, ◌&&◌, ◌||◌, not, Option, none, some, List, [], ◌∷◌,
  ◌++◌, any, if◌then◌else◌, str_eq, ℤ, pos, negsuc, assertion_error, coppercomm_connection,
  value_error, Act, Result, ok, raised, pure, lift, gets, modify, raise_if, ◌>>=◌, ◌>>◌, cut_off,
}
use coppercomm.Serial.{
  Port, Pattern, regex, on_timeout, Prompt, Reader, is_empty, is_missing, clock_now, get_line,
  get_prompt_regex, without_cr,
}

-- `NOT_EXPECTING` and `PROMPT_ONLY`
abbrev pub not_expecting : ℤ
not_expecting = negsuc 0

abbrev pub prompt_only : ℤ
prompt_only = negsuc 1

abbrev pub answer : Option ℕ → ℤ
answer none = prompt_only
answer (some i) = pos i

-- What one call of `_expect` looks for; `prompt_regex` is the prompt in force, and a limit of 0 is
-- no limit.
pub record Goal : Type 0 where
  pub expected : List Pattern
  pub not_expected : List Pattern
  pub wait_for_prompt : Bool
  pub prompt_regex : String
  pub timeout : ℕ

abbrev pub goal : List Pattern → List Pattern → Bool → String → ℕ → Goal
goal expected not_expected wait_for_prompt prompt_regex timeout = record {
  expected = expected;
  not_expected = not_expected;
  wait_for_prompt = wait_for_prompt;
  prompt_regex = prompt_regex;
  timeout = timeout;
}

-- `expected.index(TIMEOUT)`, from the index `i` on.
unfoldable pub timeout_index : ℕ → List Pattern → Result ℤ
timeout_index i [] = raised assertion_error
timeout_index i (regex p ∷ patterns) = timeout_index (suc i) patterns
timeout_index i (on_timeout ∷ patterns) = ok (pos i)

-- How `_expect` ends behind its time limit.
unfoldable pub late : Goal → Bool → Result ℤ
unfolding timeout_index
late g prompt_found =
    if g.wait_for_prompt && not prompt_found
    then raised coppercomm_connection
    else if is_empty g.expected
    then ok not_expecting
    else timeout_index 0 g.expected

-- How a round of the loop of `_expect` ends: with the index to return, or with `prompt_found` and
-- `expected_found` for the next round.
pub data Step : Type 0 where
  finished : ℤ → Step
  unfinished : Bool → Option ℕ → Step

module _ (P : Port) where
  abbrev pub found_in : String → Pattern → Bool
  found_in text (regex p) = not (is_missing (P.search p text))
  found_in text on_timeout = false

  unfoldable pub note_line : String → Act (Reader P) (Unit {0})
  unfolding without_cr
  note_line text = modify λ s. record s { output_lines = s.output_lines ++ (without_cr text ∷ []) }

  abbrev pub first_match : ℕ → String → Option ℕ → (Reader P) → Option ℕ × (Reader P)
  first_match i text found s =
      if str_eq s.matched "" then (some i, record s { matched = text }) else (found, s)

  -- The loop over the expected patterns, from the index `i` on.
  unfoldable pub scan : String → ℕ → List Pattern → Option ℕ → (Reader P) → Option ℕ × (Reader P)
  scan text i [] found s = (found, s)
  scan text i (on_timeout ∷ patterns) found s = scan text (suc i) patterns found s
  scan text i (regex p ∷ patterns) found s = elim (P.search p text) [
    | none ↦ scan text (suc i) patterns found s
    | some match ↦
        let (found', s') = first_match i match found s in scan text (suc i) patterns found' s'
  ]

  -- What a round decides when it has seen the line.
  unfoldable pub conclude : Goal → ℕ → Bool → Option ℕ → Act (Reader P) Step
  unfolding late
  conclude g end_time prompt_found found =
      if prompt_found
        && not (is_missing found && (not (is_empty g.expected) || not (is_empty g.not_expected)))
      then pure (finished (answer found))
      else if ltb 0 g.timeout
      then (clock_now P >>= λ t.
          if ltb end_time t
          then (lift (late g prompt_found) >>= λ i. pure (finished i))
          else pure (unfinished prompt_found found))
      else pure (unfinished prompt_found found)

  -- What a round does with its line, up to its decision.
  unfoldable pub judge : Goal → Bool → Option ℕ → String → Act (Reader P) (Bool × Option ℕ)
  unfolding note_line scan
  judge g prompt_found found text = do
    note_line text
    raise_if (any (found_in text) g.not_expected) assertion_error
    λ s.
        let (found', s') = scan text 0 g.expected found s in
        (
          ok (prompt_found || (g.wait_for_prompt && found_in text (regex g.prompt_regex)), found'),
          s',
        )

  unfoldable pub read_round : Goal → Bool → Option ℕ → Act (Reader P) (Bool × Option ℕ)
  unfolding get_line judge
  read_round g prompt_found found = get_line P >>= judge g prompt_found found

  abbrev pub next_round : (Bool → Option ℕ → Act (Reader P) ℤ) → Step → Act (Reader P) ℤ
  next_round again (finished i) = pure i
  next_round again (unfinished prompt_found found) = again prompt_found found

  -- `while True:`
  unfoldable pub expect_rounds : ℕ → Goal → ℕ → Bool → Option ℕ → Act (Reader P) ℤ
  unfolding read_round conclude
  expect_rounds zero g end_time prompt_found found = cut_off
  expect_rounds (suc fuel) g end_time prompt_found found =
      read_round g prompt_found found
      >>= (λ marks. conclude g end_time marks.0 marks.1)
      >>= next_round (λ b f. expect_rounds fuel g end_time b f)

  -- The prompt in force: the argument, or else the attribute.
  unfoldable pub prompt_in_force : Option Prompt → Bool → Option String → Result String
  unfolding get_prompt_regex
  prompt_in_force (some prompt) wait_for_prompt kept = ok (get_prompt_regex P prompt)
  prompt_in_force none wait_for_prompt (some kept) = ok kept
  prompt_in_force none wait_for_prompt none = if wait_for_prompt then raised value_error else ok ""

  -- `_expect`, for lists of patterns that compile.
  unfoldable pub expect_patterns :
      ℕ → List Pattern → List Pattern → ℕ → Bool → Option Prompt → Act (Reader P) ℤ
  unfolding prompt_in_force expect_rounds
  expect_patterns fuel expected not_expected timeout wait_for_prompt prompt = do
    raise_if (is_empty expected && (is_empty not_expected && not wait_for_prompt)) value_error
    kept ← gets λ s. s.prompt_regex
    prompt_regex ← lift (prompt_in_force prompt wait_for_prompt kept)
    modify λ s. record s { matched = "" }
    t ← clock_now P
    modify λ s. record s { output_lines = [] }
    expect_rounds fuel (goal expected not_expected wait_for_prompt prompt_regex timeout)
        (t + timeout) (not wait_for_prompt) none
