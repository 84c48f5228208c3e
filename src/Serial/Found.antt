-- ===== src/Serial/Found.antt =====
-- What the result of `expect` says of the lines that were read.
use coppercomm.Prelude.{
  ℕ, zero, suc, ◌+◌, ◌≡◌, refl, ap, ◌∙◌, String, Bool, ◌&&◌, ◌||◌, not, Option, none, some, List,
  [], get_elem?, ltb, inl, inr, Bool-cases, ℤ, pos, Result, ok, raised, no_fuel, pure, lift,
  continue, ◌>>=◌, value_error,
}
use coppercomm.Loops.Results.{After, continue-After, raise_if-After, lift-After}
use coppercomm.Serial.{Port, Pattern, on_timeout, Prompt, Reader, is_empty, is_missing}
use coppercomm.Serial.Expect.{
  Goal, goal, Step, finished, unfinished, late, conclude, read_round, next_round, expect_rounds,
  expect_patterns, prompt_in_force,
}
use coppercomm.Serial.Indices.{From-start, get_elem-timeout_index}
use coppercomm.Serial.Reads.{unread, told_time, Holds}
use coppercomm.Serial.Scanned.{FoundSince, Known, read_round-Known, answer-FoundSince}

module _ (P : Port) where
  late-on_timeout :
      (g : Goal) (prompt_found : Bool) (i : ℕ)
      → late g prompt_found ≡ ok (pos i)
      → get_elem? g.expected i ≡ some on_timeout
  unfolding late
  late-on_timeout g prompt_found i = elim (Bool-cases (g.wait_for_prompt && not prompt_found)) [
    | inl missing ↦ rw (late, missing) (λ e. absurd (cc))
    | inr prompted ↦ elim (Bool-cases (is_empty g.expected)) [
      | inl nothing ↦ rw (late, prompted, nothing) (λ e. absurd (cc))
      | inr something ↦
          rw (late, prompted, something)
            (get_elem-timeout_index g.expected g.expected 0 i (From-start g.expected))
    ]
  ]

  -- What a round concludes: the result, or what holds of the noted index.
  abbrev Concluded : P.State → List Pattern → Step → Reader P → Type 0
  Concluded start expected (finished r) s = FoundSince P start expected r s
  Concluded start expected (unfinished b found) s = Known P start expected found s

  late-Concluded :
      (start : P.State) (g : Goal) (prompt_found : Bool) (texts : List String) (s : Reader P)
      → Holds P start texts s
      → After
          (Concluded start g.expected)
          ((lift (late g prompt_found) >>= λ i. pure (finished i)) s)
  late-Concluded start g prompt_found texts s holds = outcome (late g prompt_found) refl
    where
      outcome :
          (r : Result ℤ)
          → late g prompt_found ≡ r
          → After (Concluded start g.expected) (continue (λ i. pure (finished i)) (r, s))
      outcome (ok x) e =
          (texts, holds, λ i at. inr (late-on_timeout g prompt_found i (e ∙ ap ok at)))
      outcome (raised x) e = tt
      outcome no_fuel e = tt

  conclude-Concluded :
      (start : P.State) (g : Goal) (end_time : ℕ) (prompt_found : Bool) (found : Option ℕ)
      (s : Reader P)
      → Known P start g.expected found s
      → After (Concluded start g.expected) (conclude P g end_time prompt_found found s)
  unfolding conclude
  conclude-Concluded start g end_time prompt_found found s known =
      let (texts, (since, same), noted) = known in
      let later : Holds P start texts (record s { port = (P.clock s.port).1 }) =
        (told_time since, same) in
      elim (Bool-cases (
        prompt_found
        && not
            (is_missing found && (not (is_empty g.expected) || not (is_empty g.not_expected))))) [
              | inl done ↦ rw (conclude, done) (answer-FoundSince P start g.expected found s known)
              | inr more ↦ elim (Bool-cases (ltb 0 g.timeout)) [
                | inr unlimited ↦ rw (conclude, more, unlimited) known
                | inl limited ↦ elim (Bool-cases (ltb end_time (P.clock s.port).0)) [
                  | inl over ↦
                      rw (conclude, more, limited, over)
                        (late-Concluded start g prompt_found texts
                          (record s { port = (P.clock s.port).1 }) later)
                  | inr early ↦ rw (conclude, more, limited, early) (texts, later, noted)
                ]
              ]
            ]

  expect_rounds-FoundSince :
      (start : P.State) (fuel : ℕ) (g : Goal) (end_time : ℕ) (prompt_found : Bool)
      (found : Option ℕ) (s : Reader P)
      → Known P start g.expected found s
      → After (FoundSince P start g.expected) (expect_rounds P fuel g end_time prompt_found found s)
  unfolding expect_rounds
  expect_rounds-FoundSince start zero g end_time prompt_found found s known = tt
  expect_rounds-FoundSince start (suc fuel) g end_time prompt_found found s known =
      continue-After (Concluded start g.expected) (FoundSince P start g.expected)
        (next_round P (λ b f. expect_rounds P fuel g end_time b f))
        (onward (expect_rounds-FoundSince start fuel g end_time))
        ((read_round P g prompt_found found >>= λ marks. conclude P g end_time marks.0 marks.1) s).0
        ((read_round P g prompt_found found >>= λ marks. conclude P g end_time marks.0 marks.1) s).1
        (continue-After (λ marks. Known P start g.expected marks.1) (Concluded start g.expected)
          (λ marks. conclude P g end_time marks.0 marks.1)
          (λ marks s' kept. conclude-Concluded start g end_time marks.0 marks.1 s' kept)
          (read_round P g prompt_found found s).0 (read_round P g prompt_found found s).1
          (read_round-Known P start g prompt_found found s known))
    where
      onward :
          ((b : Bool) (f : Option ℕ) (s' : Reader P)
            → Known P start g.expected f s'
            → After (FoundSince P start g.expected) (expect_rounds P fuel g end_time b f s'))
          → (step : Step) (s' : Reader P) → Concluded start g.expected step s'
          → After
              (FoundSince P start g.expected)
              (next_round P (λ b f. expect_rounds P fuel g end_time b f) step s')
      onward later (finished i) s' kept = kept
      onward later (unfinished b f) s' kept = later b f s' kept

  -- When `_expect` returns, `output_lines` holds the lines that this call has read of the port, all
  -- of them, in their order and without their carriage returns. If it returns an index of the
  -- expected patterns, the pattern of that index is `TIMEOUT`, or it is found in one of these
  -- lines, and the text that it matched there is what `get_matched` gives. An index that is
  -- returned is never beyond the list.
  pub expect_patterns-Found :
      (fuel : ℕ) (expected not_expected : List Pattern) (timeout : ℕ) (wait_for_prompt : Bool)
      (prompt : Option Prompt) (start : Reader P)
      → After
          (FoundSince P start.port expected)
          (expect_patterns P fuel expected not_expected timeout wait_for_prompt prompt start)
  unfolding expect_patterns
  expect_patterns-Found fuel expected not_expected timeout wait_for_prompt prompt start =
      raise_if-After (FoundSince P start.port expected)
        (is_empty expected && (is_empty not_expected && not wait_for_prompt)) value_error _ start
        (lift-After (FoundSince P start.port expected)
          (prompt_in_force P prompt wait_for_prompt start.prompt_regex) _ start
          λ prompt_regex.
            let (t, p) = P.clock start.port in
            expect_rounds-FoundSince start.port fuel
              (goal expected not_expected wait_for_prompt prompt_regex timeout) (t + timeout)
              (not wait_for_prompt) none
              (record start { port = p; matched = ""; output_lines = [] })
              ([], (told_time unread, refl), λ i e. absurd (cc)))
