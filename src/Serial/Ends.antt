-- ===== src/Serial/Ends.antt =====
-- Expecting patterns comes to an end.
use coppercomm.Prelude.{
  ℕ, zero, suc, ◌+◌, ◌≤◌, ◌<◌, ◌≡◌, refl, ap, ◌≢◌, arith, String, Bool, true, false, ◌&&◌, ◌||◌,
  not, Option, none, some, List, [], ◌∷◌, ltb, Bool-cases, Option-cases, ◌∙◌, inl, inr, ℤ, any,
  Error, Act, Result, ok, raised, no_fuel, pure, lift, gets, raise_if, continue, value_error,
}
use coppercomm.Loops.Total.{Terminates, Terminates-bind, Terminates-gets}
use coppercomm.Serial.{Port, Pattern, Prompt, Reader, is_empty, on_timeout, regex, is_missing}
use coppercomm.Serial.Expect.{
  Goal, goal, Step, finished, unfinished, conclude, next_round, judge, scan, note_line, late,
  timeout_index, found_in, first_match, read_round, expect_rounds, expect_patterns, prompt_in_force,
}
use coppercomm.Serial.Steady.{IsSteady, port_time, after_line-Later}

module _ (P : Port) (L : IsSteady P) where
  first_match-port :
      (i : ℕ) (text : String) (found : Option ℕ) (s : Reader P)
      → (first_match P i text found s).1.port ≡ s.port
  first_match-port i text found s = ground arith

  scan-port :
      (text : String) (k : ℕ) (patterns : List Pattern) (found : Option ℕ) (s : Reader P)
      → (scan P text k patterns found s).1.port ≡ s.port
  unfolding scan
  scan-port text k [] found s = refl
  scan-port text k (on_timeout ∷ patterns) found s = scan-port text (suc k) patterns found s
  scan-port text k (regex p ∷ patterns) found s = elim (Option-cases (P.search p text)) [
    | inl nothing ↦ rw (scan, nothing) (scan-port text (suc k) patterns found s)
    | inr (m, seen) ↦
        rw (scan, seen)
          (scan-port text (suc k) patterns (first_match P k m found s).0
              (first_match P k m found s).1
            ∙ first_match-port k m found s)
  ]

  judge-Terminates :
      (g : Goal) (prompt_found : Bool) (found : Option ℕ) (text : String)
      → Terminates (port_time P L) (judge P g prompt_found found text)
  unfolding judge note_line
  judge-Terminates g prompt_found found text = record {
    ends = λ s. (both s).0;
    later = λ s. (both s).1;
  }
    where
      both :
          (s : Reader P)
          → ((judge P g prompt_found found text s).0 ≢ no_fuel)
            × (port_time P L s ≤ port_time P L (judge P g prompt_found found text s).1)
      both s = elim (Bool-cases (any (found_in P text) g.not_expected)) [
        | inl forbidden ↦ rw (judge, forbidden) (λ e. cc, omega arith)
        | inr fine ↦
            rw (judge, fine)
              (
                λ e. cc,
                omega (arith, ap P.time (scan-port text 0 g.expected found (note_line P text s).1)),
              )
      ]

  timeout_index-ne-no_fuel : (i : ℕ) (patterns : List Pattern) → timeout_index i patterns ≢ no_fuel
  unfolding timeout_index
  timeout_index-ne-no_fuel i [] e = cc
  timeout_index-ne-no_fuel i (regex p ∷ patterns) e = timeout_index-ne-no_fuel (suc i) patterns e
  timeout_index-ne-no_fuel i (on_timeout ∷ patterns) e = cc

  late-ne-no_fuel : (g : Goal) (prompt_found : Bool) → late g prompt_found ≢ no_fuel
  unfolding late
  late-ne-no_fuel g prompt_found e = ground (arith, timeout_index-ne-no_fuel 0 g.expected)

  -- How a decision ends: not for want of fuel, and with another round only before the end time.
  abbrev Decided : ℕ → Result Step → ℕ → Type 0
  Decided end_time r t =
      (r ≢ no_fuel) × ((b : Bool) (f : Option ℕ) → r ≡ ok (unfinished b f) → t ≤ end_time)

  late-Decided :
      (end_time before : ℕ) (r : Result ℤ) (s : Reader P)
      → r ≢ no_fuel
      → before ≤ port_time P L s
      → Decided end_time
          (continue {B = Step} (λ i. pure (finished i)) (r, s)).0
          (port_time P L (continue {B = Step} (λ i. pure (finished i)) (r, s)).1)
        × (before ≤ port_time P L (continue {B = Step} (λ i. pure (finished i)) (r, s)).1)
  late-Decided end_time before (ok i) s ne h = ((λ e. cc, λ b f e. absurd (cc)), h)
  late-Decided end_time before (raised x) s ne h = ((λ e. cc, λ b f e. absurd (cc)), h)
  late-Decided end_time before no_fuel s ne h = absurd (ne refl)

  conclude-Ends :
      (g : Goal) (end_time : ℕ) (prompt_found : Bool) (found : Option ℕ) (s : Reader P)
      → 0 < g.timeout
      → Decided end_time
          (conclude P g end_time prompt_found found s).0
          (port_time P L (conclude P g end_time prompt_found found s).1)
        × (port_time P L s ≤ port_time P L (conclude P g end_time prompt_found found s).1)
  unfolding conclude
  conclude-Ends g end_time prompt_found found s limited =
      elim (Bool-cases (
        prompt_found
        && not
            (is_missing found && (not (is_empty g.expected) || not (is_empty g.not_expected))))) [
              | inl done ↦ rw (conclude, done) ((λ e. cc, λ b f e. absurd (cc)), omega arith)
              | inr more ↦ elim (Bool-cases (ltb end_time (P.clock s.port).0)) [
                | inl over ↦
                    rw (conclude, more, positive g.timeout limited, over)
                      (late-Decided end_time (port_time P L s) (late g prompt_found)
                        (record s { port = (P.clock s.port).1 }) (late-ne-no_fuel g prompt_found)
                        (L.time-clock s.port))
                | inr early ↦
                    rw (conclude, more, positive g.timeout limited, early)
                      (
                        (λ e. cc, λ b f e. in_time early (L.clock_shows s.port)),
                        L.time-clock s.port,
                      )
              ]
            ]
    where
      positive : (n : ℕ) → 0 < n → ltb 0 n ≡ true
      positive n h = ground arith

      in_time : {shown t : ℕ} → ltb end_time shown ≡ false → shown ≡ t → t ≤ end_time
      in_time h e = ground arith

  -- A call that began at the time `t` has come to an end.
  abbrev Ended : {A : Type 0} → ℕ → Result A × Reader P → Type 0
  Ended t (r, s) = (r ≢ no_fuel) × (t ≤ port_time P L s)

  next_round-Ended :
      (again : Bool → Option ℕ → Act (Reader P) ℤ) (end_time before : ℕ) (r : Result Step)
      (s : Reader P)
      → Decided end_time r (port_time P L s)
      → before ≤ port_time P L s
      → ((b : Bool) (f : Option ℕ)
          → port_time P L s ≤ end_time
          → Ended (port_time P L s) (again b f s))
      → Ended before (continue (next_round P again) (r, s))
  next_round-Ended again end_time before (ok (finished i)) s d h rounds = (λ e. cc, h)
  next_round-Ended again end_time before (ok (unfinished b f)) s d h rounds =
      let later = rounds b f (d.1 b f refl) in (later.0, omega (arith, later.1))
  next_round-Ended again end_time before (raised x) s d h rounds = (λ e. cc, h)
  next_round-Ended again end_time before no_fuel s d h rounds = absurd (d.0 refl)

  module _ (g : Goal) (end_time : ℕ) (limited : 0 < g.timeout) where
    marks-Ended :
        (again : Bool → Option ℕ → Act (Reader P) ℤ) (before : ℕ) (r : Result (Bool × Option ℕ))
        (s : Reader P)
        → (r ≢ no_fuel) × (before < port_time P L s)
        → ((b : Bool) (f : Option ℕ) (s' : Reader P)
            → before < port_time P L s'
            → port_time P L s' ≤ end_time
            → Ended (port_time P L s') (again b f s'))
        → Ended before (
            continue
              (next_round P again)
              (continue (λ marks. conclude P g end_time marks.0 marks.1) (r, s)))
    marks-Ended again before (ok marks) s h rounds =
        let (d, later) = conclude-Ends g end_time marks.0 marks.1 s limited in
        next_round-Ended again end_time before (conclude P g end_time marks.0 marks.1 s).0
          (conclude P g end_time marks.0 marks.1 s).1 d (omega (arith, h.1))
          λ b f early.
            rounds b f (conclude P g end_time marks.0 marks.1 s).1 (omega (arith, h.1)) early
    marks-Ended again before (raised x) s h rounds = (λ e. cc, omega (arith, h.1))
    marks-Ended again before no_fuel s h rounds = absurd (h.0 refl)

    expect_rounds-Ended :
        (fuel : ℕ) (prompt_found : Bool) (found : Option ℕ) (s : Reader P)
        → 0 < fuel
        → end_time < port_time P L s + fuel
        → Ended (port_time P L s) (expect_rounds P fuel g end_time prompt_found found s)
    unfolding expect_rounds read_round
    expect_rounds-Ended zero prompt_found found s some_left enough = absurd (omega arith)
    expect_rounds-Ended (suc fuel) prompt_found found s some_left enough =
        marks-Ended (λ b f. expect_rounds P fuel g end_time b f) (port_time P L s)
          (read_round P g prompt_found found s).0 (read_round P g prompt_found found s).1
          (after_line-Later P L (judge P g prompt_found found)
            (judge-Terminates g prompt_found found) s)
          λ b f s' later early. expect_rounds-Ended fuel b f s' (omega arith) (omega arith)

  prompt_in_force-ne-no_fuel :
      (prompt : Option Prompt) (wait_for_prompt : Bool) (kept : Option String)
      → prompt_in_force P prompt wait_for_prompt kept ≢ no_fuel
  unfolding prompt_in_force
  prompt_in_force-ne-no_fuel (some prompt) wait_for_prompt kept e = cc
  prompt_in_force-ne-no_fuel none wait_for_prompt (some kept) e = cc
  prompt_in_force-ne-no_fuel none true none e = cc
  prompt_in_force-ne-no_fuel none false none e = cc

  raise_if-Terminates : (b : Bool) (x : Error) → Terminates (port_time P L) (raise_if b x)
  raise_if-Terminates true x = record { ends = λ s e. cc; later = λ s. omega arith }
  raise_if-Terminates false x = record { ends = λ s e. cc; later = λ s. omega arith }

  -- With a time limit above 0, and fuel above it, `_expect` ends, by a return or by an exception,
  -- whatever the port reads, if the clock shows the time, time does not run backwards, and the
  -- reading of a line takes time.
  pub expect_patterns-Terminates :
      (fuel : ℕ) (expected not_expected : List Pattern) (timeout : ℕ) (wait_for_prompt : Bool)
      (prompt : Option Prompt)
      → 0 < timeout
      → timeout < fuel
      → Terminates
          (port_time P L)
          (expect_patterns P fuel expected not_expected timeout wait_for_prompt prompt)
  unfolding expect_patterns
  expect_patterns-Terminates fuel expected not_expected timeout wait_for_prompt prompt limited
        enough =
      Terminates-bind
        (raise_if (is_empty expected && (is_empty not_expected && not wait_for_prompt)) value_error)
        _ (raise_if-Terminates _ value_error)
        λ _. Terminates-bind (gets λ s. s.prompt_regex) _ (Terminates-gets _) λ kept.
          Terminates-bind (lift (prompt_in_force P prompt wait_for_prompt kept)) _
            (record {
              ends = λ s. prompt_in_force-ne-no_fuel prompt wait_for_prompt kept;
              later = λ s. omega arith;
            })
            λ prompt_regex. record {
              ends = λ s. (rounds prompt_regex s).0;
              later = λ s. omega (arith, (rounds prompt_regex s).1, L.time-clock s.port);
            }
    where
      rounds :
          (prompt_regex : String) (s : Reader P)
          → Ended (P.time (P.clock s.port).1) (
              expect_rounds P fuel
                (goal expected not_expected wait_for_prompt prompt_regex timeout)
                ((P.clock s.port).0 + timeout)
                (not wait_for_prompt)
                none
                (record s { port = (P.clock s.port).1; matched = ""; output_lines = [] }))
      rounds prompt_regex s =
          expect_rounds-Ended (goal expected not_expected wait_for_prompt prompt_regex timeout)
            ((P.clock s.port).0 + timeout) limited fuel (not wait_for_prompt) none
            (record s { port = (P.clock s.port).1; matched = ""; output_lines = [] }) (omega arith)
            (omega (arith, L.clock_shows s.port))
