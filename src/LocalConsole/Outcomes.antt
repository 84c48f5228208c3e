-- ===== src/LocalConsole/Outcomes.antt =====
-- What `execute_command` returns and raises.
use coppercomm.Prelude.{
  no_fuel, ◌≢◌, String, Bool, true, false, ◌≡◌, refl, ◌↔◌, Option, none, some, List, arith, ℤ,
  contains_int, not, ok, raised, timeout_expired, os_error, command_failed, Result, ◌&&◌,
  if◌then◌else◌, [], ◌∷◌, split_lines,
}
use coppercomm.Host.{Host, Completion, completed, expired, unstartable}
use coppercomm.LocalConsole.{Options, grep, grep_lines, pick, execute_words}

-- Whether a caller takes an exit code for a success.
abbrev pub accepts : Options → ℤ → Bool
accepts o code = not (o.assert_ok && not (contains_int o.valid_exit_codes code))

module _ (H : Host) where
  -- What one run of the process makes of the call.
  abbrev judged : Options → ℤ → Result String → Result String
  judged o code (ok text) = if accepts o code then pick H o.pattern text else raised command_failed
  judged o code (raised e) = raised e
  judged o code no_fuel = no_fuel

  abbrev pub verdict : Options → Completion → Result String
  verdict o (completed output code) = judged o code (grep H o.regrep output)
  verdict o expired = raised timeout_expired
  verdict o unstartable = raised os_error

  -- The outcome of `execute_command` is a function of how the one process that it starts ended.
  pub execute_words-verdict :
      (argv : List String) (o : Options) (s : H.State)
      → execute_words H argv o s
        ≡ (verdict o (H.run argv o.timeout o.cwd s).0, (H.run argv o.timeout o.cwd s).1)
  unfolding execute_words
  execute_words-verdict argv o s = ground arith

  pick-ne-command_failed :
      (pattern : Option String) (text : String) → pick H pattern text ≡ raised command_failed → ⊥
  unfolding pick
  pick-ne-command_failed pattern text h = ground arith

  grep_lines-ne :
      (regrep : String) (texts : List String)
      → (grep_lines H regrep texts ≢ raised command_failed) × (grep_lines H regrep texts ≢ no_fuel)
  unfolding grep_lines
  grep_lines-ne regrep [] = (λ h. cc, λ h. cc)
  grep_lines-ne regrep (text ∷ texts) = (λ h. ground arith, λ h. ground arith)

  grep-ne :
      (regrep : Option String) (output : String)
      → (grep H regrep output ≢ raised command_failed) × (grep H regrep output ≢ no_fuel)
  unfolding grep
  grep-ne none output = (λ h. cc, λ h. cc)
  grep-ne (some regrep) output =
      let (failed, cut) = grep_lines-ne regrep (split_lines output) in
      (λ h. ground (arith, failed), λ h. ground (arith, cut))

  abbrev Refused : Options → Completion → Type 0
  Refused o c =
      (output : String) × (code : ℤ) × (text : String) × (c ≡ completed output code)
      × (grep H o.regrep output ≡ ok text)
      × (o.assert_ok ≡ true)
      × (contains_int o.valid_exit_codes code ≡ false)

  Refused-verdict :
      (o : Options) (c : Completion) → Refused o c → verdict o c ≡ raised command_failed
  Refused-verdict o c (output, code, text, ended, kept, checked, bad) =
      rw ended (rw kept (ground arith))

  judged-Refused :
      (o : Options) (code : ℤ) (r : Result String)
      → r ≢ raised command_failed
      → judged o code r ≡ raised command_failed
      → (text : String) × (r ≡ ok text)
        × (o.assert_ok ≡ true)
        × (contains_int o.valid_exit_codes code ≡ false)
  judged-Refused o code (ok text) ne h =
      let impossible = pick-ne-command_failed o.pattern text in
      (text, refl, ground (arith, impossible), ground (arith, impossible))
  judged-Refused o code (raised e) ne h = absurd (ne h)
  judged-Refused o code no_fuel ne h = cc

  verdict-Refused :
      (o : Options) (c : Completion) → verdict o c ≡ raised command_failed → Refused o c
  verdict-Refused o (completed output code) h =
      let (text, kept, checked, bad) =
        judged-Refused o code (grep H o.regrep output) (grep-ne o.regrep output).0 h in
      (output, code, text, refl, kept, checked, bad)
  verdict-Refused o expired h = cc
  verdict-Refused o unstartable h = cc

  -- `execute_command`, for a list of words, raises `CommandFailedError` exactly when the process
  -- ended with an exit code that the caller checks and does not accept, and the search for `regrep`
  -- in its output, which comes first, has not raised.
  pub execute_words-command_failed :
      (argv : List String) (o : Options) (s : H.State)
      → ((execute_words H argv o s).0 ≡ raised command_failed) ↔ (
          (output : String) × (code : ℤ) × (text : String) × ((H.run argv o.timeout o.cwd s).0
            ≡ completed output code)
          × (grep H o.regrep output ≡ ok text)
          × (o.assert_ok ≡ true)
          × (contains_int o.valid_exit_codes code ≡ false))
  execute_words-command_failed argv o s =
      rw execute_words-verdict (verdict-Refused o _, Refused-verdict o _)

  judged-ne-no_fuel :
      (o : Options) (code : ℤ) (r : Result String) → r ≢ no_fuel → judged o code r ≢ no_fuel
  unfolding pick
  judged-ne-no_fuel o code (ok text) ne h = ground arith
  judged-ne-no_fuel o code (raised e) ne h = cc
  judged-ne-no_fuel o code no_fuel ne h = ne refl

  pub verdict-ne-no_fuel : (o : Options) (c : Completion) → verdict o c ≢ no_fuel
  verdict-ne-no_fuel o (completed output code) h =
      judged-ne-no_fuel o code (grep H o.regrep output) (grep-ne o.regrep output).1 h
  verdict-ne-no_fuel o expired h = cc
  verdict-ne-no_fuel o unstartable h = cc
