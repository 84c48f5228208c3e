-- ===== src/LocalConsole.antt =====
-- src/coppercomm/device_common/local_console.py: `resolve_path` and `execute_command`.
pub mod Outcomes
use coppercomm.Prelude.{
  ℕ, String, Bool, true, false, ◌&&◌, not, Option, none, some, List, [], ◌∷◌, ℤ, pos, if◌then◌else◌,
  truthy, split_lines, join, select, contains_int, Act, Result, ok, raised, pure, raise, raise_if,
  gets, ◌>>=◌, ◌>>◌, value_error, runtime_error, timeout_expired, os_error, command_failed,
  pattern_not_found, re_error, lift,
}
use coppercomm.Shlex.{shlex_split}
use coppercomm.Host.{Host, Completion, completed, expired, unstartable}

-- A command is a text, which is split as a shell does, or a list of words.
pub data Command : Type 0 where
  line : String → Command
  words : List String → Command

-- The keyword arguments. `log_output` only decides what is logged, and is left out.
pub record Options : Type 0 where
  pub assert_ok : Bool
  pub timeout : Option ℕ
  pub cwd : Option String
  pub pattern : Option String
  pub regrep : Option String
  pub valid_exit_codes : List ℤ

abbrev pub defaults : Options
defaults = record {
  assert_ok = true;
  timeout = none;
  cwd = none;
  pattern = none;
  regrep = none;
  valid_exit_codes = pos 0 ∷ [];
}

-- `command = shlex.split(command)` for a text.
unfoldable pub command_words : {S : Type 0} → Command → Act S (List String)
command_words (words ws) = pure ws
command_words (line text) = elim (shlex_split text) [ none ↦ raise value_error | some ws ↦ pure ws ]

module _ (H : Host) where
  unfoldable pub resolve_path : String → Act H.State String
  resolve_path path s = elim (H.glob (H.expand_user (H.expand_vars path s) s) s) [
    | candidate ∷ [] ↦ (ok candidate, s)
    | _ ↦ (raised runtime_error, s)
  ]

  -- `subprocess.run`, with its `TimeoutExpired` turned into `TimeoutExpiredError`.
  abbrev pub report : Completion × H.State → Result (String × ℤ) × H.State
  report (completed output code, s) = (ok (output, code), s)
  report (expired, s) = (raised timeout_expired, s)
  report (unstartable, s) = (raised os_error, s)

  abbrev pub matches : String → String → Bool
  matches pattern text = elim (H.search pattern text) [ none ↦ false | some _ ↦ true ]

  -- `[line for line in cmd_output_lines if re.search(regrep, line)]`, joined; where there is no
  -- line, nothing is searched.
  unfoldable pub grep_lines : String → List String → Result String
  grep_lines regrep [] = ok ""
  grep_lines regrep (text ∷ texts) =
      if H.compiles regrep
      then ok (join "\n" (select (matches regrep) (text ∷ texts)))
      else raised re_error

  -- The output, or the lines of it that `regrep` selects.
  unfoldable pub grep : Option String → String → Result String
  unfolding grep_lines
  grep none output = ok output
  grep (some regrep) output =
      if truthy regrep then grep_lines regrep (split_lines output) else ok output

  -- The text, or the part of it that `pattern` matches.
  unfoldable pub pick : Option String → String → Result String
  pick none output = ok output
  pick (some pattern) output =
      if H.compiles pattern
      then elim (H.search pattern output) [
        | none ↦ raised pattern_not_found
        | some found ↦ ok found
      ]
      else raised re_error

  unfoldable pub execute_words : List String → Options → Act H.State String
  unfolding grep pick
  execute_words argv o = do
    (output, code) ← λ s. report (H.run argv o.timeout o.cwd s)
    text ← lift (grep o.regrep output)
    raise_if (o.assert_ok && not (contains_int o.valid_exit_codes code)) command_failed
    λ s. (pick o.pattern text, s)

  unfoldable pub execute_command : Command → Options → Act H.State String
  unfolding command_words execute_words
  execute_command command o = command_words command >>= λ argv. execute_words argv o
