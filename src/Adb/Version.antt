-- ===== src/Adb/Version.antt =====
-- `Adb.get_adb_version`: the main version in what `adb --version` prints, which is ASCII.
use Prim.Native.Char.{code}
use coppercomm.Prelude.{
  ◌==◌, ◌≡◌, refl, String, ◌<>◌, str_eq, split, split_on, Bool, false, ◌&&◌, ◌||◌, if◌then◌else◌,
  Option, none, some, List, [], ◌∷◌, ℤ, pos, int_eq, index_error, value_error, called_process_error,
  process_timeout, os_error, Act, Result, ok, raised, no_fuel, pure, raise, lift, ◌>>=◌,
}
use coppercomm.Host.{Host, Completion, completed, expired, unstartable}
use coppercomm.Config.Value.{int_of}

-- `bytes.splitlines`, of which "\n", "\r" and "\r\n" end a line; `after_cr` says that a "\r" stood
-- before.
unfoldable pub byte_lines : Bool → String → String → List String
byte_lines after_cr line String.[] = if str_eq line "" then [] else line ∷ []
byte_lines after_cr line (String.◌∷◌ c s) =
    let skip = byte_lines false "" s in
    let next = line ∷ byte_lines (code c == 13) "" s in
    let longer = byte_lines false (line <> String.◌∷◌ c "") s in
    if after_cr && code c == 10 then skip else if code c == 10 || code c == 13 then next else longer

-- `xs[1]`
abbrev second : List String → Result String
second (x ∷ y ∷ rest) = ok y
second xs = raised index_error

abbrev first_part : List String → String
first_part [] = ""
first_part (part ∷ parts) = part

abbrev to_int : Option ℤ → Result ℤ
to_int none = raised value_error
to_int (some n) = ok n

abbrev number_of : Result String → Result ℤ
unfolding split_on int_of
number_of (ok word) = to_int (int_of (first_part (split_on 46 word)))
number_of (raised e) = raised e
number_of no_fuel = no_fuel

abbrev word_of : Result String → Result String
unfolding split
word_of (ok row) = second (split row)
word_of (raised e) = raised e
word_of no_fuel = no_fuel

unfoldable pub version_in : String → Result ℤ
unfolding byte_lines word_of number_of
version_in output = number_of (word_of (second (byte_lines false "" output)))

module _ (H : Host) where
  -- How `check_output` ends.
  abbrev checked_output : Completion → Act H.State String
  checked_output (completed output code) =
      if int_eq code (pos 0) then pure output else raise called_process_error
  checked_output expired = raise process_timeout
  checked_output unstartable = raise os_error

  unfoldable pub get_adb_version : Act H.State ℤ
  unfolding version_in
  get_adb_version =
      (λ s. let (c, s') = H.capture ("adb" ∷ "--version" ∷ []) s in (ok c, s'))
      >>= checked_output
      >>= λ output. lift (version_in output)

version_runs :
    version_in
      "Android Debug Bridge version 1.0.41\r\nVersion 34.0.0-9570255\nInstalled as /usr/local/bin/adb\n"
    ≡ ok (pos 34)
unfolding version_in
version_runs = refl
