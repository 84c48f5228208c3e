-- ===== src/Shlex.antt =====
-- `shlex.split` and `shlex.quote` of Python's standard library, as the command builders of
-- src/coppercomm/device_common/local_console.py, src/coppercomm/device_adb/adb_interface.py and
-- src/coppercomm/fastboot_interface.py call them: POSIX mode, no comment characters, words split at
-- white space only.
pub mod RoundTrip
use Prim.Native.Char.{Char, code}
use coppercomm.Prelude.{
  ℕ, String, ◌<>◌, Bool, true, false, ◌&&◌, ◌||◌, not, Option, none, some, List, [], ◌∷◌, str_eq,
  leb, ◌==◌, if◌then◌else◌,
}

-- Where the lexer stands: between or within bare text, in quotes, or behind a backslash.
pub data Mode : Type 0 where
  bare single double bare_escape double_escape : Mode

abbrev pub is_blank : ℕ → Bool
is_blank c = c == 32 || c == 9 || c == 13 || c == 10

abbrev pub add : String → Char → String
add word c = word <> String.◌∷◌ c ""

abbrev pub emit : Bool → String → Option (List String) → Option (List String)
emit quoted word none = none
emit quoted word (some words) =
    some (if quoted || not (str_eq word "") then word ∷ words else words)

-- The words of the rest, the first of which has begun with `word`; `quoted` says that it had
-- quotes, so that it counts when it is empty. `none` is the `ValueError` of an open quotation or
-- of a backslash at the end.
unfoldable pub lex : Mode → Bool → String → String → Option (List String)
lex bare quoted word String.[] = emit quoted word (some [])
lex bare quoted word (String.◌∷◌ c s) =
    let next = emit quoted word (lex bare false "" s) in
    let in_single = lex single true word s in
    let in_double = lex double true word s in
    let escaped = lex bare_escape quoted word s in
    let longer = lex bare quoted (add word c) s in
    if is_blank (code c)
    then next
    else if code c == 39
    then in_single
    else if code c == 34
    then in_double
    else if code c == 92
    then escaped
    else longer
lex single quoted word String.[] = none
lex single quoted word (String.◌∷◌ c s) =
    let closed = lex bare quoted word s in
    let longer = lex single quoted (add word c) s in if code c == 39 then closed else longer
lex double quoted word String.[] = none
lex double quoted word (String.◌∷◌ c s) =
    let closed = lex bare quoted word s in
    let escaped = lex double_escape quoted word s in
    let longer = lex double quoted (add word c) s in
    if code c == 34 then closed else if code c == 92 then escaped else longer
lex bare_escape quoted word String.[] = none
lex bare_escape quoted word (String.◌∷◌ c s) = lex bare quoted (add word c) s
lex double_escape quoted word String.[] = none
lex double_escape quoted word (String.◌∷◌ c s) =
    lex double quoted (add (if code c == 34 || code c == 92 then word else word <> "\\") c) s

-- `shlex.split(s)`
unfoldable pub shlex_split : String → Option (List String)
unfolding lex
shlex_split = lex bare false ""

-- `[\w@%+=:,./-]` over ASCII: what `shlex.quote` leaves bare.
abbrev pub is_safe : ℕ → Bool
is_safe c =
    (leb b'a' c && leb c b'z')
    || (leb b'A' c && leb c b'Z')
    || (leb 43 c && leb c 58)
    || c == 95
    || c == 64
    || c == 37
    || c == 61

abbrev pub all_safe : String → Bool
all_safe String.[] = true
all_safe (String.◌∷◌ c s) = is_safe (code c) && all_safe s

-- `s.replace("'", "'\"'\"'")`
escape : String → String
escape String.[] = ""
escape (String.◌∷◌ c s) = (if code c == 39 then "'\"'\"'" else String.◌∷◌ c "") <> escape s

-- `shlex.quote(s)`
unfoldable pub quote : String → String
unfolding escape
quote s = if str_eq s "" then "''" else if all_safe s then s else "'" <> (escape s <> "'")
