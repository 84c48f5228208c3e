-- ===== src/Prelude/Text.antt =====
-- Python's text operations on native strings: `in`, `strip`, `split`, `splitlines`, `join`.
use Prim.Native.Nat.{ℕ}
use Prim.Native.Char.{code}
use Prim.Native.String.{String, ◌++◌ as ◌<>◌}
use mathlib.Core.Bool.{Bool, true, false, ◌&&◌, ◌||◌, not}
use mathlib.Core.Option.{none, some}
use mathlib.Core.List.{List, [], ◌∷◌}
use text.Mathlib.Text.{find?, ◌==◌ as str_eq}
use coppercomm.Prelude.Tests.{leb, ◌==◌, if◌then◌else◌}

-- `if text:`
abbrev pub truthy : String → Bool
truthy s = not (str_eq s "")

-- `needle in text`
unfoldable pub occurs_in : String → String → Bool
occurs_in needle text = elim (find? text needle) [ none ↦ false | some _ ↦ true ]

-- `str.isspace` of one character.
unfoldable pub is_space : ℕ → Bool
is_space c =
    (leb 9 c && leb c 13)
    || (leb 28 c && leb c 32)
    || c == 0x85
    || c == 0xa0
    || c == 0x1680
    || (leb 0x2000 c && leb c 0x200a)
    || c == 0x2028
    || c == 0x2029
    || c == 0x202f
    || c == 0x205f
    || c == 0x3000

unfoldable pub lstrip : String → String
unfolding is_space
lstrip String.[] = ""
lstrip (String.◌∷◌ c s) = if is_space (code c) then lstrip s else String.◌∷◌ c s

unfoldable pub rstrip : String → String
unfolding is_space
rstrip String.[] = ""
rstrip (String.◌∷◌ c s) =
    let rest = rstrip s in if is_space (code c) && str_eq rest "" then "" else String.◌∷◌ c rest

-- `text.strip()`
unfoldable pub strip : String → String
unfolding lstrip rstrip
strip s = rstrip (lstrip s)

abbrev push_word : String → List String → List String
push_word word words = if str_eq word "" then words else word ∷ words

-- The words of a text whose first word has begun with `word`.
unfoldable pub split_from : String → String → List String
unfolding is_space
split_from word String.[] = push_word word []
split_from word (String.◌∷◌ c s) =
    let next = push_word word (split_from "" s) in
    let longer = split_from (word <> String.◌∷◌ c "") s in
    if is_space (code c) then next else longer

-- `text.split()`
unfoldable pub split : String → List String
unfolding split_from
split = split_from ""

unfoldable pub split_on_from : ℕ → String → String → List String
split_on_from sep part String.[] = part ∷ []
split_on_from sep part (String.◌∷◌ c s) =
    let next = part ∷ split_on_from sep "" s in
    let longer = split_on_from sep (part <> String.◌∷◌ c "") s in
    if code c == sep then next else longer

-- `text.split(sep)` for a separator of one character.
unfoldable pub split_on : ℕ → String → List String
unfolding split_on_from
split_on sep = split_on_from sep ""

-- The line boundaries of `str.splitlines`; "\r\n" is one.
abbrev is_line_end : ℕ → Bool
is_line_end c =
    (leb 10 c && leb c 13) || (leb 28 c && leb c 30) || c == 0x85 || c == 0x2028 || c == 0x2029

-- The lines of a text whose first line has begun with `line`. `after_cr` says that the character
-- before was "\r", so that a "\n" here ends no line of its own.
unfoldable pub lines_from : Bool → String → String → List String
lines_from after_cr line String.[] = push_word line []
lines_from after_cr line (String.◌∷◌ c s) =
    let skip = lines_from false "" s in
    let next = line ∷ lines_from (code c == 13) "" s in
    let longer = lines_from false (line <> String.◌∷◌ c "") s in
    if after_cr && code c == 10 then skip else if is_line_end (code c) then next else longer

-- `text.splitlines()`
unfoldable pub split_lines : String → List String
unfolding lines_from
split_lines = lines_from false ""

-- `sep.join(parts)`
unfoldable pub join : String → List String → String
join sep [] = ""
join sep (x ∷ []) = x
join sep (x ∷ y ∷ xs) = x <> sep <> join sep (y ∷ xs)
