-- ===== src/Adb/Devices.antt =====
-- `Adb.get_all_devices`: the ids of the devices in the output of `adb devices`, by the regular
-- expression of the source over ASCII word characters.
use Prim.Native.Char.{code}
use coppercomm.Prelude.{
  ℕ, zero, suc, ◌-◌, String, ◌<>◌, Bool, ◌&&◌, ◌||◌, Option, none, some, List, [], ◌∷◌, ◌==◌, leb,
  str_eq, if◌then◌else◌, strip, dedup_from, Act, pure, ◌>>=◌,
}
use Prim.Native.String.{count}
use coppercomm.Host.{Host}
use coppercomm.LocalConsole.{defaults, execute_words}

-- `\w` and `\d`
abbrev is_digit : ℕ → Bool
is_digit c = leb b'0' c && leb c b'9'

abbrev is_word : ℕ → Bool
is_word c = is_digit c || (leb b'a' c && leb c b'z') || (leb b'A' c && leb c b'Z') || c == b'_'

-- What a part of the pattern takes from the front of a text: the text taken, and the rest.
abbrev Taken : Type 0
Taken = Option (String × String)

-- Between one and `most` characters of a class, as many as there are. What follows in the pattern
-- is never of the class, so taking fewer could not help it.
unfoldable pub take_run : (ℕ → Bool) → ℕ → String → String × String
take_run class zero s = ("", s)
take_run class (suc most) String.[] = ("", "")
take_run class (suc most) (String.◌∷◌ c s) =
    let (run, rest) = take_run class most s in
    if class (code c) then (String.◌∷◌ c run, rest) else ("", String.◌∷◌ c s)

unfoldable pub take_some : (ℕ → Bool) → ℕ → String → Taken
unfolding take_run
take_some class most s =
    let (run, rest) = take_run class most s in if str_eq run "" then none else some (run, rest)

unfoldable pub take_char : ℕ → String → Taken
take_char k String.[] = none
take_char k (String.◌∷◌ c s) = if code c == k then some (String.◌∷◌ c "", s) else none

-- One part, then another.
abbrev then_take : Taken → (String → Taken) → Taken
then_take none f = none
then_take (some (a, s)) f = elim (f s) [ none ↦ none | some (b, t) ↦ some (a <> b, t) ]

-- As many characters of a class as there are, and one at least.
unfoldable pub take_all : (ℕ → Bool) → String → String × String
take_all class String.[] = ("", "")
take_all class (String.◌∷◌ c s) =
    let (run, rest) = take_all class s in
    if class (code c) then (String.◌∷◌ c run, rest) else ("", String.◌∷◌ c s)

unfoldable pub take_word : String → Taken
unfolding take_all
take_word s =
    let (run, rest) = take_all is_word s in if str_eq run "" then none else some (run, rest)

unfoldable pub take_text : String → String → Taken
unfolding take_char
take_text String.[] s = some ("", s)
take_text (String.◌∷◌ k ks) s = then_take (take_char (code k) s) (take_text ks)

-- `[\d]{1,3}\.`, or with another character behind the digits
unfoldable pub take_part : ℕ → String → Taken
unfolding take_some take_char
take_part k s = then_take (take_some is_digit 3 s) (take_char k)

-- `[\d]{1,3}\.[\d]{1,3}\.[\d]{1,3}\.[\d]{1,3}:[\d]{1,5}`
unfoldable pub take_address : String → Taken
unfolding take_part
take_address s = then_take (take_part b'.' s) λ a.
    then_take (take_part b'.' a) λ b.
      then_take (take_part b'.' b) λ c. then_take (take_part b':' c) λ d. take_some is_digit 5 d

-- `\w+\-\w+`
unfoldable pub take_dashed : String → Taken
unfolding take_word take_char
take_dashed s = then_take (take_word s) λ a. then_take (take_char b'-' a) take_word

-- `(?:\Z|\n)`
unfoldable pub take_end : String → Taken
unfolding take_char
take_end s = if str_eq s "" then some ("", "") else take_char 10 s

-- `\t(?:device|recovery)(?:\Z|\n)`
unfoldable pub take_state : String → Taken
unfolding take_text take_end
take_state s = elim (then_take (take_text "\tdevice" s) take_end) [
  | some taken ↦ some taken
  | none ↦ then_take (take_text "\trecovery" s) take_end
]

-- An id of one shape with its state behind it: the id, and how many characters the match has.
abbrev with_state : Taken → Option (String × ℕ)
with_state none = none
with_state (some (id, s)) = elim (take_state s) [
  | none ↦ none
  | some (end, _) ↦ some (id, count (id <> end))
]

abbrev first_match : Option (String × ℕ) → Option (String × ℕ) → Option (String × ℕ)
first_match (some m) other = some m
first_match none other = other

-- The match of the pattern at the front of a text.
unfoldable pub match_at : String → Option (String × ℕ)
unfolding take_address take_word take_dashed take_state
match_at s =
    first_match (with_state (take_address s))
      (first_match (with_state (take_word s)) (with_state (take_dashed s)))

-- `re.findall`: the group of each match, from the left, none overlapping the one before. The
-- number says how many more characters belong to the last match.
unfoldable pub find_devices : ℕ → String → List String
unfolding match_at
find_devices skip String.[] = []
find_devices (suc skip) (String.◌∷◌ c s) = find_devices skip s
find_devices zero (String.◌∷◌ c s) = elim (match_at (String.◌∷◌ c s)) [
  | none ↦ find_devices zero s
  | some (id, n) ↦ id ∷ find_devices (n - 1) s
]

module _ (H : Host) where
  -- `Adb.get_all_devices()`
  unfoldable pub get_all_devices : Act H.State (List String)
  unfolding find_devices strip dedup_from
  get_all_devices = do
    output ← execute_words H ("adb" ∷ "devices" ∷ []) (record defaults { timeout = some 60000 })
    pure (dedup_from [] (find_devices 0 (strip output)))
