-- ===== src/Config/Value.antt =====
-- What `json.load` gives, and how Python subscripts it.
use Prim.Native.Char.{code}
use coppercomm.Prelude.{
  ℕ, zero, suc, ◌+◌, ◌-◌, ◌*◌, String, Bool, true, false, ◌&&◌, Option, none, some, ℤ, pos, negsuc,
  leb, ltb, ◌==◌, str_eq, if◌then◌else◌, strip, Error, index_error, type_error,
}

mutual
  -- `float` keeps the numeral of a number that is no integer; nothing computes with it.
  pub data Json : Type 0 where
    null : Json
    bool : Bool → Json
    int : ℤ → Json
    float : String → Json
    str : String → Json
    arr : Items → Json
    obj : Fields → Json

  pub data Items : Type 0 where
    nil : Items
    cons : Json → Items → Items

  -- An object, its keys in the order of the file, each once.
  pub data Fields : Type 0 where
    end : Fields
    field : String → Json → Fields → Fields

-- `fields.get(key)`
unfoldable pub member : String → Fields → Option Json
member key end = none
member key (field k value rest) = if str_eq key k then some value else member key rest

abbrev pub item_count : Items → ℕ
item_count nil = 0
item_count (cons x xs) = suc (item_count xs)

abbrev pub item_at : Items → ℕ → Option Json
item_at nil i = none
item_at (cons x xs) zero = some x
item_at (cons x xs) (suc i) = item_at xs i

abbrev pub char_count : String → ℕ
char_count String.[] = 0
char_count (String.◌∷◌ c s) = suc (char_count s)

-- A character of a text is a text.
abbrev pub char_at : String → ℕ → Option Json
char_at String.[] i = none
char_at (String.◌∷◌ c s) zero = some (str (String.◌∷◌ c ""))
char_at (String.◌∷◌ c s) (suc i) = char_at s i

-- How one step of a path ends: at a value, with nothing there (a missing key, or a part that is no
-- number where one is needed), or with an exception that the loops do not catch.
pub data Attempt : Type 0 where
  item : Json → Attempt
  not_there : Attempt
  fails : Error → Attempt

abbrev pub found : Option Json → Attempt
found none = fails index_error
found (some value) = item value

-- `value[index]`, for a value that is no object. A negative index counts from the end.
unfoldable pub subscript : Json → ℤ → Attempt
subscript (arr items) (pos i) = found (item_at items i)
subscript (arr items) (negsuc i) =
    if ltb i (item_count items)
    then found (item_at items (item_count items - suc i))
    else fails index_error
subscript (str text) (pos i) = found (char_at text i)
subscript (str text) (negsuc i) =
    if ltb i (char_count text)
    then found (char_at text (char_count text - suc i))
    else fails index_error
subscript value i = fails type_error

-- The digits of a number, with single underscores between them; `after_digit` says that the
-- character before was a digit.
unfoldable pub digits_value : Bool → ℕ → String → Option ℕ
digits_value after_digit acc String.[] = if after_digit then some acc else none
digits_value after_digit acc (String.◌∷◌ c s) =
    let digit = digits_value true (acc * 10 + (code c - 48)) s in
    let gap = digits_value false acc s in
    if leb b'0' (code c) && leb (code c) b'9'
    then digit
    else if after_digit && code c == b'_'
    then gap
    else none

abbrev negated : Option ℕ → Option ℤ
negated none = none
negated (some zero) = some (pos 0)
negated (some (suc n)) = some (negsuc n)

abbrev positive : Option ℕ → Option ℤ
positive none = none
positive (some n) = some (pos n)

unfoldable pub signed_value : String → Option ℤ
unfolding digits_value
signed_value String.[] = none
signed_value (String.◌∷◌ c s) =
    if code c == b'-'
    then negated (digits_value false 0 s)
    else if code c == b'+'
    then positive (digits_value false 0 s)
    else positive (digits_value false 0 (String.◌∷◌ c s))

-- `int(text)`, over ASCII digits; `none` is its `ValueError`.
unfoldable pub int_of : String → Option ℤ
unfolding signed_value strip
int_of text = signed_value (strip text)

abbrev pub subscript_by : Option ℤ → Json → Attempt
subscript_by none value = not_there
subscript_by (some i) value = subscript value i

abbrev pub from_member : Option Json → Attempt
from_member none = not_there
from_member (some value) = item value

-- One round of the loops of `has_entry` and `__getitem__`: `pos_pointer[part_name]` in an object,
-- `pos_pointer[int(part_name)]` in anything else.
unfoldable pub step : Json → String → Attempt
unfolding int_of subscript member
step (obj fields) part = from_member (member part fields)
step value part = subscript_by (int_of part) value
