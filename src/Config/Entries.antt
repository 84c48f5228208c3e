-- ===== src/Config/Entries.antt =====
-- `has_entry`, `get` and `__getitem__` agree, and find what lies at a path.
use Prim.Native.Char.{code}
use text.Mathlib.TextLemmas.{nil-append, cons-append, append-nil, append_assoc}
use coppercomm.Prelude.{
  ℕ, zero, suc, ◌≤◌, ◌≡◌, refl, all, ◌&&◌, ◌∙◌, ◌≢◌, String, ◌<>◌, Bool, true, false, not, Option,
  none, some, List, [], ◌∷◌, arith, ◌==◌, ℤ, pos, ◌⊎◌, negsuc, type_error, ◌-◌, ◌++◌, split_on,
  split_on_from, join, Error, key_error, index_error, config_file_parse_error, Result, ok, raised,
  no_fuel, Option-cases, inl, inr, Bool-cases,
}
use coppercomm.Config.{Config, throw_config_error, follow, reaches, has_entry, get_item, get}
use coppercomm.Config.Value.{
  Json, str, arr, obj, Items, member, Attempt, item, not_there, fails, cons, nil, step, found,
  subscript_by, from_member, char_at, char_count, subscript, item_at, item_count, int_of,
}

-- What `has_entry` answers where `__getitem__` ends in a certain way.
abbrev pub seen : Result Json → Result Bool
seen (ok value) = ok true
seen (raised config_file_parse_error) = ok false
seen (raised e) = raised e
seen no_fuel = no_fuel

abbrev Lookup : Error → Type 0
Lookup e = (e ≡ index_error) ⊎ (e ≡ type_error)

found-Lookup : (o : Option Json) {e : Error} → found o ≡ fails e → Lookup e
found-Lookup none h = inl (cc)
found-Lookup (some value) h = absurd (cc)

subscript-Lookup : (value : Json) (i : ℤ) {e : Error} → subscript value i ≡ fails e → Lookup e
unfolding subscript
subscript-Lookup (arr items) (pos i) h = found-Lookup (item_at items i) h
subscript-Lookup (arr items) (negsuc i) h =
    ground (arith, found-Lookup (item_at items (item_count items - suc i)))
subscript-Lookup (str text) (pos i) h = found-Lookup (char_at text i) h
subscript-Lookup (str text) (negsuc i) h =
    ground (arith, found-Lookup (char_at text (char_count text - suc i)))
subscript-Lookup value i h = inr (cc)

subscript_by-Lookup :
    (o : Option ℤ) (value : Json) {e : Error} → subscript_by o value ≡ fails e → Lookup e
subscript_by-Lookup none value h = absurd (cc)
subscript_by-Lookup (some i) value h = subscript-Lookup value i h

from_member-ne-fails : (o : Option Json) {e : Error} → from_member o ≡ fails e → ⊥
from_member-ne-fails none h = cc
from_member-ne-fails (some value) h = cc

-- A step of a path raises an `IndexError` or a `TypeError`, and nothing else.
step-Lookup : (value : Json) (part : String) {e : Error} → step value part ≡ fails e → Lookup e
unfolding step
step-Lookup (obj fields) part h = absurd (from_member-ne-fails (member part fields) h)
step-Lookup value part h = subscript_by-Lookup (int_of part) _ h

reaches-seen :
    (parts : List String) (value : Json)
    → reaches parts value ≡ seen (throw_config_error (follow parts value))
unfolding reaches follow throw_config_error
reaches-seen [] value = refl
reaches-seen (part ∷ parts) value = at (step value part) refl (reaches-seen parts)
  where
    at :
        (a : Attempt)
        → step value part ≡ a
        → ((next : Json) → reaches parts next ≡ seen (throw_config_error (follow parts next)))
        → reaches (part ∷ parts) value ≡ seen (throw_config_error (follow (part ∷ parts) value))
    at (item next) e ih = rw (e, reaches, follow) (ih next)
    at not_there e ih = rw (e, reaches, follow) refl
    at (fails x) e ih = elim (step-Lookup value part e) [
      | inl index ↦ rw (e, reaches, follow, index) refl
      | inr type ↦ rw (e, reaches, follow, type) refl
    ]

-- `Config.has_entry` answers `True` where `Config.__getitem__` returns, `False` where it raises
-- `ConfigFileParseError`, and raises what it raises otherwise.
pub has_entry-seen :
    (config : Config) (entry_path : String)
    → has_entry config entry_path ≡ seen (get_item config entry_path)
unfolding has_entry get_item
has_entry-seen config entry_path =
    reaches-seen (split_on b'.' entry_path) (obj config.device_config_data)

item_at-none : (items : Items) (i : ℕ) → item_count items ≤ i → item_at items i ≡ none
item_at-none nil i h = refl
item_at-none (cons x xs) zero h = absurd (omega arith)
item_at-none (cons x xs) (suc i) h = item_at-none xs i (omega arith)

-- A path is followed one step at a time.
abbrev and_then : List String → Attempt → Result Json
and_then parts (item next) = follow parts next
and_then parts not_there = raised key_error
and_then parts (fails e) = raised e

follow-step :
    (part : String) (parts : List String) (value : Json)
    → follow (part ∷ parts) value ≡ and_then parts (step value part)
unfolding follow
follow-step part parts value = ground arith

and_then-append :
    (parts : List String) (part : String) {w : Json} (a : Attempt)
    → ((next : Json)
        → follow parts next ≡ ok w
        → follow (parts ++ (part ∷ [])) next ≡ follow (part ∷ []) w)
    → and_then parts a ≡ ok w
    → and_then (parts ++ (part ∷ [])) a ≡ follow (part ∷ []) w
and_then-append parts part (item next) ih h = ih next h
and_then-append parts part not_there ih h = cc
and_then-append parts part (fails e) ih h = cc

-- A path with one part more goes one step further.
follow-append :
    (parts : List String) (value : Json) {w : Json} (part : String)
    → follow parts value ≡ ok w
    → follow (parts ++ (part ∷ [])) value ≡ follow (part ∷ []) w
follow-append [] value part h = unfold follow in ground arith
follow-append (first ∷ parts) value part h =
    follow-step first _ value
    ∙ and_then-append parts part (step value first) (λ next. follow-append parts next part)
        (rw follow-step at h)

step-beyond :
    (items : Items) (part : String) (i : ℕ)
    → int_of part ≡ some (pos i)
    → item_count items ≤ i
    → step (arr items) part ≡ fails index_error
unfolding step subscript
step-beyond items part i number beyond = rw (number, item_at-none items i beyond)

-- Where a path of an entry leads to a list and its last part is an index beyond the end,
-- `has_entry` raises `IndexError`, and so does `get`, whatever default it was given.
pub has_entry-index_error :
    (config : Config) (entry_path : String) (parts : List String) (part : String) (items : Items)
    (i : ℕ) (fallback : Json)
    → split_on b'.' entry_path ≡ parts ++ (part ∷ [])
    → follow parts (obj config.device_config_data) ≡ ok (arr items)
    → int_of part ≡ some (pos i)
    → item_count items ≤ i
    → (has_entry config entry_path ≡ raised index_error)
      × (get config entry_path fallback ≡ raised index_error)
has_entry-index_error config entry_path parts part items i fallback split at number beyond =
    (rw (has_entry-seen, missing), unfold get in rw missing)
  where
    missing : get_item config entry_path ≡ raised index_error
    missing =
        unfold get_item throw_config_error in
        rw (
          split,
          follow-append parts (obj config.device_config_data) part at,
          follow-step,
          step-beyond items part i number beyond,
        )

-- Keys without dots, and what lies behind a row of keys, through objects alone.
abbrev pub dotless : String → Bool
dotless String.[] = true
dotless (String.◌∷◌ c s) = not (code c == b'.') && dotless s

abbrev pub behind : List String → Json → Option Json
behind [] value = some value
behind (key ∷ keys) (obj fields) = elim (member key fields) [
  | none ↦ none
  | some value ↦ behind keys value
]
behind (key ∷ keys) value = none

split_on_from-dotless :
    (s rest part : String)
    → dotless s ≡ true
    → split_on_from b'.' part (s <> rest) ≡ split_on_from b'.' (part <> s) rest
unfolding split_on_from
split_on_from-dotless String.[] rest part h = simp (nil-append, append-nil)
split_on_from-dotless (String.◌∷◌ c s) rest part h = elim (Bool-cases (code c == b'.')) [
  | inl dot ↦ absurd (ground arith)
  | inr plain ↦ rw (
    cons-append,
    plain,
    split_on_from-dotless s rest (part <> String.◌∷◌ c "") (ground arith),
    append_assoc,
    cons-append,
    nil-append,
  )
]

split_on_from-last : (s : String) → dotless s ≡ true → split_on_from b'.' "" s ≡ s ∷ []
split_on_from-last s h =
    let e = split_on_from-dotless s "" "" h in
    rw append-nil at (rw nil-append at e) ∙ unfold split_on_from in refl

split_on_from-dot :
    (part rest : String) → split_on_from b'.' part ("." <> rest) ≡ part ∷ split_on_from b'.' "" rest
unfolding split_on_from
split_on_from-dot part rest = rw (cons-append, nil-append)

split_on_from-join :
    (keys : List String)
    → all dotless keys ≡ true
    → keys ≢ []
    → split_on_from b'.' "" (join "." keys) ≡ keys
unfolding join
split_on_from-join [] h ne = absurd (ne refl)
split_on_from-join (key ∷ []) h ne = split_on_from-last key (ground arith)
split_on_from-join (key ∷ next ∷ keys) h ne =
    split_on_from-dotless key ("." <> join "." (next ∷ keys)) "" (ground arith)
    ∙ rw (nil-append, split_on_from-dot, split_on_from-join (next ∷ keys) (ground arith) (λ e. cc))

follow-behind :
    (keys : List String) (value : Json) {found : Json}
    → behind keys value ≡ some found
    → follow keys value ≡ ok found
unfolding follow step
follow-behind [] value h = ground arith
follow-behind (key ∷ keys) (obj fields) h = elim (Option-cases (member key fields)) [
  | inl missing ↦ absurd (ground arith)
  | inr (value, present) ↦ rw (follow-step, step, present) (follow-behind keys value (ground arith))
]
follow-behind (key ∷ keys) value h = absurd (cc)

-- For keys without a dot, at least one, that lead through nested objects to a value, `__getitem__`
-- and `get` of the keys joined by dots return the value, and `has_entry` answers `True`.
pub get_item-join :
    (config : Config) (keys : List String) (value fallback : Json)
    → all dotless keys ≡ true
    → keys ≢ []
    → behind keys (obj config.device_config_data) ≡ some value
    → (get_item config (join "." keys) ≡ ok value)
      × (get config (join "." keys) fallback ≡ ok value)
      × (has_entry config (join "." keys) ≡ ok true)
get_item-join config keys value fallback plain ne h =
    (there, unfold get in rw there, rw (has_entry-seen, there))
  where
    there : get_item config (join "." keys) ≡ ok value
    there =
        unfold get_item split_on throw_config_error in
        rw (split_on_from-join keys plain ne, follow-behind keys (obj config.device_config_data) h)
