-- ===== src/Config/Getters/Fits.antt =====
-- Which devices `_device_matches` of `get_extra_devices` accepts.
use coppercomm.Prelude.{
  ◌≡◌, refl, sym, ap, subst, String, Bool, true, false, Option, none, some, List, [], ◌∷◌,
  if◌then◌else◌, eq_iff, truthy, inl, inr, Bool-cases, Option-cases, Result, ok, raised, no_fuel,
}
use coppercomm.Config.Value.{Json, null, bool, int, float, str, arr, obj, Fields, member}
use coppercomm.Config.Getters.{◌>>=◌, at_key, is_text, has_fields, device_matches}

-- The device is an object with that text under that key.
abbrev pub HasText : String → String → Json → Type 0
HasText key text device =
    (fields : Fields) × (device ≡ obj fields) × (member key fields ≡ some (str text))

-- It has the wanted type, where one is wanted.
abbrev pub HasType : Option String → Json → Type 0
HasType none device = Unit
HasType (some device_type) device =
    truthy device_type ≡ true → HasText "device_type" device_type device

-- It has the text of each filter under its name.
abbrev pub HasAll : List (String × String) → Json → Type 0
HasAll [] device = Unit
HasAll ((name, text) ∷ filters) device = HasText name text device × HasAll filters device

-- A test that returns tells whether `Q` holds.
abbrev pub Tells : Type 0 → Result Bool → Type 0
Tells Q r = (r ≡ ok true → Q) × (r ≡ ok false → ¬ Q)

is_text-str : (text : String) (value : Json) → is_text text value ≡ true → value ≡ str text
is_text-str text (str s) h = ap str (sym ((eq_iff text s).0 h))
is_text-str text null h = cc
is_text-str text (bool b) h = cc
is_text-str text (int n) h = cc
is_text-str text (float s) h = cc
is_text-str text (arr items) h = cc
is_text-str text (obj fields) h = cc

is_text-ne : (text : String) (value : Json) → is_text text value ≡ false → ¬ (value ≡ str text)
is_text-ne text value h e =
    let same : is_text text (str text) ≡ true = (eq_iff text text).1 refl in
    let other : is_text text (str text) ≡ false = subst (λ v. is_text text v ≡ false) e h in cc

at_key-HasText :
    (key text : String) (device value : Json)
    → HasText key text device
    → at_key key device ≡ ok value
    → value ≡ str text
unfolding at_key
at_key-HasText key text device value (fields, is, there) e = cc

HasText-at_key :
    (key text : String) (device value : Json)
    → at_key key device ≡ ok value
    → value ≡ str text
    → HasText key text device
unfolding at_key
HasText-at_key key text (obj fields) value = elim (Option-cases (member key fields)) [
  | inl missing ↦ rw (at_key, missing) (λ e is. cc)
  | inr (kept, there) ↦ rw (at_key, there) (λ e is. (fields, refl, cc))
]
HasText-at_key key text null value = λ e is. cc
HasText-at_key key text (bool b) value = λ e is. cc
HasText-at_key key text (int n) value = λ e is. cc
HasText-at_key key text (float s) value = λ e is. cc
HasText-at_key key text (str s) value = λ e is. cc
HasText-at_key key text (arr items) value = λ e is. cc

-- A test of one text under a key, and then another test.
and_then-Tells :
    (key text : String) (device : Json) (next : Result Bool) {Q : Type 0} (value : Json)
    → at_key key device ≡ ok value
    → Tells Q next
    → Tells (HasText key text device × Q) (if is_text text value then next else ok false)
and_then-Tells key text device next value there tells = elim (Bool-cases (is_text text value)) [
  | inl same ↦ rw same (
    λ e. (HasText-at_key key text device value there (is_text-str text value same), tells.0 e),
    λ e both. tells.1 e both.1,
  )
  | inr other ↦ rw other (
    λ e. absurd (cc),
    λ e both. is_text-ne text value other (at_key-HasText key text device value both.0 there),
  )
]

has_fields-Tells :
    (filters : List (String × String)) (device : Json)
    → Tells (HasAll filters device) (has_fields filters device)
unfolding has_fields at_key
has_fields-Tells [] device = (λ e. tt, λ e all. cc)
has_fields-Tells ((name, text) ∷ filters) (obj fields) = elim (Option-cases (member name fields)) [
  | inl missing ↦
      rw (has_fields, missing) (λ e. absurd (cc), λ e all. let (others, is, there) = all.0 in cc)
  | inr (found, there) ↦
      let at : at_key name (obj fields) ≡ ok found = rw (at_key, there) refl in
      rw (has_fields, there)
        (and_then-Tells name text (obj fields) (has_fields filters (obj fields)) found at
          (has_fields-Tells filters (obj fields)))
]
has_fields-Tells (f ∷ filters) null = (λ e. absurd (cc), λ e all. cc)
has_fields-Tells (f ∷ filters) (bool b) = (λ e. absurd (cc), λ e all. cc)
has_fields-Tells (f ∷ filters) (int n) = (λ e. absurd (cc), λ e all. cc)
has_fields-Tells (f ∷ filters) (float s) = (λ e. absurd (cc), λ e all. cc)
has_fields-Tells (f ∷ filters) (str s) = (λ e. absurd (cc), λ e all. cc)
has_fields-Tells (f ∷ filters) (arr items) = (λ e. absurd (cc), λ e all. cc)

-- The device has the wanted type, and the text of each filter.
abbrev pub Fits : Option String → List (String × String) → Json → Type 0
Fits device_type filters device = HasType device_type device × HasAll filters device

pub device_matches-Tells :
    (device_type : Option String) (filters : List (String × String)) (device : Json)
    → Tells (Fits device_type filters device) (device_matches device_type filters device)
unfolding device_matches
device_matches-Tells none filters device =
    let (yes_all, no_all) = has_fields-Tells filters device in
    (λ e. (tt, yes_all e), λ e fits. no_all e fits.1)
device_matches-Tells (some device_type) filters device = chosen (truthy device_type) refl
  where
    typed :
        truthy device_type ≡ true
        → (r : Result Json) → at_key "device_type" device ≡ r
        → Tells (Fits (some device_type) filters device) (
            r >>= λ found.
            if is_text device_type found then has_fields filters device else ok false)
    typed wanted (ok found) e =
        let (both, neither) =
          and_then-Tells "device_type" device_type device (has_fields filters device) found e
            (has_fields-Tells filters device) in
        (
          λ t. let (has, all) = both t in (λ w. has, all),
          λ f fits. neither f (fits.0 wanted, fits.1),
        )
    typed wanted (raised x) e = (λ t. absurd (cc), λ f fits. cc)
    typed wanted no_fuel e = (λ t. absurd (cc), λ f fits. cc)

    chosen :
        (b : Bool)
        → truthy device_type ≡ b
        → Tells (Fits (some device_type) filters device) (
            if b
            then (at_key "device_type" device >>= λ found.
                if is_text device_type found then has_fields filters device else ok false)
            else has_fields filters device)
    chosen true wanted = typed wanted (at_key "device_type" device) refl
    chosen false unwanted =
        let (yes_all, no_all) = has_fields-Tells filters device in
        (λ e. (λ wanted. absurd (cc), yes_all e), λ e fits. no_all e fits.1)
