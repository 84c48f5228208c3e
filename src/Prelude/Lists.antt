-- ===== src/Prelude/Lists.antt =====
-- Lists measured by native numbers, and Python's `in`, `any`, `all`, comprehensions and sets.
use Prim.Native.Nat.{ℕ, zero, suc}
use Prim.Native.String.{String}
use mathlib.Core.Path.{◌≡◌, refl}
use mathlib.Core.Bool.{Bool, true, false, ◌&&◌, ◌||◌, not}
use mathlib.Core.Option.{Option, none, some}
use mathlib.Core.List.{List, [], ◌∷◌}
use native.Mathlib.Omega.{arith}
use text.Mathlib.TextEquality.{eq_iff}
use coppercomm.Prelude.Tests.{str_eq, if◌then◌else◌, ℤ, int_eq}

module _ {ℓ} {A : Type ℓ} where
  abbrev pub length : List A → ℕ
  length [] = 0
  length (x ∷ xs) = suc (length xs)

  abbrev pub get_elem? : List A → ℕ → Option A
  get_elem? [] i = none
  get_elem? (x ∷ xs) zero = some x
  get_elem? (x ∷ xs) (suc i) = get_elem? xs i

  -- `xs[n:]`
  abbrev pub drop : ℕ → List A → List A
  drop zero xs = xs
  drop (suc n) [] = []
  drop (suc n) (x ∷ xs) = drop n xs

  -- `[x for x in xs if p(x)]`
  unfoldable pub select : (A → Bool) → List A → List A
  select p [] = []
  select p (x ∷ xs) = let rest = select p xs in if p x then x ∷ rest else rest

  abbrev pub all : (A → Bool) → List A → Bool
  all p [] = true
  all p (x ∷ xs) = p x && all p xs

  abbrev pub any : (A → Bool) → List A → Bool
  any p [] = false
  any p (x ∷ xs) = p x || any p xs

-- `x in xs`, on texts.
abbrev pub contains : List String → String → Bool
contains xs x = any (str_eq x) xs

-- `code in codes`, on exit codes.
abbrev pub contains_int : List ℤ → ℤ → Bool
contains_int xs x = any (int_eq x) xs

-- `set(xs)`, in the order of the first occurrences.
unfoldable pub dedup_from : List String → List String → List String
dedup_from seen [] = []
dedup_from seen (x ∷ xs) =
    let fresh = x ∷ dedup_from (x ∷ seen) xs in
    let rest = dedup_from seen xs in if contains seen x then rest else fresh

-- `xs.difference_update(ys)` on sets.
unfoldable pub difference : List String → List String → List String
unfolding select
difference xs ys = select (λ x. not (contains ys x)) xs

module _ {ℓ} {A : Type ℓ} where
  pub all-select : (p : A → Bool) (xs : List A) → all p (select p xs) ≡ true
  unfolding select
  all-select p [] = refl
  all-select p (x ∷ xs) = ground (arith, all-select p xs)

-- A text stands in a difference just when it stands in the first list and not in the second.
pub contains-difference :
    (xs ys : List String) (x : String)
    → contains (difference xs ys) x ≡ (contains xs x && not (contains ys x))
unfolding difference
contains-difference [] ys x = refl
contains-difference (z ∷ xs) ys x = ground (arith, eq_iff x z, contains-difference xs ys x)
