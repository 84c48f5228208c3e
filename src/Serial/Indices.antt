-- ===== src/Serial/Indices.antt =====
-- Indices into the expected patterns, and the lines that are kept.
use coppercomm.Prelude.{
  ℕ, suc, ◌+◌, ◌≡◌, refl, ap, subst, arith, String, true, Option, some, List, [], ◌∷◌, ◌++◌,
  contains, eq_iff, get_elem?, pos, ok,
}
use coppercomm.Serial.{Pattern, regex, on_timeout}
use coppercomm.Serial.Expect.{timeout_index}

pub contains-append :
    (xs : List String) (x y : String) → contains xs x ≡ true → contains (xs ++ (y ∷ [])) x ≡ true
contains-append [] x y h = absurd (cc)
contains-append (z ∷ xs) x y h = ground (arith, contains-append xs x y)

pub contains-last : (xs : List String) (x : String) → contains (xs ++ (x ∷ [])) x ≡ true
contains-last [] x = rw ((eq_iff x x).1 refl) refl
contains-last (z ∷ xs) x = ground (arith, contains-last xs x)

-- `patterns` is what `all` holds from the index `k` on.
abbrev pub From : List Pattern → ℕ → List Pattern → Type 0
From all k patterns = (j : ℕ) → get_elem? all (k + j) ≡ get_elem? patterns j

pub From-next :
    (all patterns : List Pattern) (x : Pattern) (k : ℕ)
    → From all k (x ∷ patterns)
    → From all (suc k) patterns
From-next all patterns x k same j =
    subst (λ n. get_elem? all n ≡ get_elem? patterns j) (step_over k j) (same (suc j))
  where
    step_over : (k j : ℕ) → k + suc j ≡ suc k + j
    step_over k j = omega arith

pub From-here :
    (all patterns : List Pattern) (x : Pattern) (k i : ℕ)
    → From all k (x ∷ patterns)
    → k ≡ i
    → get_elem? all i ≡ some x
From-here all patterns x k i same here =
    subst (λ n. get_elem? all n ≡ some x) (plus_none k i here) (same 0)
  where
    plus_none : (k i : ℕ) → k ≡ i → k + 0 ≡ i
    plus_none k i h = omega arith

pub From-start : (all : List Pattern) → From all 0 all
From-start all j = ap (get_elem? all) (none_plus j)
  where
    none_plus : (j : ℕ) → 0 + j ≡ j
    none_plus j = omega arith

pub some_inside : (k i : ℕ) → ◌≡◌ {A = Option ℕ} (some k) (some i) → k ≡ i
some_inside k i h = cc

pub get_elem-timeout_index :
    (all patterns : List Pattern) (k i : ℕ)
    → From all k patterns
    → timeout_index k patterns ≡ ok (pos i)
    → get_elem? all i ≡ some on_timeout
unfolding timeout_index
get_elem-timeout_index all [] k i same h = absurd (cc)
get_elem-timeout_index all (regex p ∷ patterns) k i same h =
    get_elem-timeout_index all patterns (suc k) i (From-next all patterns (regex p) k same) h
get_elem-timeout_index all (on_timeout ∷ patterns) k i same h =
    From-here all patterns on_timeout k i same (cc)
