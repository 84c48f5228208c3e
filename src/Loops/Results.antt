-- ===== src/Loops/Results.antt =====
-- What a call ensures when it returns, and what a waiting loop returns.
use coppercomm.Prelude.{
  ◌≡◌, refl, ℕ, zero, suc, Bool, true, false, Option, none, some, Act, Error, Result, ok, raised,
  no_fuel, ltb, raise_if, lift, if◌then◌else◌, try, handle, continue, ◌>>=◌,
}
use coppercomm.Loops.{while_before, turn, enter}

-- `Q` holds of the value and the state of a call that returned.
abbrev pub After : {S A : Type 0} → (A → S → Type 0) → Result A × S → Type 0
After Q (ok a, s) = Q a s
After Q (raised e, s) = Unit
After Q (no_fuel, s) = Unit

pub record Ensures {S A : Type 0} (m : Act S A) (Q : A → S → Type 0) : Type 0 where
  pub at : (s : S) → After Q (m s)

module _ {S A : Type 0} where
  After-any : (r : Result A) (s : S) → After (λ _ _. Unit) (r, s)
  After-any (ok a) s = tt
  After-any (raised e) s = tt
  After-any no_fuel s = tt

  pub Ensures-any : (m : Act S A) → Ensures m (λ _ _. Unit)
  Ensures-any m = record { at = λ s. After-any (m s).0 (m s).1 }

module _ {S A : Type 0} {P Q : A → S → Type 0} where
  pub After-map : ((a : A) (s : S) → P a s → Q a s) → (x : Result A × S) → After P x → After Q x
  After-map f (ok a, s) p = f a s p
  After-map f (raised e, s) p = tt
  After-map f (no_fuel, s) p = tt

module _ {S B : Type 0} (Q : B → S → Type 0) where
  pub raise_if-After :
      (b : Bool) (e : Error) (f : Unit {0} → Act S B) (s : S)
      → After Q (f tt s)
      → After Q ((raise_if b e >>= f) s)
  raise_if-After true e f s q = tt
  raise_if-After false e f s q = q

  pub lift-After :
      {A : Type 0} (r : Result A) (f : A → Act S B) (s : S)
      → ((a : A) → After Q (f a s))
      → After Q ((lift r >>= f) s)
  lift-After (ok a) f s q = q a
  lift-After (raised e) f s q = tt
  lift-After no_fuel f s q = tt

module _ {S A : Type 0} (m : Act S A) where
  -- `m` has just returned `a`, and left the state `s'`.
  abbrev pub Returned : A → S → Type 0
  Returned a s' = (s : S) × (m s ≡ (ok a, s'))

  After-Returned : (s : S) (r : Result A) (s' : S) → m s ≡ (r, s') → After Returned (r, s')
  After-Returned s (ok a) s' e = (s, e)
  After-Returned s (raised x) s' e = tt
  After-Returned s no_fuel s' e = tt

  pub Ensures-Returned : Ensures m Returned
  Ensures-Returned = record { at = λ s. After-Returned s (m s).0 (m s).1 refl }

module _ {S A B : Type 0} (P : A → S → Type 0) (Q : B → S → Type 0) where
  pub continue-After :
      (f : A → Act S B)
      → ((a : A) (s : S) → P a s → After Q (f a s))
      → (r : Result A) (s : S) → After P (r, s)
      → After Q (continue f (r, s))
  continue-After f h (ok a) s p = h a s p
  continue-After f h (raised x) s p = tt
  continue-After f h no_fuel s p = tt

  pub Ensures-bind :
      (m : Act S A) (f : A → Act S B)
      → Ensures m P
      → ((a : A) (s : S) → P a s → After Q (f a s))
      → Ensures (m >>= f) Q
  Ensures-bind m f em ef = record { at = λ s. continue-After f ef (m s).0 (m s).1 (em.at s) }

module _ {S A B : Type 0} (Q : B → S → Type 0) where
  -- The last call of a block decides what the block ensures.
  pub Ensures-last :
      (m : Act S A) (f : A → Act S B) → ((a : A) → Ensures (f a) Q) → Ensures (m >>= f) Q
  Ensures-last m f ef = Ensures-bind (λ _ _. Unit) Q m f (Ensures-any m) (λ a s _. (ef a).at s)

module _ {S A : Type 0} (Q : A → S → Type 0) where
  handle-After :
      (caught : Error → Bool) (h : Error → Act S A)
      → ((e : Error) → Ensures (h e) Q)
      → (r : Result A) (s : S) → After Q (r, s)
      → After Q (handle caught h (r, s))
  handle-After caught h eh (ok a) s q = q
  handle-After caught h eh (raised e) s q = if-After (caught e)
    where
      if-After : (b : Bool) → After Q (if b then h e s else (raised e, s))
      if-After true = (eh e).at s
      if-After false = tt
  handle-After caught h eh no_fuel s q = tt

  pub Ensures-try :
      (m : Act S A) (caught : Error → Bool) (h : Error → Act S A)
      → Ensures m Q
      → ((e : Error) → Ensures (h e) Q)
      → Ensures (try m caught h) Q
  Ensures-try m caught h em eh = record {
    at = λ s. handle-After caught h eh (m s).0 (m s).1 (em.at s);
  }

  -- A loop or a round that was left by a `return` of `a` ensures `Q`.
  abbrev pub Left : Option A → S → Type 0
  Left none s = Unit
  Left (some a) s = Q a s

  turn-Left :
      (rest : Act S (Option A))
      → Ensures rest Left
      → (r : Option A) (s : S) → Left r s
      → After Left (turn r rest s)
  turn-Left rest er (some a) s q = q
  turn-Left rest er none s q = er.at s

  enter-Left :
      (body rest : Act S (Option A))
      → Ensures body Left
      → Ensures rest Left
      → (test : Bool) (s : S) → After Left (enter test body rest s)
  enter-Left body rest eb er true s = (Ensures-bind Left Left body _ eb (turn-Left rest er)).at s
  enter-Left body rest eb er false s = tt

  -- What a loop returns, its last round returned.
  pub while_before-Left :
      (clock : Act S ℕ) (body : Act S (Option A))
      → Ensures body Left
      → (n deadline : ℕ) → Ensures (while_before n clock deadline body) Left
  unfolding while_before
  while_before-Left clock body eb zero deadline = record { at = λ s. tt }
  while_before-Left clock body eb (suc n) deadline =
      Ensures-bind (λ _ _. Unit) Left clock _ (Ensures-any clock)
        λ t s _.
          enter-Left body _ eb (while_before-Left clock body eb n deadline) (ltb t deadline) s
