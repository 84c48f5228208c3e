-- ===== src/AdbLogger/Rules.antt =====
-- What holds of the state of a thread behind a call, however the call ends.
use coppercomm.Prelude.{
  Bool, true, false, if◌then◌else◌, Error, Act, Result, ok, raised, no_fuel, pure, raise, gets,
  modify, try, handle, continue, ◌>>=◌,
}

-- From `P`, however the call ends, to `Q`.
pub record Moves {S A : Type 0} (P Q : S → Type 0) (m : Act S A) : Type 0 where
  pub at : (s : S) → P s → Q (m s).1

abbrev pub Preserves : {S A : Type 0} → (S → Type 0) → Act S A → Type 0
Preserves P m = Moves P P m

module _ {S : Type 0} {P Q : S → Type 0} where
  pub Moves-modify : (f : S → S) → ((s : S) → P s → Q (f s)) → Moves P Q (modify f)
  Moves-modify f h = record { at = h }

module _ {S A : Type 0} {P Q : S → Type 0} where
  pub Moves-if :
      (b : Bool) (m n : Act S A) → Moves P Q m → Moves P Q n → Moves P Q (if b then m else n)
  Moves-if true m n pm pn = pm
  Moves-if false m n pm pn = pn

module _ {S A B : Type 0} {Q R : S → Type 0} where
  continue-Moves :
      (f : A → Act S B)
      → ((s : S) → Q s → R s)
      → ((a : A) → Moves Q R (f a))
      → (r : Result A) (s : S) → Q s
      → R (continue f (r, s)).1
  continue-Moves f weaker mf (ok a) s q = (mf a).at s q
  continue-Moves f weaker mf (raised e) s q = weaker s q
  continue-Moves f weaker mf no_fuel s q = weaker s q

module _ {S A B : Type 0} {P Q R : S → Type 0} where
  pub Moves-bind :
      (m : Act S A) (f : A → Act S B)
      → Moves P Q m
      → ((s : S) → Q s → R s)
      → ((a : A) → Moves Q R (f a))
      → Moves P R (m >>= f)
  Moves-bind m f pm weaker mf = record {
    at = λ s p. continue-Moves f weaker mf (m s).0 (m s).1 (pm.at s p);
  }

module _ {S A : Type 0} {P : S → Type 0} where
  pub Preserves-pure : (a : A) → Preserves P (pure a)
  Preserves-pure a = record { at = λ s p. p }

  pub Preserves-raise : (e : Error) → Preserves {A = A} P (raise e)
  Preserves-raise e = record { at = λ s p. p }

  pub Preserves-gets : (f : S → A) → Preserves P (gets f)
  Preserves-gets f = record { at = λ s p. p }

  handle-Preserves :
      (caught : Error → Bool) (h : Error → Act S A)
      → ((e : Error) → Preserves P (h e))
      → (r : Result A) (s : S) → P s
      → P (handle caught h (r, s)).1
  handle-Preserves caught h ph (ok a) s p = p
  handle-Preserves caught h ph (raised e) s p = caught_or_not (caught e)
    where
      caught_or_not : (b : Bool) → P (if b then h e s else (raised e, s)).1
      caught_or_not true = (ph e).at s p
      caught_or_not false = p
  handle-Preserves caught h ph no_fuel s p = p

  pub Preserves-try :
      (m : Act S A) (caught : Error → Bool) (h : Error → Act S A)
      → Preserves P m
      → ((e : Error) → Preserves P (h e))
      → Preserves P (try m caught h)
  Preserves-try m caught h pm ph = record {
    at = λ s p. handle-Preserves caught h ph (m s).0 (m s).1 (pm.at s p);
  }

  pub Preserves-if :
      (b : Bool) (m n : Act S A) → Preserves P m → Preserves P n → Preserves P (if b then m else n)
  Preserves-if = Moves-if

module _ {S A B : Type 0} {P : S → Type 0} where
  pub Preserves-bind :
      (m : Act S A) (f : A → Act S B)
      → Preserves P m
      → ((a : A) → Preserves P (f a))
      → Preserves P (m >>= f)
  Preserves-bind m f pm pf = Moves-bind m f pm (λ s p. p) pf
