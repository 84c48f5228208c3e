-- ===== src/Loops/Keeps.antt =====
-- Calls that leave a part of the state as it is, however they end.
use coppercomm.Prelude.{
  ℕ, zero, suc, ◌≡◌, refl, ◌∙◌, Bool, true, false, Option, none, some, ltb, Act, Error, Result, ok,
  raised, no_fuel, if◌then◌else◌, try, handle, continue, ◌>>=◌,
}
use coppercomm.Loops.{while_before, turn, enter}
use coppercomm.Loops.Results.{After}

module _ {S V : Type 0} (view : S → V) where
  pub record Keeps {A : Type 0} (m : Act S A) : Type 0 where
    pub same : (s : S) → view (m s).1 ≡ view s

  pub Keeps-bind :
      {A B : Type 0} (m : Act S A) (f : A → Act S B)
      → Keeps m
      → ((a : A) → Keeps (f a))
      → Keeps (m >>= f)
  Keeps-bind {A} {B} m f km kf = record { same = λ s. onward (m s) ∙ km.same s }
    where
      onward : (x : Result A × S) → view (continue f x).1 ≡ view x.1
      onward (ok a, s) = (kf a).same s
      onward (raised e, s) = refl
      onward (no_fuel, s) = refl

  pub Keeps-try :
      {A : Type 0} (m : Act S A) (caught : Error → Bool) (h : Error → Act S A)
      → Keeps m
      → ((e : Error) → Keeps (h e))
      → Keeps (try m caught h)
  Keeps-try {A} m caught h km kh = record { same = λ s. handled (m s) ∙ km.same s }
    where
      chosen : (b : Bool) (e : Error) (s : S) → view (if b then h e s else (raised e, s)).1 ≡ view s
      chosen true e s = (kh e).same s
      chosen false e s = refl

      handled : (x : Result A × S) → view (handle caught h x).1 ≡ view x.1
      handled (ok a, s) = refl
      handled (raised e, s) = chosen (caught e) e s
      handled (no_fuel, s) = refl

  pub Keeps-while :
      {A : Type 0} (clock : Act S ℕ) (body : Act S (Option A))
      → Keeps clock
      → Keeps body
      → (n deadline : ℕ) → Keeps (while_before n clock deadline body)
  unfolding while_before
  Keeps-while clock body kc kb zero deadline = record { same = λ s. refl }
  Keeps-while {A} clock body kc kb (suc n) deadline =
      Keeps-bind clock _ kc
        (λ t. entered (Keeps-while clock body kc kb n deadline) (ltb t deadline))
    where
      turned : (rest : Act S (Option A)) → Keeps rest → (r : Option A) → Keeps (turn r rest)
      turned rest kr (some a) = record { same = λ s. refl }
      turned rest kr none = kr

      entered :
          {rest : Act S (Option A)} → Keeps rest → (test : Bool) → Keeps (enter test body rest)
      entered kr true = Keeps-bind body _ kb (turned _ kr)
      entered kr false = record { same = λ s. refl }

-- What holds of the state that a call leaves may be added to what it ensures.
pub After-both :
    {S A : Type 0} (P : A → S → Type 0) (R : S → Type 0) (x : Result A × S)
    → After P x
    → R x.1
    → After (λ a s. P a s × R s) x
After-both P R (ok a, s) p r = (p, r)
After-both P R (raised e, s) p r = tt
After-both P R (no_fuel, s) p r = tt
