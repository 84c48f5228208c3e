-- ===== src/Loops/Total.antt =====
-- Calls that come to an end, and how time passes in them.
use coppercomm.Prelude.{
  ℕ, zero, suc, ◌+◌, ◌≤◌, ◌<◌, ◌≡◌, refl, ◌≢◌, Bool, true, false, Option, none, arith, Act, Error,
  Result, ok, raised, no_fuel, if◌then◌else◌, pure, raise, gets, try, handle, continue, ◌>>=◌,
}
use coppercomm.Loops.{while_before}

-- Whatever the state, `m` ends without a cut, and time does not run backwards in it.
pub record Terminates {S A : Type 0} (time : S → ℕ) (m : Act S A) : Type 0 where
  pub ends : (s : S) → (m s).0 ≢ no_fuel
  pub later : (s : S) → time s ≤ time (m s).1

module _ {S A : Type 0} {time : S → ℕ} where
  pub Terminates-pure : (a : A) → Terminates time (pure a)
  Terminates-pure a = record { ends = λ s h. cc; later = λ s. omega arith }

  pub Terminates-raise : (e : Error) → Terminates {A = A} time (raise e)
  Terminates-raise e = record { ends = λ s h. cc; later = λ s. omega arith }

  pub Terminates-gets : (f : S → A) → Terminates time (gets f)
  Terminates-gets f = record { ends = λ s h. cc; later = λ s. omega arith }

  pub Terminates-if :
      (b : Bool) (m n : Act S A)
      → Terminates time m
      → Terminates time n
      → Terminates time (if b then m else n)
  Terminates-if true m n tm tn = tm
  Terminates-if false m n tm tn = tn

  handle-ends :
      (caught : Error → Bool) (h : Error → Act S A) (r : Result A) (s : S)
      → ((e : Error) → Terminates time (h e))
      → r ≢ no_fuel
      → ((handle caught h (r, s)).0 ≢ no_fuel) × (time s ≤ time (handle caught h (r, s)).1)
  handle-ends caught h (ok a) s th ne = (λ e. cc, omega arith)
  handle-ends caught h (raised e) s th ne = ground (arith, (th e).ends s, (th e).later s)
  handle-ends caught h no_fuel s th ne = absurd (ne refl)

  pub Terminates-try :
      (m : Act S A) (caught : Error → Bool) (h : Error → Act S A)
      → Terminates time m
      → ((e : Error) → Terminates time (h e))
      → Terminates time (try m caught h)
  Terminates-try m caught h tm th = record {
    ends = λ s. (handle-ends caught h (m s).0 (m s).1 th (tm.ends s)).0;
    later = λ s. omega (arith, tm.later s, (handle-ends caught h (m s).0 (m s).1 th (tm.ends s)).1);
  }

module _ {S A B : Type 0} {time : S → ℕ} where
  continue-ends :
      (f : A → Act S B) (r : Result A) (s : S)
      → ((a : A) → Terminates time (f a))
      → r ≢ no_fuel
      → ((continue f (r, s)).0 ≢ no_fuel) × (time s ≤ time (continue f (r, s)).1)
  continue-ends f (ok a) s tf ne = ((tf a).ends s, (tf a).later s)
  continue-ends f (raised e) s tf ne = (λ h. cc, omega arith)
  continue-ends f no_fuel s tf ne = absurd (ne refl)

  pub Terminates-bind :
      (m : Act S A) (f : A → Act S B)
      → Terminates time m
      → ((a : A) → Terminates time (f a))
      → Terminates time (m >>= f)
  Terminates-bind m f tm tf = record {
    ends = λ s. (continue-ends f (m s).0 (m s).1 tf (tm.ends s)).0;
    later = λ s. omega (arith, tm.later s, (continue-ends f (m s).0 (m s).1 tf (tm.ends s)).1);
  }

pub ruleset total_rules = (
  Terminates-pure, Terminates-raise, Terminates-gets, Terminates-if, Terminates-try,
  Terminates-bind,
)

-- A clock that shows the time.
pub record Shows {S : Type 0} (time : S → ℕ) (clock : Act S ℕ) : Type 0 where
  pub reads : (s : S) → (clock s).0 ≡ ok (time (clock s).1)
  pub later : (s : S) → time s ≤ time (clock s).1

-- A round that goes on has taken time.
pub record Round {S A : Type 0} (time : S → ℕ) (body : Act S (Option A)) : Type 0 where
  pub ends : (s : S) → (body s).0 ≢ no_fuel
  pub later : (s : S) → time s ≤ time (body s).1
  pub advances : (s : S) → (body s).0 ≡ ok none → time s < time (body s).1

module _ {S A : Type 0} {time : S → ℕ} (clock : Act S ℕ) (body : Act S (Option A)) where
  -- A loop whose fuel exceeds the milliseconds that are left to its deadline is not cut off.
  pub while_before-ends :
      Shows time clock
      → Round time body
      → (n deadline : ℕ) (s : S) → 0 < n
      → deadline < time s + n
      → ((while_before n clock deadline body s).0 ≢ no_fuel)
        × (time s ≤ time (while_before n clock deadline body s).1)
  unfolding while_before
  while_before-ends shows round zero deadline s p h = absurd (omega arith)
  while_before-ends shows round (suc n) deadline s p h = ground (
    arith,
    shows.reads s,
    shows.later s,
    round.ends (clock s).1,
    round.later (clock s).1,
    round.advances (clock s).1,
    while_before-ends shows round n deadline (body (clock s).1).1,
  )

  -- So is a loop whose deadline is set when it begins.
  pub Terminates-wait :
      Shows time clock
      → Round time body
      → (n timeout : ℕ) → timeout < n
      → Terminates time (clock >>= λ t. while_before n clock (t + timeout) body)
  Terminates-wait shows round n timeout h = record {
    ends = λ s. ground (
      arith,
      shows.reads s,
      while_before-ends shows round n (time (clock s).1 + timeout) (clock s).1,
    );
    later = λ s. ground (
      arith,
      shows.reads s,
      shows.later s,
      while_before-ends shows round n (time (clock s).1 + timeout) (clock s).1,
    );
  }

-- And so is a loop whose deadline was set before a call that ends.
module _ {S A B : Type 0} {time : S → ℕ} (clock : Act S ℕ) (mid : Act S B)
    (body : Act S (Option A)) where
  pub Terminates-wait_after :
      Shows time clock
      → Terminates time mid
      → Round time body
      → (n timeout : ℕ) → timeout < n
      → Terminates time (clock >>= λ t. mid >>= λ _. while_before n clock (t + timeout) body)
  Terminates-wait_after shows call round n timeout h = record {
    ends = λ s. ground (
      arith,
      shows.reads s,
      call.ends (clock s).1,
      call.later (clock s).1,
      while_before-ends clock body shows round n (time (clock s).1 + timeout) (mid (clock s).1).1,
    );
    later = λ s. ground (
      arith,
      shows.reads s,
      shows.later s,
      call.ends (clock s).1,
      call.later (clock s).1,
      while_before-ends clock body shows round n (time (clock s).1 + timeout) (mid (clock s).1).1,
    );
  }
