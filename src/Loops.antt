-- ===== src/Loops.antt =====
-- The library's waiting loops, `while time.monotonic() < deadline: ...`, as one combinator with
-- its rules. A round that returns `none` goes on; one that returns `some` leaves the loop. Fuel
-- counts the rounds.
pub mod Total
pub mod Results
pub mod Keeps
use coppercomm.Prelude.{
  ℕ, zero, suc, Bool, true, false, Option, none, some, Act, Result, ltb, pure, ◌>>=◌, cut_off,
}

module _ {S : Type 0} {A : Type 0} where
  abbrev pub turn : Option A → Act S (Option A) → Act S (Option A)
  turn (some a) rest s = (Result.ok (some a), s)
  turn none rest s = rest s

  abbrev pub enter : Bool → Act S (Option A) → Act S (Option A) → Act S (Option A)
  enter true body rest = body >>= λ r. turn r rest
  enter false body rest = pure none

  unfoldable pub while_before : ℕ → Act S ℕ → ℕ → Act S (Option A) → Act S (Option A)
  while_before zero clock deadline body = cut_off
  while_before (suc n) clock deadline body =
      let rest = while_before n clock deadline body in
      clock >>= λ t. enter (ltb t deadline) body rest
