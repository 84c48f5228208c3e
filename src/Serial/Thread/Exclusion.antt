-- ===== src/Serial/Thread/Exclusion.antt =====
-- The port of a serial console has one reader at a time.
use coppercomm.Prelude.{
  refl, Option, ℕ, ◌==◌, ==_iff, ◌≡◌, sym, ◌∙◌, ap, ◌≢◌, ◌⊎◌, Bool, true, false, ◌&&◌, not, some,
  inl, inr, Bool-cases, arith,
}
use coppercomm.Serial.Thread.{
  Party, reader, caller, Shared, Thread, testing, acquiring, looking, looking_on, reading,
  releasing, idling, waiting, leaving, clearing, stopping, finished, Caller, idle, silencing,
  wanting, inside, restoring, giving_back, ending, joining, closing, thread_move, is_finished,
  caller_move, System, set_caller, by_thread, by_caller, Reach, here, next,
}

-- The thread stands between its `acquire` and its `release`.
abbrev pub thread_holds : Thread → Bool
thread_holds looking = true
thread_holds looking_on = true
thread_holds reading = true
thread_holds releasing = true
thread_holds _ = false

abbrev pub caller_holds : Caller → Bool
caller_holds inside = true
caller_holds restoring = true
caller_holds giving_back = true
caller_holds _ = false

abbrev is_closing : Caller → Bool
is_closing closing = true
is_closing _ = false

-- Who stands under the lock owns it, and the port is closed only behind the end of the thread.
pub record IsGuarded (s : System) : Type 0 where
  pub thread_owns : thread_holds s.thread ≡ true → s.shared.owner ≡ some reader
  pub caller_owns : (i : ℕ) → caller_holds (s.callers i) ≡ true → s.shared.owner ≡ some (caller i)
  pub joined : (i : ℕ) → is_closing (s.callers i) ≡ true → s.thread ≡ finished
  pub ended : s.shared.closed ≡ true → s.thread ≡ finished

-- A step of the thread leaves a caller its lock.
thread_lock :
    (raises : Bool) (t t' : Thread) (sh sh' : Shared) (i : ℕ)
    → thread_move raises t sh ≡ some (t', sh')
    → (thread_holds t ≡ true → sh.owner ≡ some reader)
    → (thread_holds t' ≡ true → sh'.owner ≡ some reader)
      × (sh.owner ≡ some (caller i) → sh'.owner ≡ some (caller i))
      × (sh'.closed ≡ sh.closed)
      × (t ≢ finished)
unfolding thread_move
thread_lock raises testing t' sh sh' i e h = ground arith
thread_lock raises acquiring t' sh sh' i e h = ground arith
thread_lock raises looking t' sh sh' i e h = ground arith
thread_lock raises looking_on t' sh sh' i e h = ground arith
thread_lock raises reading t' sh sh' i e h = ground arith
thread_lock raises releasing t' sh sh' i e h = ground arith
thread_lock raises idling t' sh sh' i e h = ground arith
thread_lock raises waiting t' sh sh' i e h = ground arith
thread_lock raises leaving t' sh sh' i e h = ground arith
thread_lock raises clearing t' sh sh' i e h = ground arith
thread_lock raises stopping t' sh sh' i e h = ground arith
thread_lock raises finished t' sh sh' i e h = absurd (cc)

-- A step of a caller leaves the thread, and every other caller, its lock.
caller_lock :
    (t : Thread) (onward : Bool) (i : ℕ) (c c' : Caller) (sh sh' : Shared) (p : Party)
    → caller_move t onward i c sh ≡ some (c', sh')
    → (caller_holds c ≡ true → sh.owner ≡ some (caller i))
    → p ≢ caller i
    → (caller_holds c' ≡ true → sh'.owner ≡ some (caller i))
      × (sh.owner ≡ some p → sh'.owner ≡ some p)
      × (is_closing c' ≡ true → t ≡ finished)
      × ((sh'.closed ≡ sh.closed) ⊎ (is_closing c ≡ true))
unfolding caller_move
caller_lock t onward i idle c' sh sh' p e h ne = ground arith
caller_lock t onward i silencing c' sh sh' p e h ne = ground arith
caller_lock t onward i wanting c' sh sh' p e h ne = ground arith
caller_lock t onward i inside c' sh sh' p e h ne = ground arith
caller_lock t onward i restoring c' sh sh' p e h ne = ground arith
caller_lock t onward i giving_back c' sh sh' p e h ne = ground arith
caller_lock t onward i ending c' sh sh' p e h ne = ground arith
caller_lock t onward i joining c' sh sh' p e h ne = ground arith
caller_lock t onward i closing c' sh sh' p e h ne = ground arith

pub thread_step-IsGuarded :
    (s : System) (raises : Bool) (t : Thread) (sh : Shared)
    → IsGuarded s
    → thread_move raises s.thread s.shared ≡ some (t, sh)
    → IsGuarded (record s { thread = t; shared = sh })
thread_step-IsGuarded s raises t sh g e = record {
  thread_owns = (lock 0).0;
  caller_owns = λ i holds. (lock i).1 (g.caller_owns i holds);
  joined = λ i c. absurd ((lock i).3 (g.joined i c));
  ended = λ c. absurd ((lock 0).3 (g.ended (sym (lock 0).2 ∙ c)));
}
  where
    lock :
        (i : ℕ)
        → (thread_holds t ≡ true → sh.owner ≡ some reader)
          × (s.shared.owner ≡ some (caller i) → sh.owner ≡ some (caller i))
          × (sh.closed ≡ s.shared.closed)
          × (s.thread ≢ finished)
    lock i = thread_lock raises s.thread t s.shared sh i e g.thread_owns

another : (i j : ℕ) → (j == i) ≡ false → caller j ≢ caller i
another i j other e = let h : j ≡ i = cc in ground arith

pub caller_step-IsGuarded :
    (s : System) (onward : Bool) (i : ℕ) (c : Caller) (sh : Shared)
    → IsGuarded s
    → caller_move s.thread onward i (s.callers i) s.shared ≡ some (c, sh)
    → IsGuarded (record s { callers = set_caller i c s.callers; shared = sh })
caller_step-IsGuarded s onward i c sh g e = record {
  thread_owns = λ holds. (lock reader (λ x. cc)).1 (g.thread_owns holds);
  caller_owns = λ j. elim (Bool-cases (j == i)) [
    | inl same ↦
        rw same
          (λ h. (lock reader (λ x. cc)).0 h ∙ ap (λ k. some (caller k)) (sym ((==_iff j i).0 same)))
    | inr other ↦ rw other (λ h. (lock (caller j) (another i j other)).1 (g.caller_owns j h))
  ];
  joined = λ j. elim (Bool-cases (j == i)) [
    | inl same ↦ rw same (lock reader (λ x. cc)).2
    | inr other ↦ rw other (g.joined j)
  ];
  ended = λ closed. elim (lock reader (λ x. cc)).3 [
    | inl kept ↦ g.ended (sym kept ∙ closed)
    | inr now ↦ g.joined i now
  ];
}
  where
    lock :
        (p : Party)
        → p ≢ caller i
        → (caller_holds c ≡ true → sh.owner ≡ some (caller i))
          × (s.shared.owner ≡ some p → sh.owner ≡ some p)
          × (is_closing c ≡ true → s.thread ≡ finished)
          × ((sh.closed ≡ s.shared.closed) ⊎ (is_closing (s.callers i) ≡ true))
    lock p ne = caller_lock s.thread onward i (s.callers i) c s.shared sh p e (g.caller_owns i) ne

pub Reach-IsGuarded : {s : System} → Reach s → IsGuarded s
Reach-IsGuarded here = record {
  thread_owns = λ h. absurd (cc);
  caller_owns = λ i h. absurd (cc);
  joined = λ i h. absurd (cc);
  ended = λ h. absurd (cc);
}
Reach-IsGuarded (next {s} r (by_thread raises t sh e)) =
    thread_step-IsGuarded s raises t sh (Reach-IsGuarded r) e
Reach-IsGuarded (next {s} r (by_caller onward i c sh e)) =
    caller_step-IsGuarded s onward i c sh (Reach-IsGuarded r) e

not_both : (a b : Bool) → (a ≡ true → b ≡ true → ⊥) → (a && b) ≡ false
not_both true true h = absurd (h refl refl)
not_both true false h = refl
not_both false b h = ground arith

both_of : (a b : Bool) → (a && b) ≡ true → (a ≡ true) × (b ≡ true)
both_of a b h = ground arith

same_caller :
    (i j : ℕ) → ◌≡◌ {A = Option Party} (some (caller i)) (some (caller j)) → not (i == j) ≡ false
same_caller i j e = let same : i ≡ j = cc in ground (arith, ==_iff i j)

going_on : (t : Thread) → t ≡ finished → not (is_finished t) ≡ false
going_on t e = rw e refl

-- In every interleaving of the thread of a serial console with its callers, the port has one reader
-- at a time: while the thread stands between its `acquire` and its `release`, no caller stands
-- under the lock, and never do two callers. The port is closed only behind the end of the thread.
pub one_reader :
    {s : System}
    → Reach s
    → (i j : ℕ)
    → ((thread_holds s.thread && caller_holds (s.callers i)) ≡ false)
      × (((caller_holds (s.callers i) && caller_holds (s.callers j)) && not (i == j)) ≡ false)
      × ((s.shared.closed && not (is_finished s.thread)) ≡ false)
one_reader {s} r i j =
    let g = Reach-IsGuarded r in
    (
      not_both _ _
          λ thread other. let a = g.thread_owns thread in let b = g.caller_owns i other in cc,
      not_both _ _ λ both apart.
          let (first, second) = both_of _ _ both in
          let same = same_caller i j (sym (g.caller_owns i first) ∙ g.caller_owns j second) in cc,
      not_both _ _ λ closed going. let ended = going_on s.thread (g.ended closed) in cc,
    )
