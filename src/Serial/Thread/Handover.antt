-- ===== src/Serial/Thread/Handover.antt =====
-- The thread of a serial console hands its lock over to a caller that has cleared the flag.
use coppercomm.Prelude.{ℕ, suc, ◌+◌, ◌≤◌, ◌≡◌, refl, ◌≢◌, Bool, true, false, none, some, arith}
use coppercomm.Serial.Thread.{
  reader, caller, Shared, Thread, testing, acquiring, looking, looking_on, reading, releasing,
  idling, waiting, leaving, clearing, stopping, finished, Caller, idle, silencing, wanting, inside,
  restoring, giving_back, ending, joining, closing, thread_move, caller_move, System, set_caller,
  Reach,
}
use coppercomm.Serial.Thread.Exclusion.{
  thread_holds, caller_holds, IsGuarded, thread_step-IsGuarded, caller_step-IsGuarded,
  Reach-IsGuarded,
}

-- A run from `s` in which the thread keeps the lock, with the number of the steps that it takes
-- itself.
pub data Keeps (s : System) : ℕ → System → Type 0 where
  stay : Keeps s 0 s
  and_thread :
      {n : ℕ} {t : System} (raises : Bool) (pc : Thread) (shared : Shared)
      → Keeps s n t
      → thread_move raises t.thread t.shared ≡ some (pc, shared)
      → shared.owner ≡ some reader
      → Keeps s (suc n) (record t { thread = pc; shared = shared })
  and_caller :
      {n : ℕ} {t : System} (onward : Bool) (i : ℕ) (c : Caller) (shared : Shared)
      → Keeps s n t
      → caller_move t.thread onward i (t.callers i) t.shared ≡ some (c, shared)
      → Keeps s n (record t { callers = set_caller i c t.callers; shared = shared })

-- The thread is where it may own the lock, and how many steps it then has to its release.
abbrev stands : Thread → Bool
stands leaving = true
stands t = thread_holds t

abbrev to_release : Thread → ℕ
to_release looking = 1
to_release reading = 2
to_release looking_on = 3
to_release _ = 0

thread_nearer :
    (raises : Bool) (t t' : Thread) (sh sh' : Shared)
    → thread_move raises t sh ≡ some (t', sh')
    → sh'.owner ≡ some reader
    → sh.streaming ≡ false
    → stands t ≡ true
    → (sh'.streaming ≡ false) × (stands t' ≡ true) × (suc (to_release t') ≤ to_release t)
unfolding thread_move
thread_nearer raises looking t' sh sh' e o q h = ground arith
thread_nearer raises looking_on t' sh sh' e o q h = ground arith
thread_nearer raises reading t' sh sh' e o q h = ground arith
thread_nearer raises releasing t' sh sh' e o q h = absurd (ground arith)
thread_nearer raises leaving t' sh sh' e o q h = absurd (ground arith)
thread_nearer raises testing t' sh sh' e o q h = absurd (cc)
thread_nearer raises acquiring t' sh sh' e o q h = absurd (cc)
thread_nearer raises idling t' sh sh' e o q h = absurd (cc)
thread_nearer raises waiting t' sh sh' e o q h = absurd (cc)
thread_nearer raises clearing t' sh sh' e o q h = absurd (cc)
thread_nearer raises stopping t' sh sh' e o q h = absurd (cc)
thread_nearer raises finished t' sh sh' e o q h = absurd (cc)

-- Where it stands, the thread never waits.
thread_moves :
    (raises : Bool) (t : Thread) (sh : Shared) → stands t ≡ true → thread_move raises t sh ≢ none
unfolding thread_move
thread_moves raises looking sh h e = cc
thread_moves raises looking_on sh h e = cc
thread_moves raises reading sh h e = cc
thread_moves raises releasing sh h e = cc
thread_moves raises leaving sh h e = cc
thread_moves raises testing sh h e = cc
thread_moves raises acquiring sh h e = cc
thread_moves raises idling sh h e = cc
thread_moves raises waiting sh h e = cc
thread_moves raises clearing sh h e = cc
thread_moves raises stopping sh h e = cc
thread_moves raises finished sh h e = cc

-- No caller sets the flag while the thread owns the lock.
caller_waits :
    (t : Thread) (onward : Bool) (i : ℕ) (c c' : Caller) (sh sh' : Shared)
    → caller_move t onward i c sh ≡ some (c', sh')
    → (caller_holds c ≡ true → sh.owner ≡ some (caller i))
    → sh.owner ≡ some reader
    → sh.streaming ≡ false
    → (sh'.owner ≡ some reader) × (sh'.streaming ≡ false)
unfolding caller_move
caller_waits t onward i idle c' sh sh' e h o q = ground arith
caller_waits t onward i silencing c' sh sh' e h o q = ground arith
caller_waits t onward i wanting c' sh sh' e h o q = ground arith
caller_waits t onward i inside c' sh sh' e h o q = ground arith
caller_waits t onward i restoring c' sh sh' e h o q = ground arith
caller_waits t onward i giving_back c' sh sh' e h o q = ground arith
caller_waits t onward i ending c' sh sh' e h o q = ground arith
caller_waits t onward i joining c' sh sh' e h o q = ground arith
caller_waits t onward i closing c' sh sh' e h o q = ground arith

-- The thread owns the lock, the flag is clear, and with the `n` steps that it has taken it is no
-- farther from its release than `start`.
record IsYielding (start n : ℕ) (t : System) : Type 0 where
  guarded : IsGuarded t
  owns : t.shared.owner ≡ some reader
  quiet : t.shared.streaming ≡ false
  there : stands t.thread ≡ true
  near : n + to_release t.thread ≤ start

Keeps-IsYielding :
    {s t : System} {n : ℕ}
    → IsYielding (to_release s.thread) 0 s
    → Keeps s n t
    → IsYielding (to_release s.thread) n t
Keeps-IsYielding y stay = y
Keeps-IsYielding y (and_thread {n} {t} raises pc shared k e o) =
    let z = Keeps-IsYielding y k in
    let (quiet, there, nearer) =
      thread_nearer raises t.thread pc t.shared shared e o z.quiet z.there in
    record {
      guarded = thread_step-IsGuarded t raises pc shared z.guarded e;
      owns = o;
      quiet = quiet;
      there = there;
      near = omega (arith, z.near, nearer);
    }
Keeps-IsYielding y (and_caller {n} {t} onward i c shared k e) =
    let z = Keeps-IsYielding y k in
    let (owns, quiet) =
      caller_waits t.thread onward i (t.callers i) c t.shared shared e (z.guarded.caller_owns i)
        z.owns z.quiet in
    record {
      guarded = caller_step-IsGuarded t onward i c shared z.guarded e;
      owns = owns;
      quiet = quiet;
      there = z.there;
      near = z.near;
    }

holds_stands : (t : Thread) → thread_holds t ≡ true → (stands t ≡ true) × (to_release t ≤ 3)
holds_stands looking h = (refl, omega arith)
holds_stands looking_on h = (refl, omega arith)
holds_stands reading h = (refl, omega arith)
holds_stands releasing h = (refl, omega arith)
holds_stands testing h = absurd (cc)
holds_stands acquiring h = absurd (cc)
holds_stands idling h = absurd (cc)
holds_stands waiting h = absurd (cc)
holds_stands leaving h = absurd (cc)
holds_stands clearing h = absurd (cc)
holds_stands stopping h = absurd (cc)
holds_stands finished h = absurd (cc)

-- A thread that holds the lock while the flag `_streaming` is clear takes at most three steps of
-- its own before it gives the lock up, whatever the callers do meanwhile, and up to then none of
-- its steps has to wait.
pub thread_yields :
    {s t : System} {n : ℕ}
    → Reach s
    → thread_holds s.thread ≡ true
    → s.shared.streaming ≡ false
    → Keeps s n t
    → (n ≤ 3) × ((raises : Bool) → thread_move raises t.thread t.shared ≢ none)
thread_yields {s} {t} r holds quiet k =
    let (there, few) = holds_stands s.thread holds in
    let z =
      Keeps-IsYielding
        (record {
          guarded = Reach-IsGuarded r;
          owns = (Reach-IsGuarded r).thread_owns holds;
          quiet = quiet;
          there = there;
          near = omega arith;
        })
        k in
    (omega (arith, z.near, few), λ raises. thread_moves raises t.thread t.shared z.there)
