-- ===== src/Tests/ThreadRuns.antt =====
-- Interleavings of the thread of a serial console with its callers, and the theorems at them.
use coppercomm.Prelude.{
  ◌==◌, ◌&&◌, not, ℕ, ◌≤◌, ◌≡◌, refl, ◌≢◌, Bool, true, false, Option, none, some, List, [], ◌∷◌,
}
use coppercomm.Serial.Thread.{
  is_finished, Party, reader, Shared, Thread, acquiring, looking, releasing, Caller, silencing,
  wanting, thread_move, caller_move, System, set_caller, by_thread, by_caller, started, Reach, here,
  next,
}
use coppercomm.Serial.Thread.Exclusion.{thread_holds, caller_holds, one_reader}
use coppercomm.Serial.Thread.Handover.{Keeps, stay, and_thread, thread_yields}

-- A turn is the thread's, or a caller's, and what its step is given.
data Turn : Type 0 where
  thread_turn : Bool → Turn
  caller_turn : ℕ → Bool → Turn

abbrev after_thread : System → Option (Thread × Shared) → Option System
after_thread s none = none
after_thread s (some (t, shared)) = some (record s { thread = t; shared = shared })

abbrev after_caller : System → ℕ → Option (Caller × Shared) → Option System
after_caller s i none = none
after_caller s i (some (c, shared)) =
    some (record s { callers = set_caller i c s.callers; shared = shared })

abbrev turn : System → Turn → Option System
turn s (thread_turn raises) = after_thread s (thread_move raises s.thread s.shared)
turn s (caller_turn i onward) =
    after_caller s i (caller_move s.thread onward i (s.callers i) s.shared)

unfoldable run : List Turn → Option System → Option System
unfolding thread_move caller_move
run [] o = o
run (x ∷ xs) none = none
run (x ∷ xs) (some s) = run xs (turn s x)

abbrev thread_goes : Turn
thread_goes = thread_turn false

abbrev flags_after : List Turn → Option (Bool × Option Party × Caller × Bool)
unfolding run
flags_after turns = elim (run turns (some started)) [
  | none ↦ none
  | some s ↦ some (s.shared.streaming, s.shared.owner, s.callers 1, thread_holds s.thread)
]

-- A caller that sets the flag behind its call sets it for a second caller too, which has cleared it
-- and waits for the lock: the thread takes the lock, and reads on with the flag set.
second_caller_waits :
    flags_after (
      thread_goes
      ∷ thread_goes
      ∷ caller_turn 0 false
      ∷ caller_turn 0 false
      ∷ thread_goes
      ∷ thread_goes
      ∷ thread_goes
      ∷ caller_turn 0 false
      ∷ caller_turn 1 false
      ∷ caller_turn 1 false
      ∷ caller_turn 0 false
      ∷ caller_turn 0 false
      ∷ caller_turn 0 false
      ∷ thread_goes
      ∷ thread_goes
      ∷ thread_goes
      ∷ [])
    ≡ some (true, some reader, wanting, true)
unfolding flags_after
second_caller_waits = refl

abbrev reading_state : System
reading_state = record started {
  thread = looking;
  shared = record { owner = some reader; streaming = true; running = true; closed = false };
}

reading_state-Reach : Reach reading_state
unfolding thread_move
reading_state-Reach =
    next (next here (by_thread false acquiring started.shared refl))
      (by_thread false looking (record started.shared { owner = some reader }) refl)

abbrev silenced_state : System
silenced_state = record reading_state {
  callers = set_caller 0 wanting (set_caller 0 silencing reading_state.callers);
  shared = record reading_state.shared { streaming = false };
}

silenced_state-Reach : Reach silenced_state
unfolding caller_move
silenced_state-Reach =
    next (next reading_state-Reach (by_caller false 0 silencing reading_state.shared refl))
      (by_caller false 0 wanting (record reading_state.shared { streaming = false }) refl)

one_reader_example :
    ((thread_holds silenced_state.thread && caller_holds (silenced_state.callers 0)) ≡ false)
    × (((caller_holds (silenced_state.callers 0) && caller_holds (silenced_state.callers 1))
          && not (0 == 1))
        ≡ false)
    × ((silenced_state.shared.closed && not (is_finished silenced_state.thread)) ≡ false)
one_reader_example = one_reader silenced_state-Reach 0 1

abbrev released_state : System
released_state = record silenced_state {
  thread = releasing;
  shared = record silenced_state.shared { owner = some reader };
}

released_state-Keeps : Keeps silenced_state 1 released_state
unfolding thread_move
released_state-Keeps =
    and_thread false releasing (record silenced_state.shared { owner = some reader }) stay refl refl

thread_yields_example :
    (1 ≤ 3) × ((raises : Bool) → thread_move raises releasing released_state.shared ≢ none)
thread_yields_example = thread_yields silenced_state-Reach refl refl released_state-Keeps
