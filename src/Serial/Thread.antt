-- ===== src/Serial/Thread.antt =====
-- The thread of a serial console (`run`) and its callers (`expect`, `send_command`, `close_console`),
-- interleaved: each function is one step of one of them, and says from where and to where it goes. A
-- step that must wait is `none`. The thread has been started; no caller calls within a call.
pub mod Exclusion
pub mod Handover
use coppercomm.Prelude.{ℕ, ◌==◌, ◌≡◌, Bool, true, false, Option, none, some, if◌then◌else◌}

-- Who can hold the lock.
pub data Party : Type 0 where
  reader : Party
  caller : ℕ → Party

abbrev pub is_reader : Option Party → Bool
is_reader none = false
is_reader (some reader) = true
is_reader (some (caller i)) = false

-- The lock `_lock` with its owner, the flags, and whether the port has been closed.
pub record Shared : Type 0 where
  pub owner : Option Party
  pub streaming : Bool
  pub running : Bool
  pub closed : Bool

-- Where the thread stands in `run`: before the test of the outer loop, before the lock, before the
-- two tests of the inner loop, in `_get_line`, before the release, before the test and in the wait of
-- the second inner loop, in the three steps of the `finally`, at the end.
pub data Thread : Type 0 where
  testing acquiring looking looking_on reading releasing idling waiting leaving clearing stopping
        finished :
      Thread

-- Where a caller stands: in no call; before the flag, before the lock and under the lock of `expect`
-- or `send_command`, in the two steps of their `finally`; in the three steps of `close_console`.
pub data Caller : Type 0 where
  idle silencing wanting inside restoring giving_back ending joining closing : Caller

-- A step of the thread. `raises` says whether `_get_line` raises.
unfoldable pub thread_move : Bool → Thread → Shared → Option (Thread × Shared)
thread_move raises testing s = some (if s.running then acquiring else leaving, s)
thread_move raises acquiring s = elim s.owner [
  | none ↦ some (looking, record s { owner = some reader })
  | some p ↦ none
]
thread_move raises looking s = some (if s.streaming then looking_on else releasing, s)
thread_move raises looking_on s = some (if s.running then reading else releasing, s)
thread_move raises reading s = some (if raises then leaving else looking, s)
thread_move raises releasing s = some (idling, record s { owner = none })
thread_move raises idling s = some (if s.running then waiting else testing, s)
thread_move raises waiting s = some (if s.streaming then testing else idling, s)
thread_move raises leaving s =
    some (clearing, record s { owner = if is_reader s.owner then none else s.owner })
thread_move raises clearing s = some (stopping, record s { streaming = false })
thread_move raises stopping s = some (finished, record s { running = false })
thread_move raises finished s = none

abbrev pub is_finished : Thread → Bool
is_finished finished = true
is_finished _ = false

-- A step of the caller `i`. `onward` says whether it calls `close_console`, and, under the lock,
-- whether its call reads on.
unfoldable pub caller_move : Thread → Bool → ℕ → Caller → Shared → Option (Caller × Shared)
caller_move t onward i idle s = some (if onward then ending else silencing, s)
caller_move t onward i silencing s = some (wanting, record s { streaming = false })
caller_move t onward i wanting s = elim s.owner [
  | none ↦ some (inside, record s { owner = some (caller i) })
  | some p ↦ none
]
caller_move t onward i inside s = some (if onward then inside else restoring, s)
caller_move t onward i restoring s = some (giving_back, record s { streaming = true })
caller_move t onward i giving_back s = some (idle, record s { owner = none })
caller_move t onward i ending s = some (joining, record s { running = false })
caller_move t onward i joining s = if is_finished t then some (closing, s) else none
caller_move t onward i closing s = some (idle, record s { closed = true })

pub record System : Type 0 where
  pub thread : Thread
  pub callers : ℕ → Caller
  pub shared : Shared

abbrev pub set_caller : ℕ → Caller → (ℕ → Caller) → ℕ → Caller
set_caller i c callers j = if j == i then c else callers j

pub data Step (s : System) : System → Type 0 where
  by_thread :
      (raises : Bool) (t : Thread) (shared : Shared)
      → thread_move raises s.thread s.shared ≡ some (t, shared)
      → Step s (record s { thread = t; shared = shared })
  by_caller :
      (onward : Bool) (i : ℕ) (c : Caller) (shared : Shared)
      → caller_move s.thread onward i (s.callers i) s.shared ≡ some (c, shared)
      → Step s (record s { callers = set_caller i c s.callers; shared = shared })

-- After the constructor, with the thread started.
abbrev pub started : System
started = record {
  thread = testing;
  callers = λ i. idle;
  shared = record { owner = none; streaming = true; running = true; closed = false };
}

pub data Reach : System → Type 0 where
  here : Reach started
  next : {s t : System} → Reach s → Step s t → Reach t
