-- ===== src/Adb/Wait/Results.antt =====
-- What has been read of the device when a wait of `Adb` returns.
use coppercomm.Prelude.{
  ℕ, ◌+◌, ◌≡◌, refl, ◌∙◌, subst, ◌≢◌, String, false, Option, none, some, Error, Act, Result, ok,
  raised, no_fuel, pure, lift, str_eq, strip, ◌>>=◌, exception, Bool-cases, inl, inr, eq_iff,
  occurs_in,
}
use coppercomm.Host.{Host}
use coppercomm.Loops.Results.{
  After, Ensures, Ensures-bind, Ensures-try, Ensures-any, Ensures-Returned, Returned, Left,
  while_before-Left,
}
use coppercomm.LocalConsole.{line}
use coppercomm.Adb.{
  Session, DeviceState, unauthorized, same_state, same_state_sound, now, shell, unchecked,
}
use coppercomm.Adb.State.{get_state}
use coppercomm.Adb.Server.{restart_server, is_command_failed}
use coppercomm.Adb.Wait.{
  StateArgument, to_state, is_suppressed, resume, or_raise, poll, react, look_for_state,
  wait_for_state, react_to_boot, look_for_boot, wait_for_boot_complete,
}

module _ (H : Host) (Q : Unit {0} → Session H → Type 0) where
  resume-Left :
      (interval : ℕ) (r : Option (Unit {0})) (s : Session H)
      → Left Q r s
      → After (Left Q) (resume H interval r s)
  resume-Left interval (some a) s q = q
  resume-Left interval none s q = tt

  pub or_raise-After :
      (e : Error) (r : Option (Unit {0})) (s : Session H) → Left Q r s → After Q (or_raise H e r s)
  or_raise-After e (some a) s q = q
  or_raise-After e none s q = tt

  -- What the rounds of a wait return with, the wait returns with.
  pub waiting-Ensures :
      (fuel timeout interval : ℕ) (e : Error) (m : Act (Session H) (Option (Unit {0})))
      → Ensures m (Left Q)
      → Ensures (poll H fuel timeout (m >>= resume H interval) >>= or_raise H e) Q
  waiting-Ensures fuel timeout interval e m em =
      Ensures-bind (Left Q) Q (poll H fuel timeout (m >>= resume H interval)) (or_raise H e)
        (Ensures-bind (λ _ _. Unit) (Left Q) (now H) _ (Ensures-any (now H))
          λ t s _. (while_before-Left Q (now H) _ round fuel (t + timeout)).at s)
        (or_raise-After e)
    where
      round : Ensures (m >>= resume H interval) (Left Q)
      round = Ensures-bind (Left Q) (Left Q) m (resume H interval) em (resume-Left interval)

module _ (H : Host) (fuel : ℕ) where
  -- `get_state` has just reported `expected`, which is not the state that restarts the server.
  abbrev pub Reached : DeviceState → Unit {0} → Session H → Type 0
  Reached expected _ s = Returned (get_state H) expected s × (expected ≢ unauthorized)

  restart-Left :
      (Q : Unit {0} → Session H → Type 0) (s : Session H)
      → After (Left Q) ((restart_server H fuel >>= λ _. pure none) s)
  restart-Left Q s =
      (Ensures-bind (λ _ _. Unit) (Left Q) (restart_server H fuel) _ (Ensures-any _)
          (λ _ _ _. tt)).at
        s

  different : same_state unauthorized unauthorized ≡ false → ⊥
  unfolding same_state
  different h = cc

  react-Left :
      (expected current : DeviceState) (s : Session H)
      → Returned (get_state H) current s
      → After (Left (Reached expected)) (react H fuel expected current s)
  unfolding react
  react-Left expected current s seen = elim (Bool-cases (same_state current unauthorized)) [
    | inl restarts ↦ rw (restarts, react) (restart-Left (Reached expected) s)
    | inr authorized ↦ elim (Bool-cases (same_state current expected)) [
      | inl same ↦
          let e = same_state_sound current expected same in
          rw (authorized, same, react)
            (
              subst (λ d. Returned (get_state H) d s) e seen,
              λ bad. different (rw (e ∙ bad) at authorized),
            )
      | inr other ↦ rw (authorized, other, react) tt
    ]
  ]

  look_for_state-Left :
      (expected : DeviceState) → Ensures (look_for_state H fuel expected) (Left (Reached expected))
  unfolding look_for_state
  look_for_state-Left expected =
      Ensures-try (Left (Reached expected)) _ is_suppressed (λ _. pure none)
        (Ensures-bind (Returned (get_state H)) _ (get_state H) (react H fuel expected)
          (Ensures-Returned (get_state H)) (react-Left expected))
        (λ _. record { at = λ s. tt })

  -- When `wait_for_state` returns, its argument names a state, `get_state` has just returned that
  -- state, and the state is not the unauthorized one, at which every round restarts the server
  -- instead. So a wait for the unauthorized state never returns.
  pub wait_for_state-Reached :
      (state : StateArgument) (timeout polling_interval : ℕ)
      → Ensures
          (wait_for_state H fuel state timeout polling_interval)
          (λ u s. (expected : DeviceState) × (to_state state ≡ ok expected) × Reached expected u s)
  unfolding wait_for_state
  wait_for_state-Reached state timeout polling_interval =
      Ensures-bind (λ expected _. to_state state ≡ ok expected) _ (lift (to_state state)) _
        (record { at = λ s. parsed (to_state state) refl s })
        λ expected s e. weaken e _ (
          (waiting-Ensures H (Reached expected) fuel timeout polling_interval exception
              (look_for_state H fuel expected) (look_for_state-Left expected)).at
            s)
    where
      parsed :
          (r : Result DeviceState)
          → to_state state ≡ r
          → (s : Session H) → After (λ expected _. to_state state ≡ ok expected) (r, s)
      parsed (ok d) e s = e
      parsed (raised x) e s = tt
      parsed no_fuel e s = tt

      weaken :
          {expected : DeviceState}
          → to_state state ≡ ok expected
          → (x : Result (Unit {0}) × Session H) → After (Reached expected) x
          → After (λ u s. (d : DeviceState) × (to_state state ≡ ok d) × Reached d u s) x
      weaken {expected} e (ok a, s) q = (expected, e, q)
      weaken e (raised x, s) q = tt
      weaken e (no_fuel, s) q = tt

  -- The property that a round of `wait_for_boot_complete` reads.
  abbrev pub boot_property : Act (Session H) String
  boot_property = shell H (line "getprop sys.boot_completed") (unchecked 30000)

  -- The device has just answered "1", and not that it is unauthorized.
  abbrev pub Booted : Unit {0} → Session H → Type 0
  Booted _ s =
      (output : String) × Returned boot_property output s
      × (strip output ≡ "1")
      × (occurs_in "device unauthorized" (strip output) ≡ false)

  react_to_boot-Left :
      (output : String) (s : Session H)
      → Returned boot_property output s
      → After (Left Booted) (react_to_boot H fuel (strip output) s)
  react_to_boot-Left output s seen =
      elim (Bool-cases (occurs_in "device unauthorized" (strip output))) [
        | inl restarts ↦ unfold react_to_boot in rw restarts (restart-Left Booted s)
        | inr authorized ↦ elim (Bool-cases (str_eq (strip output) "1")) [
          | inl one ↦
              unfold react_to_boot in
              rw (authorized, one) (output, seen, (eq_iff (strip output) "1").0 one, authorized)
          | inr other ↦ unfold react_to_boot in rw (authorized, other) tt
        ]
      ]

  look_for_boot-Left : Ensures (look_for_boot H fuel) (Left Booted)
  unfolding look_for_boot
  look_for_boot-Left =
      Ensures-try (Left Booted) _ is_command_failed (λ _. pure none)
        (Ensures-bind (Returned boot_property) (Left Booted) boot_property _
          (Ensures-Returned boot_property) react_to_boot-Left)
        (λ _. record { at = λ s. tt })

  -- When `wait_for_boot_complete` returns, the device has just answered "1" for
  -- `sys.boot_completed`, up to white space, and not that it is unauthorized.
  pub wait_for_boot_complete-Booted :
      (timeout : ℕ) → Ensures (wait_for_boot_complete H fuel timeout) Booted
  unfolding wait_for_boot_complete
  wait_for_boot_complete-Booted timeout =
      waiting-Ensures H Booted fuel timeout 2000 exception (look_for_boot H fuel) look_for_boot-Left
