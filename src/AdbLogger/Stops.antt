-- ===== src/AdbLogger/Stops.antt =====
-- How the thread ends.
use coppercomm.Prelude.{
  ℕ, suc, ◌≡◌, refl, ◌∙◌, ◌≢◌, ◌⊎◌, inl, inr, Bool-cases, Bool, true, false, if◌then◌else◌, none,
  some, process_timeout, adb_loop_stopped, Result, ok, raised, no_fuel, pure, modify, try, handle,
  continue, arith,
}
use coppercomm.Host.{Host}
use coppercomm.AdbLogger.Loop.{
  Outside, Settings, Logger, stop_logging, read_flag, loop_body, adb_loop, end_process, shut_down,
  finally_shut_down, run, is_stopped,
}

-- As `Popen.wait` is documented: it raises nothing but `TimeoutExpired`.
pub record IsAwaited {H : Host} (O : Outside H) : Type 0 where
  pub waits :
      (limit : ℕ) (s : H.State)
      → ((O.wait limit s).0 ≡ none) ⊎ ((O.wait limit s).0 ≡ some process_timeout)

module _ (H : Host) (O : Outside H) (G : Settings) (W : IsAwaited O) where
  abbrev Quiet : Logger H O G → Result (Unit {0}) × Logger H O G → Type 0
  Quiet l (r, l') = (r ≡ ok tt) × (l'.logger_started ≡ l.logger_started)

  end_process-Quiet : (l : Logger H O G) → Quiet l (end_process H O G l)
  unfolding end_process
  end_process-Quiet l = ground (
    arith,
    W.waits 15000 (O.terminate l.host),
    W.waits 15000 (O.kill (O.wait 15000 (O.terminate l.host)).1),
  )

  -- Behind a quiet call, the file is closed quietly.
  closed_after :
      (l : Logger H O G) (r : Result (Unit {0})) (l' : Logger H O G)
      → Quiet l (r, l')
      → Quiet l (continue (λ _. modify λ k. record k { is_open = false }) (r, l'))
        × ((continue {B = Unit {0}}
              (λ _. modify λ k. record k { is_open = false })
              (r, l')).1.is_open
            ≡ false)
  closed_after l (ok a) l' q = ((refl, q.1), refl)
  closed_after l (raised e) l' q = absurd (let x = q.0 in cc)
  closed_after l no_fuel l' q = absurd (let x = q.0 in cc)

  if_connected-Quiet :
      (l : Logger H O G) (connected : Bool)
      → Quiet l ((if connected then end_process H O G else pure tt) l)
  if_connected-Quiet l true = end_process-Quiet l
  if_connected-Quiet l false = (refl, refl)

  shut_down-Quiet :
      (l : Logger H O G) → Quiet l (shut_down H O G l) × ((shut_down H O G l).1.is_open ≡ false)
  unfolding shut_down
  shut_down-Quiet l =
      let m = if l.connection then end_process H O G else pure tt in
      closed_after l (m l).0 (m l).1 (if_connected-Quiet l l.connection)

  read_flag-stopped : (l : Logger H O G) → l.stop_adb_loop ≡ true → (read_flag H O G l).0 ≡ ok true
  unfolding read_flag stop_logging
  read_flag-stopped l stopping = elim (Bool-cases (O.asked_to_stop l.host).0) [
    | inl asked ↦ rw (asked, stopping) refl
    | inr other ↦ rw other (rw stopping refl)
  ]

  loop_body-stopped :
      (l : Logger H O G)
      → l.stop_adb_loop ≡ true
      → ((loop_body H O G l).0 ≡ raised adb_loop_stopped)
        × ((loop_body H O G l).1.logger_started ≡ false)
  unfolding loop_body
  loop_body-stopped l stopping = rw (continue, read_flag-stopped l stopping) (refl, refl)

  adb_loop-stopped :
      (fuel : ℕ) (l : Logger H O G)
      → l.stop_adb_loop ≡ true
      → ((adb_loop H O G (suc fuel) l).0 ≡ raised adb_loop_stopped)
        × ((adb_loop H O G (suc fuel) l).1.logger_started ≡ false)
  unfolding adb_loop
  adb_loop-stopped fuel l stopping =
      let (stopped, cleared) = loop_body-stopped l stopping in rw (handle, stopped) (refl, cleared)

  finally_closed :
      (r : Result (Unit {0})) (l : Logger H O G)
      → (finally_shut_down H O G (r, l)).0 ≢ no_fuel
      → (finally_shut_down H O G (r, l)).1.is_open ≡ false
  finally_closed (ok a) l ended = (shut_down-Quiet l).1
  finally_closed (raised e) l ended =
      let ((fine, kept), closed) = shut_down-Quiet l in rw (continue, fine) closed
  finally_closed no_fuel l ended = absurd (ended refl)

  -- When the thread of the adb logger ends, by a return or by an exception, its file is closed, if
  -- `Popen.wait` raises nothing but `TimeoutExpired`.
  pub run-closed :
      (fuel : ℕ) (l : Logger H O G)
      → (run H O G fuel l).0 ≢ no_fuel
      → (run H O G fuel l).1.is_open ≡ false
  unfolding run
  run-closed fuel l =
      let left = try (adb_loop H O G fuel) is_stopped (λ _. pure tt) l in
      finally_closed left.0 left.1

  -- Once the flag of the thread of the adb logger is set, `run` returns in the next round, with the
  -- event of the start cleared and the file closed, whatever the process does, if `Popen.wait`
  -- raises nothing but `TimeoutExpired`.
  pub run-stops :
      (fuel : ℕ) (l : Logger H O G)
      → l.stop_adb_loop ≡ true
      → ((run H O G (suc fuel) l).0 ≡ ok tt)
        × ((run H O G (suc fuel) l).1.logger_started ≡ false)
        × ((run H O G (suc fuel) l).1.is_open ≡ false)
  unfolding run
  run-stops fuel l stopping =
      let (stopped, cleared) = adb_loop-stopped fuel l stopping in
      let ((fine, kept), closed) = shut_down-Quiet (adb_loop H O G (suc fuel) l).1 in
      rw (handle, stopped) (fine, kept ∙ cleared, closed)
