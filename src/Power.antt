-- ===== src/Power.antt =====
-- src/coppercomm/device_common/interfaces.py, `PowerController.power_reset`: a power cycle. The two
-- switches are parameters; delays are whole milliseconds, and negative ones stand as 0.
use coppercomm.Prelude.{
  ℕ, zero, suc, ◌+◌, ◌-◌, ◌≤◌, ◌<◌, ◌≡◌, arith, ltb, leb, if◌then◌else◌, Act, ok, pure, ◌>>=◌, ◌>>◌,
  cut_off,
}
use coppercomm.Host.{Host, IsLawful, pause}

abbrev pub min : ℕ → ℕ → ℕ
min a b = if leb a b then a else b

module _ (H : Host) where
  -- The loop, in stages of ten seconds at most.
  unfoldable pub pauses : ℕ → ℕ → Act H.State (Unit {0})
  pauses zero delay = cut_off
  pauses (suc fuel) delay =
      let delay_stage = min delay 10000 in
      let rest = pauses fuel (delay - delay_stage) in
      if ltb 0 delay then (pause H delay_stage >>= λ _. rest) else pure tt

  module _ (power_off power_on : Act H.State (Unit {0})) where
    unfoldable pub power_reset : ℕ → ℕ → Act H.State (Unit {0})
    unfolding pauses
    power_reset fuel delay = do power_off; pauses fuel delay; power_on

  -- The loop of `power_reset` ends, and the sleeps of its stages together last as long as the delay
  -- or longer, if the fuel exceeds the delay in milliseconds and a sleep lasts as long as it was
  -- asked to.
  pub pauses-lasts :
      IsLawful H
      → (fuel delay : ℕ) (s : H.State) → delay < fuel
      → ((pauses fuel delay s).0 ≡ ok tt) × (H.time s + delay ≤ H.time (pauses fuel delay s).1)
  unfolding pauses
  pauses-lasts L zero delay s enough = absurd (omega arith)
  pauses-lasts L (suc fuel) delay s enough = ground (
    arith,
    L.time-sleep (min delay 10000) s,
    pauses-lasts L fuel (delay - min delay 10000) (H.sleep (min delay 10000) s),
  )
