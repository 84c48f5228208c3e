-- ===== src/Serial/Echo.antt =====
-- The search for the echo of a command.
use coppercomm.Prelude.{
  ℕ, zero, suc, ◌+◌, ◌*◌, ◌≡◌, String, Bool, true, Option, none, some, if◌then◌else◌, occurs_in,
  Bool-cases, inl, inr, pure, ◌>>=◌,
}
use coppercomm.Loops.{while_before}
use coppercomm.Loops.Results.{
  After, Ensures, Ensures-bind, Ensures-last, Ensures-Returned, Returned, Left, while_before-Left,
}
use coppercomm.Serial.{
  Port, Reader, clock_now, send_text, get_line, look_for_echo, unless_seen, type_command,
  send_and_check,
}

module _ (P : Port) where
  -- The line just read holds the command.
  abbrev pub Echoed : String → Unit {0} → Reader P → Type 0
  Echoed command _ s =
      (text : String) × Returned (get_line P) text s × (occurs_in command text ≡ true)

  look_for_echo-Left :
      (command : String) → Ensures (look_for_echo P command) (Left (Echoed command))
  unfolding look_for_echo
  look_for_echo-Left command =
      Ensures-bind (Returned (get_line P)) (Left (Echoed command)) (get_line P) _
        (Ensures-Returned (get_line P)) found
    where
      found :
          (text : String) (s : Reader P)
          → Returned (get_line P) text s
          → After
              (Left (Echoed command))
              ((if occurs_in command text then pure (some tt) else pure none) s)
      found text s seen = elim (Bool-cases (occurs_in command text)) [
        | inl here ↦ rw here (text, seen, here)
        | inr other ↦ rw other tt
      ]

  type_command-Echoed :
      (fuel max_retypes : ℕ) (command : String) (send_linebreak : Bool)
      → Ensures (type_command P fuel max_retypes command send_linebreak) (Echoed command)
  unfolding type_command
  type_command-Echoed fuel zero command send_linebreak = record { at = λ s. tt }
  type_command-Echoed fuel (suc max_retypes) command send_linebreak =
      Ensures-bind (Left (Echoed command)) (Echoed command)
        (send_text P send_linebreak command >>= λ _. clock_now P >>= λ t.
          while_before fuel (clock_now P) (t + 2 * P.second) (look_for_echo P command))
        (unless_seen P (type_command P fuel max_retypes command send_linebreak))
        (Ensures-last (Left (Echoed command)) (send_text P send_linebreak command) _ λ _.
          Ensures-last (Left (Echoed command)) (clock_now P) _ λ t.
            while_before-Left (Echoed command) (clock_now P) _ (look_for_echo-Left command) fuel
              (t + 2 * P.second))
        (onward (type_command-Echoed fuel max_retypes command send_linebreak))
    where
      onward :
          Ensures (type_command P fuel max_retypes command send_linebreak) (Echoed command)
          → (seen : Option (Unit {0})) (s : Reader P) → Left (Echoed command) seen s
          → After
              (Echoed command)
              (unless_seen P (type_command P fuel max_retypes command send_linebreak) seen s)
      onward later (some a) s held = held
      onward later none s held = later.at s

  -- When `_send_command`, asked to check the echo, returns, the line just read holds the command.
  pub send_and_check-Echoed :
      (fuel : ℕ) (command : String) (max_retypes : ℕ) (send_linebreak : Bool)
      → Ensures (send_and_check P fuel command max_retypes true send_linebreak) (Echoed command)
  unfolding send_and_check
  send_and_check-Echoed fuel command max_retypes send_linebreak =
      type_command-Echoed fuel max_retypes command send_linebreak
