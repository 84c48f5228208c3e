-- ===== src/Fastboot.antt =====
-- src/coppercomm/fastboot_interface.py, class `Fastboot`: its attributes, its commands and the state of
-- the device.
pub mod Laws
use Prim.Native.Char.{code}
use coppercomm.Prelude.{
  ℕ, ◌-◌, ◌==◌, leb, String, Bool, true, false, ◌&&◌, Option, none, some, List, [], ◌∷◌, ◌++◌,
  if◌then◌else◌, truthy, occurs_in, strip, split, split_lines, key_error, value_error, index_error,
  Act, Result, ok, raised, pure, lift, ◌>>=◌, ◌>>◌,
}
use coppercomm.Host.{Host}
use coppercomm.LocalConsole.{Command, words, Options, defaults, command_words, execute_words}

-- `FastbootState`
pub data FastbootState : Type 0 where
  fastboot fastbootd no_fastboot_device : FastbootState

pub record Fastboot : Type 0 where
  pub device_id : Option String
  pub fastboot_cmd : List String

-- `Fastboot(device_id)`
unfoldable pub new_fastboot : Option String → Fastboot
new_fastboot none = record { device_id = none; fastboot_cmd = "fastboot" ∷ [] }
new_fastboot (some id) = record {
  device_id = some id;
  fastboot_cmd = if truthy id then "fastboot" ∷ "-s" ∷ id ∷ [] else "fastboot" ∷ [];
}

-- `fastboot.device_id = value`
unfoldable pub set_fastboot_id : String → Fastboot → Fastboot
set_fastboot_id value f = record {
  device_id = some value;
  fastboot_cmd = "fastboot" ∷ "-s" ∷ value ∷ [];
}

-- `text.upper()` for one ASCII character.
abbrev upper : ℕ → ℕ
upper c = if leb b'a' c && leb c b'z' then c - 32 else c

-- `word.upper() == name`, for a word of ASCII characters.
unfoldable pub equals_upper : String → String → Bool
equals_upper String.[] String.[] = true
equals_upper String.[] (String.◌∷◌ c word) = false
equals_upper (String.◌∷◌ a name) String.[] = false
equals_upper (String.◌∷◌ a name) (String.◌∷◌ c word) =
    code a == upper (code c) && equals_upper name word

-- `FastbootState[word.upper()]`
unfoldable pub state_named : String → Result FastbootState
unfolding equals_upper
state_named word =
    if equals_upper "FASTBOOT" word
    then ok fastboot
    else if equals_upper "FASTBOOTD" word
    then ok fastbootd
    else if equals_upper "NO_FASTBOOT_DEVICE" word
    then ok no_fastboot_device
    else raised key_error

abbrev mode_of : List String → Result FastbootState
mode_of (id ∷ mode ∷ rest) = state_named mode
mode_of short = raised index_error

-- The loop over the lines for an object that names its device.
unfoldable pub own_state : String → List String → Result FastbootState
unfolding state_named split occurs_in
own_state id [] = ok no_fastboot_device
own_state id (row ∷ rows) =
    let rest = own_state id rows in if occurs_in id row then mode_of (split row) else rest

-- `device_id, mode = line.split()` and what follows.
unfoldable pub adopt : List String → Act Fastboot FastbootState
unfolding state_named set_fastboot_id strip
adopt (id ∷ mode ∷ []) f = (state_named (strip mode), set_fastboot_id (strip id) f)
adopt _ f = (raised value_error, f)

-- The loop over the lines for an object that names none.
unfoldable pub first_state : List String → Act Fastboot FastbootState
unfolding adopt split occurs_in
first_state [] f = (ok no_fastboot_device, f)
first_state (row ∷ rows) f =
    let rest = first_state rows f in if occurs_in "fastboot" row then adopt (split row) f else rest

-- `if self.device_id:`
abbrev pub state_in : List String → Option String → Act Fastboot FastbootState
state_in rows none f = first_state rows f
state_in rows (some id) f = if truthy id then (own_state id rows, f) else first_state rows f

module _ (H : Host) where
  pub record FastbootSession : Type 0 where
    pub object : Fastboot
    pub host : H.State

  unfoldable pub run_fastboot : Bool → Command → Options → Act FastbootSession String
  unfolding command_words
  run_fastboot shell command o = do
    argv ← command_words command
    λ s.
        let (r, h) =
          execute_words H (s.object.fastboot_cmd ++ (if shell then "shell" ∷ argv else argv)) o
            s.host in
        (r, record s { host = h })

  -- A command with the default options of `check_output`, but for the limit.
  abbrev within : ℕ → List String → Act FastbootSession (Unit {0})
  within timeout argv =
      run_fastboot false (words argv) (record defaults { timeout = some timeout }) >>= λ _. pure tt

  unfoldable pub find_state : String → Act FastbootSession FastbootState
  unfolding first_state own_state split_lines
  find_state resp s =
      let (r, f) = state_in (split_lines resp) s.object.device_id s.object in
      (r, record s { object = f })

  unfoldable pub fastboot_state : Act FastbootSession FastbootState
  unfolding run_fastboot find_state
  fastboot_state =
      run_fastboot false (words ("devices" ∷ []))
        (record defaults { assert_ok = false; timeout = some 5000 })
      >>= find_state

  unfoldable pub reboot_fastboot : Option String → Act FastbootSession (Unit {0})
  unfolding run_fastboot
  reboot_fastboot none = within 30000 ("reboot" ∷ [])
  reboot_fastboot (some new_state) =
      within 30000 (if truthy new_state then "reboot" ∷ new_state ∷ [] else "reboot" ∷ [])

  unfoldable pub erase : String → ℕ → Act FastbootSession (Unit {0})
  unfolding run_fastboot
  erase partition timeout = within timeout ("erase" ∷ partition ∷ [])

  unfoldable pub flash : String → String → ℕ → Act FastbootSession (Unit {0})
  unfolding run_fastboot
  flash partition image timeout = within timeout ("flash" ∷ partition ∷ image ∷ [])
