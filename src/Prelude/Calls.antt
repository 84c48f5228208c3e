-- ===== src/Prelude/Calls.antt =====
-- Python calls that change state and may raise. What was written before a raise stays written, so
-- the state comes back beside the exception.
use mathlib.Core.Bool.{Bool, true, false}
use coppercomm.Prelude.Tests.{if◌then◌else◌}

-- The exceptions that the library raises or catches, by class. `exception` is a bare `Exception`.
pub data Error : Type 0 where
  assertion_error command_failed timeout_expired pattern_not_found : Error
  coppercomm_error coppercomm_connection device_resource_unavailable : Error
  exception remount_error config_file_parse_error value_error key_error index_error : Error
  type_error os_error runtime_error serial_connection_error called_process_error name_error : Error
  attribute_error eof_error ssh_exception authentication_exception no_valid_connections : Error
  ssh_connection_error ssh_command_failed ssh_timeout_reached sftp_transfer_failed : Error
  process_timeout adb_loop_stopped re_error : Error

-- `except AssertionError`: the exceptions of src/coppercomm/device_common/exceptions.py and
-- src/coppercomm/device_factory.py that derive from it.
unfoldable pub is_assertion_error : Error → Bool
is_assertion_error assertion_error = true
is_assertion_error command_failed = true
is_assertion_error timeout_expired = true
is_assertion_error pattern_not_found = true
is_assertion_error coppercomm_error = true
is_assertion_error coppercomm_connection = true
is_assertion_error device_resource_unavailable = true
is_assertion_error _ = false

-- `no_fuel` is no outcome of the program: a loop was cut off.
pub data Result {ℓ} (A : Type ℓ) : Type ℓ where
  ok : A → Result A
  raised : Error → Result A
  no_fuel : Result A

abbrev pub Act {ℓ} : Type 0 → Type ℓ → Type ℓ
Act S A = S → Result A × S

module _ {S : Type 0} {A : Type 0} where
  abbrev pub pure : A → Act S A
  pure a s = (ok a, s)

  abbrev pub raise : Error → Act S A
  raise e s = (raised e, s)

  abbrev pub lift : Result A → Act S A
  lift r s = (r, s)

  abbrev pub gets : (S → A) → Act S A
  gets f s = (ok (f s), s)

  -- `try: m except ...`: the handler is run for the exceptions that `caught` names.
  abbrev pub handle : (Error → Bool) → (Error → Act S A) → Result A × S → Result A × S
  handle caught h (ok a, s) = (ok a, s)
  handle caught h (raised e, s) = if caught e then h e s else (raised e, s)
  handle caught h (no_fuel, s) = (no_fuel, s)

  abbrev pub try : Act S A → (Error → Bool) → (Error → Act S A) → Act S A
  try m caught h s = handle caught h (m s)

module _ {S : Type 0} where
  abbrev pub modify : (S → S) → Act S (Unit {0})
  modify f s = (ok tt, f s)

  abbrev pub raise_if : Bool → Error → Act S (Unit {0})
  raise_if true e s = (raised e, s)
  raise_if false e s = (ok tt, s)

module _ {S : Type 0} {A B : Type 0} where
  abbrev pub continue : (A → Act S B) → Result A × S → Result B × S
  continue f (ok a, s) = f a s
  continue f (raised e, s) = (raised e, s)
  continue f (no_fuel, s) = (no_fuel, s)

  infixl 5 ◌>>=◌ ◌>>◌
  abbrev pub ◌>>=◌ : Act S A → (A → Act S B) → Act S B
  ◌>>=◌ m f s = continue f (m s)

  abbrev pub ◌>>◌ : Act S A → Act S B → Act S B
  m >> k = m >>= λ _. k

-- `while True` and `while test` loops take fuel; a recursion that is out of it returns this.
abbrev pub cut_off : {S A : Type 0} → Act S A
cut_off s = (no_fuel, s)
