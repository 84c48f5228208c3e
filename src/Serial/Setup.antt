-- ===== src/Serial/Setup.antt =====
-- `SerialConsoleInterface._check_connection_address`: a port before its use. The file system and
-- `shutil.which` are parameters.
use coppercomm.Prelude.{
  String, Bool, not, if◌then◌else◌, ℤ, pos, negsuc, int_eq, coppercomm_connection,
  serial_connection_error, os_error, ◌<>◌, [], ◌∷◌, some, none, Act, ok, pure, raise, gets, ◌>>=◌,
}
use coppercomm.Host.{Host, Completion, completed, expired, unstartable}

module _ (H : Host) (exists : String → H.State → Bool) (has_lsof : H.State → Bool) where
  -- The exit code of `lsof -t ...`: -1 when the time is up.
  abbrev pub lsof_code : Completion → Act H.State ℤ
  lsof_code (completed text code) = pure code
  lsof_code expired = pure (negsuc 0)
  lsof_code unstartable = raise os_error

  -- Only the exit code 0 tells of a process that has the port open.
  abbrev pub judge_code : ℤ → Act H.State (Unit {0})
  judge_code returncode =
      if int_eq returncode (pos 1)
      then pure tt
      else (if not (int_eq returncode (pos 0)) then pure tt else raise serial_connection_error)

  -- With `shell=True` the command is run by `sh -c`.
  unfoldable pub check_connection_address : String → Act H.State (Unit {0})
  check_connection_address connection_address = gets (exists connection_address) >>= λ there.
      if not there
      then raise coppercomm_connection
      else (gets has_lsof >>= λ found.
          if not found
          then pure tt
          else ((λ s.
                let (c, s') =
                  H.run ("sh" ∷ "-c" ∷ ("lsof -t " <> connection_address) ∷ []) (some 5000) none
                    s in
                (ok c, s'))
              >>= lsof_code
              >>= judge_code))
