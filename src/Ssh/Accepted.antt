-- ===== src/Ssh/Accepted.antt =====
-- What a command over the connection returns.
use coppercomm.Prelude.{
  ◌||◌, ℕ, zero, suc, ◌≡◌, refl, arith, ltb, String, Bool, true, false, ◌&&◌, not, Option, none,
  some, if◌then◌else◌, inl, inr, Bool-cases, ℤ, pos, int_eq, Error, value_error, name_error, Act,
  Result, ok, raised, no_fuel, raise, ◌>>=◌,
}
use coppercomm.Loops.Results.{
  After, Ensures, Ensures-bind, Ensures-last, Ensures-try, Ensures-Returned, Returned,
}
use coppercomm.Ssh.{Client, Connection, without_mutex, connect, disconnect, is_ssh_exception}
use coppercomm.Ssh.Command.{
  is_exit_status_ready, exit_status, check_status, without_status, collect_status, execute_once,
  attempts, execute_cmd,
}

module _ (C : Client) where
  -- There is no time limit and no exit code, or the channel has just told an exit code, which is 0
  -- if the caller wants it handled.
  abbrev pub Accepted : Bool → Option ℕ → Option ℤ → C.State → Type 0
  Accepted handle_return_code limit none s = limit ≡ none
  Accepted handle_return_code limit (some code) s =
      Returned (exit_status C) code s × ((not handle_return_code || int_eq code (pos 0)) ≡ true)

  check_status-Accepted :
      (handle_return_code : Bool) (limit : Option ℕ) (code : ℤ) (s : C.State)
      → Returned (exit_status C) code s
      → After (Accepted handle_return_code limit) (check_status C handle_return_code code s)
  check_status-Accepted handle_return_code limit code s told =
      elim (Bool-cases (not (int_eq code (pos 0)) && handle_return_code)) [
        | inl bad ↦ rw bad tt
        | inr fine ↦ rw fine (told, settled fine)
      ]
    where
      settled :
          not (int_eq code (pos 0)) && handle_return_code ≡ false
          → (not handle_return_code || int_eq code (pos 0)) ≡ true
      settled fine = ground arith

  without_status-Accepted :
      (handle_return_code : Bool) (limit : Option ℕ)
      → Ensures (without_status C limit) (Accepted handle_return_code limit)
  without_status-Accepted handle_return_code none = record { at = λ s. refl }
  without_status-Accepted handle_return_code (some t) = record { at = λ s. tt }

  collect_status-Accepted :
      (fuel : ℕ) (handle_return_code : Bool) (limit : Option ℕ)
      → Ensures (collect_status C fuel handle_return_code limit) (Accepted handle_return_code limit)
  unfolding collect_status
  collect_status-Accepted fuel handle_return_code limit =
      Ensures-last (Accepted handle_return_code limit) (is_exit_status_ready C fuel limit) _
        collected
    where
      collected :
          (ready : Bool)
          → Ensures
              (if ready
                then (exit_status C >>= check_status C handle_return_code)
                else without_status C limit)
              (Accepted handle_return_code limit)
      collected true =
          Ensures-bind (Returned (exit_status C)) (Accepted handle_return_code limit)
            (exit_status C) (check_status C handle_return_code) (Ensures-Returned (exit_status C))
            (check_status-Accepted handle_return_code limit)
      collected false = without_status-Accepted handle_return_code limit

  -- The same of a call on the connection.
  abbrev pub Answered : Bool → Option ℕ → Option ℤ → Connection C → Type 0
  Answered handle_return_code limit r c = Accepted handle_return_code limit r c.client

  without_mutex-After :
      {A : Type 0} (Q : A → C.State → Type 0) (m : Act C.State A)
      → Ensures m Q
      → Ensures (without_mutex C m) (λ a c. Q a c.client)
  without_mutex-After {A} Q m em = record {
    at = λ c. kept c (m c.client).0 (m c.client).1 (em.at c.client);
  }
    where
      kept :
          (c : Connection C) (r : Result A) (s : C.State)
          → After Q (r, s)
          → After {S = Connection C} (λ a c'. Q a c'.client) (r, record c { client = s })
      kept c (ok a) s q = q
      kept c (raised e) s q = tt
      kept c no_fuel s q = tt

  execute_once-Answered :
      (fuel : ℕ) (command : String) (handle_return_code : Bool) (limit : Option ℕ)
      (open_channel_timeout : ℕ)
      → Ensures
          (execute_once C fuel command handle_return_code limit open_channel_timeout)
          (Answered handle_return_code limit)
  unfolding execute_once
  execute_once-Answered fuel command handle_return_code limit open_channel_timeout =
      Ensures-last (Answered handle_return_code limit) _ _ λ _.
        without_mutex-After (Accepted handle_return_code limit)
          (collect_status C fuel handle_return_code limit)
          (collect_status-Accepted fuel handle_return_code limit)

  attempts-Ensures :
      {A : Type 0} (Q : A → Connection C → Type 0) (tries : ℕ) (last_e : Error)
      (call : Act (Connection C) A)
      → Ensures call Q
      → Ensures (attempts C tries last_e call) Q
  unfolding attempts
  attempts-Ensures Q zero last_e call ec = record { at = λ c. tt }
  attempts-Ensures Q (suc tries) last_e call ec =
      Ensures-try Q call is_ssh_exception _ ec
        λ e. Ensures-last Q (disconnect C) _ λ _. attempts-Ensures Q tries e call ec

  -- When `execute_cmd` returns, at whichever attempt, it returns the exit code that the channel has
  -- just told, which is 0 if the caller wants it handled; it returns none only if the caller set no
  -- time limit.
  pub execute_cmd-Answered :
      (fuel : ℕ) (command : String) (handle_return_code : Bool) (command_exec_timeout : Option ℕ)
      (tries open_channel_timeout connect_timeout : ℕ)
      → Ensures
          (execute_cmd C fuel command handle_return_code command_exec_timeout tries
            open_channel_timeout connect_timeout)
          (Answered handle_return_code command_exec_timeout)
  unfolding execute_cmd
  execute_cmd-Answered fuel command handle_return_code command_exec_timeout tries
        open_channel_timeout connect_timeout =
      started (ltb tries 1)
    where
      call : Act (Connection C) (Option ℤ)
      call = connect C fuel connect_timeout 5000 (some 5) 2000 >>= λ _.
          execute_once C fuel command handle_return_code command_exec_timeout open_channel_timeout

      started :
          (b : Bool)
          → Ensures
              (if b then raise value_error else attempts C tries name_error call)
              (Answered handle_return_code command_exec_timeout)
      started true = record { at = λ c. tt }
      started false =
          attempts-Ensures (Answered handle_return_code command_exec_timeout) tries name_error call
            (Ensures-last (Answered handle_return_code command_exec_timeout)
              (connect C fuel connect_timeout 5000 (some 5) 2000) _
              λ _.
                execute_once-Answered fuel command handle_return_code command_exec_timeout
                  open_channel_timeout)
