-- ===== src/Adb/Server/Ends.antt =====
-- `restart_server` comes to an end once the system lets go of the server's port.
use coppercomm.Prelude.{
  ℕ, zero, suc, ◌+◌, ◌≤◌, ◌<◌, ◌≡◌, refl, sym, ap, ◌∙◌, subst, ◌≢◌, inl, inr, String, Bool, true,
  false, Option, none, some, List, [], ◌∷◌, ◌++◌, arith, ℤ, pos, int_eq_iff, occurs_in, Act, Result,
  ok, raised, no_fuel, continue, Bool-cases,
}
use coppercomm.Host.{Host, IsLawful, Completion, completed, expired, unstartable}
use coppercomm.Loops.Total.{Terminates, Terminates-bind, Terminates-try, Terminates-pure}
use coppercomm.LocalConsole.{line, command_words, execute_words}
use coppercomm.LocalConsole.Outcomes.{verdict, execute_words-verdict}
use coppercomm.Shlex.{shlex_split}
use coppercomm.Adb.{Session, on_host, check_output, adb_defaults}
use coppercomm.Adb.Ends.{host_time, sleep-Terminates, check_output-Terminates}
use coppercomm.Adb.Server.{
  kill_server, start_server, list_sockets, captured, await_port, restart_server, is_command_failed,
}

abbrev pub shows_port : String → Bool
shows_port sockets = occurs_in "127.0.0.1:5037" sockets

module _ (H : Host) where
  abbrev pub socket_list : H.State → Completion × H.State
  socket_list = H.capture ("ss" ∷ "-tl" ∷ [])

  -- What the code relies on: once an `adb kill-server` has succeeded, and until another command of
  -- `adb` runs, the system shows the port of the killed server in fewer than `fuel` listings. It
  -- says nothing of a server that was not killed. `listings_left` is the number of those to come.
  pub record ReleasesPort (fuel : ℕ) : Type 1 where
    pub Killed : H.State → Type 0
    pub listings_left : H.State → ℕ
    pub after_kill :
        (adb_cmd : List String) (limit : Option ℕ) (cwd : Option String) (s : H.State)
        (output : String)
        → (H.run (adb_cmd ++ ("kill-server" ∷ [])) limit cwd s).0 ≡ completed output (pos 0)
        → Killed (H.run (adb_cmd ++ ("kill-server" ∷ [])) limit cwd s).1
    pub below : (s : H.State) → Killed s → listings_left s < fuel
    pub after_sleep :
        (s : H.State)
        → Killed s
        → Killed (H.sleep 1 s) × (listings_left (H.sleep 1 s) ≤ listings_left s)
    pub after_listing : (s : H.State) → Killed s → Killed (socket_list s).1
    pub falls :
        (s : H.State) (sockets : String) (code : ℤ)
        → Killed s
        → (socket_list s).0 ≡ completed sockets code
        → shows_port sockets ≡ true
        → listings_left (socket_list s).1 < listings_left s

module _ (H : Host) (L : IsLawful H) where
  captured-ends :
      (c : Completion) (s : H.State)
      → ((captured H (c, s)).0 ≢ no_fuel) × (H.time s ≤ H.time (captured H (c, s)).1)
  captured-ends (completed output code) s = (λ h. ground arith, omega arith)
  captured-ends expired s = (λ h. cc, omega arith)
  captured-ends unstartable s = (λ h. cc, omega arith)

  list_sockets-Terminates : Terminates (host_time H L) (list_sockets H)
  unfolding list_sockets
  list_sockets-Terminates = record {
    ends = λ s. let (c, h) = socket_list H s.host in (captured-ends c h).0;
    later = λ s.
        let (c, h) = socket_list H s.host in
        omega (arith, (captured-ends c h).1, L.time-capture ("ss" ∷ "-tl" ∷ []) s.host);
  }

  kill_server-Terminates : Terminates (host_time H L) (kill_server H)
  unfolding kill_server
  kill_server-Terminates = check_output-Terminates H L false (line "kill-server") adb_defaults

  pub start_server-Terminates : Terminates (host_time H L) (start_server H)
  unfolding start_server
  start_server-Terminates =
      let start = check_output-Terminates H L false (line "start-server") adb_defaults in
      Terminates-try _ is_command_failed _ start
        (λ _. Terminates-bind _ _ (sleep-Terminates H L 2000) (λ _. start))

  -- A call that began at the time `t` has come to an end.
  abbrev Ended : {A : Type 0} → ℕ → Result A × Session H → Type 0
  Ended t x = (x.0 ≢ no_fuel) × (t ≤ H.time x.1.host)

  Ended-continue :
      {A B : Type 0} (f : A → Act (Session H) B) (t : ℕ) (x : Result A × Session H)
      → Ended t x
      → ((a : A) (s : Session H) → x ≡ (ok a, s) → t ≤ H.time s.host → Ended t (f a s))
      → Ended t (continue f x)
  Ended-continue f t (ok a, s) e then = then a s refl e.1
  Ended-continue f t (raised x, s) e then = (λ h. cc, e.1)
  Ended-continue f t (no_fuel, s) e then = absurd (e.0 refl)

  Ended-Terminates :
      {A : Type 0} (m : Act (Session H) A) (t : ℕ) (s : Session H)
      → Terminates (host_time H L) m
      → t ≤ H.time s.host
      → Ended t (m s)
  Ended-Terminates m t s tm le = (tm.ends s, omega (arith, le, tm.later s))

  -- The command that `kill_server` runs.
  kill_server-runs :
      (s : Session H)
      → kill_server H s
        ≡ on_host H (execute_words H (s.adb.adb_cmd ++ ("kill-server" ∷ [])) adb_defaults) s
  unfolding kill_server check_output command_words shlex_split
  kill_server-runs s = refl

  verdict-succeeded :
      (c : Completion) (text : String)
      → verdict H adb_defaults c ≡ ok text
      → (output : String) × (c ≡ completed output (pos 0))
  verdict-succeeded (completed output code) text h =
      (output, ap (completed output) ((int_eq_iff code (pos 0)).0 (ground arith)))
  verdict-succeeded expired text h = cc
  verdict-succeeded unstartable text h = cc

  abbrev killing : Session H → Completion × H.State
  killing s = H.run (s.adb.adb_cmd ++ ("kill-server" ∷ [])) (some 30000) none s.host

  kill_server-verdict :
      (s : Session H)
      → kill_server H s ≡ (verdict H adb_defaults (killing s).0, record s { host = (killing s).1 })
  kill_server-verdict s =
      kill_server-runs s
      ∙ ap (λ x. (x.0, record s { host = x.1 }))
          (execute_words-verdict H (s.adb.adb_cmd ++ ("kill-server" ∷ [])) adb_defaults s.host)

  -- A listing that is returned was given by the system, and what it left is the state.
  captured-listed :
      (x : Completion × H.State) (s s' : Session H) (sockets : String)
      → (let (r, h) = captured H x in
          ◌≡◌ {A = Result String × Session H} (r, record s { host = h }) (ok sockets, s'))
      → (code : ℤ) × (x.0 ≡ completed sockets code) × (x.1 ≡ s'.host)
  captured-listed (completed output code, h) s s' sockets e =
      (code, ground arith, ap (λ x. x.1.host) e)
  captured-listed (expired, h) s s' sockets e = cc
  captured-listed (unstartable, h) s s' sockets e = cc

  module _ {fuel : ℕ} (R : ReleasesPort H fuel) where
    open R use {Killed, listings_left, after_kill, below, after_sleep, after_listing, falls}

    kill_server-Killed :
        (s : Session H) (text : String) (s' : Session H)
        → kill_server H s ≡ (ok text, s')
        → Killed s'.host
    kill_server-Killed s text s' e =
        let told = sym (kill_server-verdict s) ∙ e in
        let (output, success) = verdict-succeeded (killing s).0 text (ap (λ x. x.0) told) in
        subst Killed (ap (λ x. x.1.host) told)
          (after_kill s.adb.adb_cmd (some 30000) none s.host output success)

    -- With the port shown, one more round than there are listings left is enough; with the port
    -- gone, one is.
    abbrev Enough : ℕ → String → H.State → Type 0
    Enough n sockets s = (0 < n) × (shows_port sockets ≡ true → listings_left s + 2 ≤ n)

    -- A listing after the kill leaves the server killed, and fewer listings with its port to come.
    list_sockets-Killed :
        (s s' : Session H) (sockets : String)
        → Killed s.host
        → list_sockets H s ≡ (ok sockets, s')
        → Killed s'.host
          × (shows_port sockets ≡ true → listings_left s'.host < listings_left s.host)
    unfolding list_sockets
    list_sockets-Killed s s' sockets killed e =
        let (code, listed, same) = captured-listed (socket_list H s.host) s s' sockets e in
        (
          subst Killed same (after_listing s.host killed),
          λ shown.
              subst (λ h. listings_left h < listings_left s.host) same
                (falls s.host sockets code killed listed shown),
        )

    await_port-Ended :
        (n : ℕ) (sockets : String) (s : Session H)
        → Killed s.host
        → Enough n sockets s.host
        → Ended (H.time s.host) (await_port H n sockets s)
    unfolding await_port
    await_port-Ended zero sockets s killed h = absurd (omega arith)
    await_port-Ended (suc n) sockets s killed h = elim (Bool-cases (shows_port sockets)) [
      | inl shown ↦
          let s1 : Session H = record s { host = H.sleep 1 s.host } in
          let (killed1, left1) = after_sleep s.host killed in
          let later = L.time-sleep 1 s.host in
          rw (shown, await_port)
            (Ended-continue (await_port H n) (H.time s.host) (list_sockets H s1)
              (Ended-Terminates (list_sockets H) (H.time s.host) s1 list_sockets-Terminates
                (omega (arith, later)))
              λ next s2 e le.
                let (killed2, fewer) = list_sockets-Killed s1 s2 next killed1 e in
                let ended = await_port-Ended n next s2 killed2 (
                  omega (arith, h.1 shown),
                  λ again. omega (arith, h.1 shown, fewer again, left1),
                ) in
                (ended.0, omega (arith, ended.1, le)))
      | inr gone ↦ rw (gone, await_port) (λ e. cc, omega arith)
    ]

    restart_server-Ended : (s : Session H) → Ended (H.time s.host) (restart_server H fuel s)
    unfolding restart_server
    restart_server-Ended s =
        Ended-continue _ (H.time s.host) (kill_server H s)
          (kill_server-Terminates.ends s, kill_server-Terminates.later s)
          λ text s1 killing_told le1.
            let killed = kill_server-Killed s text s1 killing_told in
            Ended-continue _ (H.time s.host) (list_sockets H s1)
              (Ended-Terminates (list_sockets H) (H.time s.host) s1 list_sockets-Terminates le1)
              λ sockets s2 listed le2.
                let (killed2, fewer) = list_sockets-Killed s1 s2 sockets killed listed in
                let low = below s1.host killed in
                let ended =
                  await_port-Ended fuel sockets s2 killed2
                    (omega (arith, low), λ shown. omega (arith, low, fewer shown)) in
                Ended-continue _ (H.time s.host) (await_port H fuel sockets s2)
                  (ended.0, omega (arith, ended.1, le2))
                  λ u s3 awaited le3.
                    Ended-Terminates _ (H.time s.host) s3
                      (Terminates-bind (start_server H) _ start_server-Terminates
                        (λ _. Terminates-pure tt))
                      le3

    -- `restart_server` ends, by a return or by an exception, if the socket of a server that `adb
    -- kill-server` has killed disappears from the listings of `ss` within the fuel, time does not
    -- run backwards, a clock shows it and a sleep lasts as long as asked.
    pub restart_server-Terminates : Terminates (host_time H L) (restart_server H fuel)
    restart_server-Terminates = record {
      ends = λ s. (restart_server-Ended s).0;
      later = λ s. (restart_server-Ended s).1;
    }
