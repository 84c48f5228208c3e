-- ===== src/Tests/Bench.antt =====
-- A host that plays back the outcomes of processes, one after another, and logs their commands.
-- A process takes a millisecond.
use coppercomm.Prelude.{
  ℕ, zero, suc, ◌+◌, ◌≤◌, ◌<◌, ◌≡◌, refl, ap, subst, String, Bool, true, false, none, some, List,
  [], ◌∷◌, ◌++◌, pos, arith, str_eq, occurs_in, not, if◌then◌else◌, contains, int_eq,
}
use coppercomm.Host.{Host, IsLawful, Completion, completed, expired, unstartable}
use coppercomm.Adb.{Session}
use coppercomm.Adb.Server.Ends.{ReleasesPort}
use coppercomm.Serial.Indices.{contains-last}

-- The server of `adb`: it runs until it is killed, and then the system shows its port in as many
-- listings more.
pub data Server : Type 0 where
  running : Server
  released : ℕ → Server

pub record Playback : Type 0 where
  pub server : Server
  pub clock : ℕ
  pub replies : List Completion
  pub ran : List (List String)

abbrev next_reply : List Completion → Completion
next_reply [] = unstartable
next_reply (c ∷ cs) = c

abbrev later_replies : List Completion → List Completion
later_replies [] = []
later_replies (c ∷ cs) = cs

-- `adb kill-server`, when it succeeds, kills the server; any other command starts it.
abbrev kills : List String → Bool
kills argv = contains argv "kill-server"

abbrev succeeds : Completion → Bool
succeeds (completed output code) = int_eq code (pos 0)
succeeds expired = false
succeeds unstartable = false

abbrev server_after : List String → Completion → Server → Server
server_after argv c s = if kills argv then if succeeds c then released 2 else s else running

abbrev port_line : String
port_line = "LISTEN 0 128 127.0.0.1:5037 0.0.0.0:*"

abbrev listing : Server → String × Server
listing running = (port_line, running)
listing (released zero) = ("", released 0)
listing (released (suc n)) = (port_line, released n)

abbrev play : List String → Playback → Completion × Playback
play argv p = (
  next_reply p.replies,
  record {
    server = server_after argv (next_reply p.replies) p.server;
    clock = p.clock + 1;
    replies = later_replies p.replies;
    ran = p.ran ++ (argv ∷ []);
  },
)

abbrev pub bench : Host
bench = record {
  State = Playback;
  run = λ argv limit cwd p. play argv p;
  capture = λ argv p.
      let (sockets, server) = listing p.server in
      (completed sockets (pos 0), record p { clock = p.clock + 1; server = server });
  clock = λ p. (p.clock, p);
  sleep = λ d p. record p { clock = p.clock + d };
  compiles = λ pattern. not (str_eq pattern "(");
  search = λ pattern text. if str_eq pattern text then some text else none;
  glob = λ path p. path ∷ [];
  expand_user = λ path p. path;
  expand_vars = λ path p. path;
  is_dir = λ path p. false;
  time = λ p. p.clock;
}

pub bench-IsLawful : IsLawful bench
bench-IsLawful = record {
  clock_shows = λ p. refl;
  time-clock = λ p. omega arith;
  time-sleep = λ d p. omega arith;
  time-run = λ argv limit cwd p. omega arith;
  time-capture = λ argv p. omega arith;
}

abbrev Down : Server → Type 0
Down running = ⊥
Down (released n) = n ≤ 2

abbrev left : Server → ℕ
left running = 0
left (released n) = n

kills-last : (words : List String) → kills (words ++ ("kill-server" ∷ [])) ≡ true
kills-last words = contains-last words "kill-server"

after_kill_server :
    (argv : List String) (c : Completion) (s : Server) (output : String)
    → kills argv ≡ true
    → c ≡ completed output (pos 0)
    → Down (server_after argv c s)
after_kill_server argv c s output k e = rw (k, e) (omega arith)

after_list : (s : Server) → Down s → Down (listing s).1
after_list running d = d
after_list (released zero) d = d
after_list (released (suc n)) d = omega (arith, d)

fewer_left :
    (s : Server) (sockets : String)
    → Down s
    → (listing s).0 ≡ sockets
    → occurs_in "127.0.0.1:5037" sockets ≡ true
    → left (listing s).1 < left s
unfolding occurs_in
fewer_left running sockets d e shown = absurd d
fewer_left (released zero) sockets d e shown =
    absurd (subst (λ text. occurs_in "127.0.0.1:5037" text ≡ true → ⊥) e (λ hidden. cc) shown)
fewer_left (released (suc n)) sockets d e shown = omega arith

Down-left : (s : Server) → Down s → left s ≤ 2
Down-left running d = absurd d
Down-left (released n) d = d

abbrev completed_text : Completion → String
completed_text (completed output code) = output
completed_text expired = ""
completed_text unstartable = ""

-- A server on the bench runs until it is killed, and its port is shown twice more.
pub bench-ReleasesPort : (fuel : ℕ) → 2 < fuel → ReleasesPort bench fuel
bench-ReleasesPort fuel enough = record {
  Killed = λ p. Down p.server;
  listings_left = λ p. left p.server;
  after_kill = λ adb_cmd limit cwd p output e.
      after_kill_server (adb_cmd ++ ("kill-server" ∷ [])) _ p.server output (kills-last adb_cmd) e;
  below = λ p d. let low = Down-left p.server d in omega arith;
  after_sleep = λ p d. (d, omega arith);
  after_listing = λ p d. after_list p.server d;
  falls = λ p sockets code d e shown. fewer_left p.server sockets d (ap completed_text e) shown;
}

abbrev pub replay : List Completion → Playback
replay replies = record { server = running; clock = 0; replies = replies; ran = [] }

abbrev pub said : String → Completion
said text = completed text (pos 0)

-- An `Adb` for the device `xyz`, on the bench.
abbrev pub session : List Completion → Session bench
session replies = record {
  adb = record { adb_device_id = some "xyz"; adb_cmd = "adb" ∷ "-s" ∷ "xyz" ∷ []; ignore_ids = [] };
  host = replay replies;
}
