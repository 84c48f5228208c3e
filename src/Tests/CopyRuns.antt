-- ===== src/Tests/CopyRuns.antt =====
-- Copies to a remote host that is a map from paths to what stands there, and the theorems at
-- concrete inputs.
use coppercomm.Prelude.{
  Bool, Result, ap, if◌then◌else◌, false, ℕ, String, ◌<◌, ◌≢◌, ◌++◌, arith, no_fuel, ◌≡◌, refl, inl,
  inr, ◌⊎◌, true, none, some, [], ◌∷◌, if◌then◌else◌, os_error, ok,
}
use coppercomm.Loops.Results.{After}
use coppercomm.Ssh.{Raises}
use coppercomm.Ssh.Copy.{PathParts, Sftp, Entries, nothing, file, directory, special, put_directory}
use coppercomm.Ssh.Copy.Tree.{overlay, Node, absent, holding, folder, same_path}
use coppercomm.Ssh.Copy.Steps.{Becomes, Probed, IsFaithful, put_at, made_at}
use coppercomm.Ssh.Copy.Overlay.{put_directory-overlay}
use coppercomm.Ssh.Fetch.Ends.{IsShallow, get_matching-Ends}
use coppercomm.Ssh.Fetch.{is_dir_mode, get_matching}

abbrev Remote : Type 0
Remote = PathParts → Node

abbrev missing : Node → Raises
missing absent = some os_error
missing _ = none

abbrev bench_sftp : Sftp Remote
bench_sftp = record {
  from_transport = λ s. (true, s);
  close_sftp = λ s. s;
  put = λ content dest s. (none, λ path. put_at dest content path (s path));
  chmod = λ dest mode s. (none, s);
  lstat = λ dest s. (missing (s dest), s);
  mkdir = λ dest s. (none, λ path. made_at dest path (s path));
  st_mode = λ path s. (ok (if same_path path ("etc" ∷ []) then 16877 else 33188), s);
  listdir = λ path s. (ok (if same_path path [] then "etc" ∷ "hosts" ∷ [] else "conf" ∷ []), s);
  get = λ remote local s. (none, λ path. put_at local "got" path (s path));
  make_dirs = λ path s. (none, s);
}

probed :
    (dest : PathParts) (s : Remote) (n : Node) → s dest ≡ n → Probed (λ s. s) dest s (missing n, s)
probed dest s absent e = λ path. refl
probed dest s (holding content) e = (λ path. refl, rw e refl)
probed dest s folder e = (λ path. refl, rw e refl)

bench_sftp-IsFaithful : IsFaithful bench_sftp (λ s. s)
bench_sftp-IsFaithful = record {
  after_put = λ content dest s path. refl;
  after_chmod = λ dest mode s path. refl;
  after_lstat = λ dest s. probed dest s (s dest) refl;
  after_mkdir = λ dest s path. refl;
}

missing-cases : (n : Node) → (missing n ≡ none) ⊎ (missing n ≡ some os_error)
missing-cases absent = inr refl
missing-cases (holding content) = inl refl
missing-cases folder = inl refl

-- conf/{a.txt, sub/b.txt, a socket}
abbrev conf : Entries
conf =
    file "a.txt" "A" 33188
      (directory "sub" 16877 (file "b.txt" "B" 33188 nothing) (special "socket" nothing))

abbrev empty : Remote
empty path = absent

put_directory_writes :
    (put_directory bench_sftp "conf" 16877 conf ("etc" ∷ []) none empty).1
      ("etc" ∷ "conf" ∷ "sub" ∷ "b.txt" ∷ [])
    ≡ holding "B"
unfolding put_directory
put_directory_writes = refl

get_matching_reads :
    (get_matching bench_sftp (λ name pattern. true) 3 [] "*" ("tmp" ∷ []) empty).1
      ("tmp" ∷ "etc" ∷ "conf" ∷ [])
    ≡ holding "got"
unfolding get_matching
get_matching_reads = refl

put_directory-overlay_example :
    After
      (λ _ s'.
        Becomes (λ s. s) (overlay (directory "conf" 16877 conf nothing) ("etc" ∷ [])) empty s')
      (put_directory bench_sftp "conf" 16877 conf ("etc" ∷ []) none empty)
put_directory-overlay_example =
    put_directory-overlay bench_sftp (λ s. s) bench_sftp-IsFaithful "conf" 16877 conf ("etc" ∷ [])
      none empty ((refl, (refl, tt)), ((refl, tt), (tt, tt), (tt, tt)))

overlay_merges :
    (overlay conf [] ("sub" ∷ []) absent ≡ folder)
    × (overlay conf [] ("a.txt" ∷ []) (holding "old") ≡ holding "A")
    × (overlay conf [] ("socket" ∷ []) absent ≡ absent)
unfolding overlay
overlay_merges = (refl, refl, refl)

-- The remote host has one directory, /etc.
abbrev bench_depth : PathParts → ℕ
bench_depth [] = 2
bench_depth (part ∷ path) = 1

not_etc :
    (part : String) (path : PathParts) (name : String)
    → same_path (part ∷ (path ++ (name ∷ []))) ("etc" ∷ []) ≡ false
not_etc part [] name = ground arith
not_etc part (x ∷ path) name = ground arith

no_directory :
    (b : Bool) (mode : ℕ)
    → ◌≡◌ {A = Result ℕ} (ok (if b then 16877 else 33188)) (ok mode)
    → b ≡ false
    → is_dir_mode mode ≡ true
    → ⊥
unfolding is_dir_mode
no_directory true mode told off is_directory = cc
no_directory false mode told off is_directory =
    let plain : 33188 ≡ mode = cc in let seen = ap is_dir_mode plain in cc

bench_deeper :
    (parent : PathParts) (name : String) (mode : ℕ) (s : Remote)
    → (bench_sftp.st_mode (parent ++ (name ∷ [])) s).0 ≡ ok mode
    → is_dir_mode mode ≡ true
    → bench_depth (parent ++ (name ∷ [])) < bench_depth parent
unfolding is_dir_mode
bench_deeper [] name mode s told is_directory = omega arith
bench_deeper (part ∷ path) name mode s told is_directory =
    absurd (no_directory _ mode told (not_etc part path name) is_directory)

bench_sftp-IsShallow : IsShallow bench_sftp bench_depth
bench_sftp-IsShallow = record {
  stats = λ path s e. cc;
  lists = λ path s e. cc;
  deeper = bench_deeper;
}

get_matching-Ends_example :
    (get_matching bench_sftp (λ name pattern. true) 3 [] "*" ("tmp" ∷ []) empty).0 ≢ no_fuel
get_matching-Ends_example =
    get_matching-Ends bench_sftp (λ name pattern. true) bench_depth bench_sftp-IsShallow 3 [] "*"
      ("tmp" ∷ []) empty (omega arith)
