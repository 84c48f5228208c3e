-- ===== src/Ssh/Copy/Steps.antt =====
-- What the calls of an SFTP client, one after another, make of the remote host.
use coppercomm.Prelude.{
  ℕ, ◌≡◌, refl, sym, ap, ◌∙◌, subst, String, inl, inr, Bool-cases, Option, none, some, [], ◌∷◌,
  ◌++◌, if◌then◌else◌, Act, Result, ok, raised, no_fuel, pure, handle, continue, ◌>>=◌,
}
use coppercomm.Loops.Results.{After}
use coppercomm.Ssh.{Raises, outcome}
use coppercomm.Ssh.Copy.{
  PathParts, Sftp, Entries, nothing, file, directory, special, is_io_error, permissions, put_file,
  ensure_dir, put_entries, put_directory,
}
use coppercomm.Ssh.Copy.Tree.{Node, holding, merged, same_path, same_path_sound, effect}

-- What stands at the paths of the remote host changes by `f`.
abbrev pub Becomes :
    {S : Type 0} → (S → PathParts → Node) → (PathParts → Node → Node) → S → S → Type 0
Becomes look f s s' = (path : PathParts) → look s' path ≡ f path (look s path)

abbrev pub same : PathParts → Node → Node
same path old = old

abbrev pub put_at : PathParts → String → PathParts → Node → Node
put_at dest content path old = if same_path path dest then holding content else old

abbrev pub made_at : PathParts → PathParts → Node → Node
made_at dest path old = if same_path path dest then merged old else old

-- A call that returned changed the remote host by `f`.
abbrev pub Returning :
    {S : Type 0} → (S → PathParts → Node) → (PathParts → Node → Node) → S → Raises × S → Type 0
Returning look f s (none, s') = Becomes look f s s'
Returning look f s (some e, s') = Unit

-- An `lstat` changes nothing, and tells what is there from what is not.
abbrev pub Probed : {S : Type 0} → (S → PathParts → Node) → PathParts → S → Raises × S → Type 0
Probed look dest s (none, s') = Becomes look same s s' × (merged (look s dest) ≡ look s dest)
Probed look dest s (some e, s') = Becomes look same s s'

-- What the code relies on: when they return, `put` has stored the bytes at its path, `mkdir` has
-- made a directory where there was nothing, `chmod` has changed no contents, and nothing else has
-- changed.
pub record IsFaithful {S : Type 0} (F : Sftp S) (look : S → PathParts → Node) : Type 0 where
  pub after_put :
      (content : String) (dest : PathParts) (s : S)
      → Returning look (put_at dest content) s (F.put content dest s)
  pub after_chmod :
      (dest : PathParts) (mode : ℕ) (s : S) → Returning look same s (F.chmod dest mode s)
  pub after_lstat : (dest : PathParts) (s : S) → Probed look dest s (F.lstat dest s)
  pub after_mkdir : (dest : PathParts) (s : S) → Returning look (made_at dest) s (F.mkdir dest s)

module _ {S : Type 0} (F : Sftp S) (look : S → PathParts → Node) (L : IsFaithful F look) where
  pub record Changes {A : Type 0} (m : Act S A) (f : PathParts → Node → Node) : Type 0 where
    pub at : (s : S) → After (λ _ s'. Becomes look f s s') (m s)

  Changes-pure : {A : Type 0} (a : A) → Changes (pure a) same
  Changes-pure a = record { at = λ s path. refl }

  continue-Changes :
      {A B : Type 0} (k : A → Act S B) (f g : PathParts → Node → Node) (s : S)
      → ((a : A) → Changes (k a) g)
      → (r : Result A) (s' : S) → After (λ _ s'. Becomes look f s s') (r, s')
      → After (λ _ s''. Becomes look (λ path old. g path (f path old)) s s'') (continue k (r, s'))
  continue-Changes {A} {B} k f g s ck (ok a) s' h = moved (k a s').0 (k a s').1 ((ck a).at s')
    where
      moved :
          (r : Result B) (s'' : S)
          → After (λ _ t. Becomes look g s' t) (r, s'')
          → After (λ _ t. Becomes look (λ path old. g path (f path old)) s t) (r, s'')
      moved (ok b) s'' c = λ path. c path ∙ ap (g path) (h path)
      moved (raised e) s'' c = tt
      moved no_fuel s'' c = tt
  continue-Changes k f g s ck (raised e) s' h = tt
  continue-Changes k f g s ck no_fuel s' h = tt

  Changes-bind :
      {A B : Type 0} (m : Act S A) (k : A → Act S B) (f g : PathParts → Node → Node)
      → Changes m f
      → ((a : A) → Changes (k a) g)
      → Changes (m >>= k) (λ path old. g path (f path old))
  Changes-bind m k f g cm ck = record {
    at = λ s. continue-Changes k f g s ck (m s).0 (m s).1 (cm.at s);
  }

  Changes-call :
      (call : S → Raises × S) (f : PathParts → Node → Node)
      → ((s : S) → Returning look f s (call s))
      → Changes (λ s. outcome (call s)) f
  Changes-call call f h = record { at = λ s. told s (call s).0 (call s).1 (h s) }
    where
      told :
          (s : S) (r : Raises) (s' : S)
          → Returning look f s (r, s')
          → After (λ _ t. Becomes look f s t) (outcome (r, s'))
      told s none s' b = b
      told s (some e) s' b = tt

  put_file-Changes :
      (content : String) (mode : ℕ) (dest : PathParts) (chmod : Option ℕ)
      → Changes (put_file F content mode dest chmod) (put_at dest content)
  unfolding put_file
  put_file-Changes content mode dest chmod =
      Changes-bind _ _ (put_at dest content) same
        (Changes-call (F.put content dest) _ (L.after_put content dest))
        λ _.
          Changes-call (F.chmod dest (permissions chmod mode)) same
            (L.after_chmod dest (permissions chmod mode))

  -- There is something at `dest`, so that asking for a directory there changes nothing.
  stays :
      (dest : PathParts) (s s' : S)
      → Becomes look same s s'
      → merged (look s dest) ≡ look s dest
      → Becomes look (made_at dest) s s'
  stays dest s s' b there path = elim (Bool-cases (same_path path dest)) [
    | inl here ↦ rw here (
        b path
        ∙ sym (
            subst (λ p. merged (look s p) ≡ look s p) (sym (same_path_sound path dest here)) there))
    | inr other ↦ rw other (b path)
  ]

  ensured :
      (dest : PathParts) (s : S) (r : Raises) (s' : S)
      → Probed look dest s (r, s')
      → After
          (λ _ t. Becomes look (made_at dest) s t)
          (handle is_io_error (λ _ t. outcome (F.mkdir dest t)) (outcome (r, s')))
  ensured dest s none s' (b, there) = stays dest s s' b there
  ensured dest s (some e) s' b = elim (Bool-cases (is_io_error e)) [
    | inl missing ↦
        rw missing (made (F.mkdir dest s').0 (F.mkdir dest s').1 (L.after_mkdir dest s'))
    | inr other ↦ rw other tt
  ]
    where
      made :
          (r : Raises) (t : S)
          → Returning look (made_at dest) s' (r, t)
          → After (λ _ t. Becomes look (made_at dest) s t) (outcome (r, t))
      made none t m = λ path. m path ∙ ap (made_at dest path) (b path)
      made (some e) t m = tt

  ensure_dir-Changes : (dest : PathParts) → Changes (ensure_dir F dest) (made_at dest)
  unfolding ensure_dir
  ensure_dir-Changes dest = record {
    at = λ s. ensured dest s (F.lstat dest s).0 (F.lstat dest s).1 (L.after_lstat dest s);
  }

  chmod-Changes : (dest : PathParts) (mode : ℕ) → Changes (λ s. outcome (F.chmod dest mode s)) same
  chmod-Changes dest mode = Changes-call (F.chmod dest mode) same (L.after_chmod dest mode)

  pub put_entries-Changes :
      (entries : Entries) (under : PathParts) (chmod : Option ℕ)
      → Changes (put_entries F entries under chmod) (effect entries under)
  unfolding put_entries effect
  put_entries-Changes nothing under chmod = Changes-pure tt
  put_entries-Changes (file name content mode rest) under chmod =
      Changes-bind _ _ (put_at (under ++ (name ∷ [])) content) (effect rest under)
        (put_file-Changes content mode (under ++ (name ∷ [])) chmod)
        λ _. put_entries-Changes rest under chmod
  put_entries-Changes (directory name mode sub rest) under chmod =
      let dest = under ++ (name ∷ []) in
      Changes-bind _ _ (made_at dest) _ (ensure_dir-Changes dest) λ _.
        Changes-bind _ _ (effect sub dest) (effect rest under) (put_entries-Changes sub dest none)
          λ _.
            Changes-bind _ _ same (effect rest under) (chmod-Changes dest (permissions chmod mode))
              λ _. put_entries-Changes rest under chmod
  put_entries-Changes (special name rest) under chmod = put_entries-Changes rest under chmod

  pub put_directory-Changes :
      (name : String) (mode : ℕ) (entries : Entries) (remote_dir : PathParts) (chmod : Option ℕ)
      → Changes
          (put_directory F name mode entries remote_dir chmod)
          (effect (directory name mode entries nothing) remote_dir)
  unfolding put_directory effect
  put_directory-Changes name mode entries remote_dir chmod =
      let dest = remote_dir ++ (name ∷ []) in
      Changes-bind _ _ (made_at dest) _ (ensure_dir-Changes dest) λ _.
        Changes-bind _ _ (effect entries dest) same (put_entries-Changes entries dest chmod)
          λ _. chmod-Changes dest (permissions chmod mode)
