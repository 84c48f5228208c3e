-- ===== src/Ssh/Fetch/Ends.antt =====
-- The recursion of `_get_all` comes to an end.
use coppercomm.Prelude.{
  ℕ, zero, suc, ◌<◌, ◌≡◌, refl, ◌≢◌, inl, inr, Bool-cases, arith, String, Bool, true, false, none,
  some, List, [], ◌∷◌, ◌++◌, if◌then◌else◌, Act, Result, ok, raised, no_fuel, pure, continue, ◌>>=◌,
}
use coppercomm.Ssh.{Raises, outcome}
use coppercomm.Ssh.Copy.{PathParts, Sftp}
use coppercomm.Ssh.Fetch.{is_dir_mode, is_dir, is_file, fetch_entry, fetch_names, get_matching}

-- Directories of the remote host stand in one another to a certain depth, and calls of the client
-- come to an end.
pub record IsShallow {S : Type 0} (F : Sftp S) (depth : PathParts → ℕ) : Type 0 where
  pub stats : (path : PathParts) (s : S) → (F.st_mode path s).0 ≢ no_fuel
  pub lists : (path : PathParts) (s : S) → (F.listdir path s).0 ≢ no_fuel
  pub deeper :
      (parent : PathParts) (name : String) (mode : ℕ) (s : S)
      → (F.st_mode (parent ++ (name ∷ [])) s).0 ≡ ok mode
      → is_dir_mode mode ≡ true
      → depth (parent ++ (name ∷ [])) < depth parent

-- Whatever the state, the call is not cut off.
abbrev pub Ends : {S A : Type 0} → Act S A → Type 0
Ends {S} m = (s : S) → (m s).0 ≢ no_fuel

module _ {S A B : Type 0} where
  continue-Ends :
      (f : A → Act S B)
      → ((a : A) → Ends (f a))
      → (r : Result A) (s : S) → r ≢ no_fuel
      → (continue f (r, s)).0 ≢ no_fuel
  continue-Ends f ef (ok a) s e = ef a s
  continue-Ends f ef (raised x) s e = λ h. cc
  continue-Ends f ef no_fuel s e = absurd (e refl)

  Ends-bind : (m : Act S A) (f : A → Act S B) → Ends m → ((a : A) → Ends (f a)) → Ends (m >>= f)
  Ends-bind m f em ef s = continue-Ends f ef (m s).0 (m s).1 (em s)

module _ {S : Type 0} where
  outcome-Ends : (r : Raises) (s : S) → (outcome (r, s)).0 ≢ no_fuel
  outcome-Ends none s e = cc
  outcome-Ends (some x) s e = cc

  Ends-if : {A : Type 0} (b : Bool) (m n : Act S A) → Ends m → Ends n → Ends (if b then m else n)
  Ends-if true m n em en = em
  Ends-if false m n em en = en

module _ {S : Type 0} (F : Sftp S) (matches : String → String → Bool) (depth : PathParts → ℕ)
    (L : IsShallow F depth) where
  is_file-Ends : (path : PathParts) → Ends (is_file F matches path)
  unfolding is_file
  is_file-Ends path = Ends-bind (F.st_mode path) _ (L.stats path) λ mode s e. cc

  -- A directory is entered only below the depth of its parent.
  entered :
      (descend : Act S (Unit {0})) (r : Result ℕ) (s : S)
      → r ≢ no_fuel
      → ((mode : ℕ) → r ≡ ok mode → is_dir_mode mode ≡ true → Ends descend)
      → (continue
          (λ a_directory. if a_directory then descend else pure tt)
          (continue (λ mode. pure (is_dir_mode mode)) (r, s))).0
        ≢ no_fuel
  entered descend (ok mode) s e h = elim (Bool-cases (is_dir_mode mode)) [
    | inl yes_dir ↦ rw yes_dir (h mode refl yes_dir s)
    | inr other ↦ rw other (λ x. cc)
  ]
  entered descend (raised x) s e h = λ y. cc
  entered descend no_fuel s e h = absurd (e refl)

  fetch_entry-Ends :
      (descend : PathParts → PathParts → Act S (Unit {0})) (parent local_dir : PathParts)
      (name : String)
      → (depth (parent ++ (name ∷ [])) < depth parent
          → Ends (descend (parent ++ (name ∷ [])) (local_dir ++ (name ∷ []))))
      → Ends (fetch_entry F matches descend parent local_dir name)
  unfolding fetch_entry is_dir
  fetch_entry-Ends descend parent local_dir name h =
      let path = parent ++ (name ∷ []) in
      Ends-bind _ _ (λ s. outcome-Ends (F.make_dirs local_dir s).0 (F.make_dirs local_dir s).1)
        λ _. Ends-bind _ _ (is_file-Ends path) λ a_file.
          Ends-if a_file _ _
            (λ s.
              outcome-Ends (F.get path (local_dir ++ (name ∷ [])) s).0
                (F.get path (local_dir ++ (name ∷ [])) s).1)
            λ s.
              entered (descend path (local_dir ++ (name ∷ []))) (F.st_mode path s).0
                (F.st_mode path s).1 (L.stats path s)
                λ mode told directory. h (L.deeper parent name mode s told directory)

  fetch_names-Ends :
      (descend : PathParts → PathParts → Act S (Unit {0})) (parent : PathParts) (pattern : String)
      (local_dir : PathParts) (names : List String)
      → ((child local : PathParts) → depth child < depth parent → Ends (descend child local))
      → Ends (fetch_names F matches descend parent pattern local_dir names)
  unfolding fetch_names
  fetch_names-Ends descend parent pattern local_dir [] h = λ s e. cc
  fetch_names-Ends descend parent pattern local_dir (name ∷ names) h =
      let rest = fetch_names-Ends descend parent pattern local_dir names h in
      Ends-if (matches name pattern) _ _
        (Ends-bind _ _
          (fetch_entry-Ends descend parent local_dir name
            (h (parent ++ (name ∷ [])) (local_dir ++ (name ∷ []))))
          λ _. rest)
        rest

  -- The recursion of `_get_all` is not cut off, whatever the remote host lists, if the fuel exceeds
  -- the depth of the directory: each directory in another has a smaller depth, and the calls of the
  -- SFTP client come to an end.
  pub get_matching-Ends :
      (fuel : ℕ) (parent : PathParts) (pattern : String) (local_dir : PathParts) (s : S)
      → depth parent < fuel
      → (get_matching F matches fuel parent pattern local_dir s).0 ≢ no_fuel
  unfolding get_matching
  get_matching-Ends zero parent pattern local_dir s enough = absurd (omega arith)
  get_matching-Ends (suc fuel) parent pattern local_dir s enough =
      let descend : PathParts → PathParts → Act S (Unit {0}) =
        λ below local. get_matching F matches fuel below "*" local in
      Ends-bind (F.listdir parent) (fetch_names F matches descend parent pattern local_dir)
        (L.lists parent)
        (λ names. fetch_names-Ends descend parent pattern local_dir names λ child local less s.
          get_matching-Ends fuel child "*" local s (omega (arith, less, enough)))
        s
