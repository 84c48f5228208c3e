-- ===== src/Ssh/Copy/Overlay.antt =====
-- A copied directory lies over what was there.
use coppercomm.Prelude.{
  some, none, ℕ, ◌≡◌, refl, sym, ap, ◌∙◌, ◌≢◌, inl, inr, Bool-cases, String, str_eq, eq_iff, true,
  false, Option, [], ◌∷◌, ◌++◌, Result, ok, raised, no_fuel,
}
use coppercomm.Loops.Results.{After}
use coppercomm.Ssh.Copy.Steps.{Becomes, IsFaithful, put_directory-Changes}
use coppercomm.Ssh.Copy.{PathParts, Sftp, Entries, nothing, file, directory, special, put_directory}
use coppercomm.Ssh.Copy.Tree.{
  below, placed, overlay, below-some, below-none, Node, holding, merged, applied, wanted, Lacks,
  IsTree, same_path, effect, same_path_sound, same_path-prefix, append_cancel, append_snoc,
  wanted-root, wanted-Lacks,
}

-- `path` is not below `under`.
abbrev pub Elsewhere : PathParts → PathParts → Type 0
Elsewhere under path = (below : PathParts) → path ≢ under ++ below

Elsewhere-snoc :
    (under path : PathParts) (name : String)
    → Elsewhere under path
    → Elsewhere (under ++ (name ∷ [])) path
Elsewhere-snoc under path name away below e = away (name ∷ below) (e ∙ append_snoc under name below)

not_same :
    (under path : PathParts) (name : String)
    → Elsewhere under path
    → same_path path (under ++ (name ∷ [])) ≡ false
not_same under path name away = elim (Bool-cases (same_path path (under ++ (name ∷ [])))) [
  | inl here ↦ absurd (away (name ∷ []) (same_path_sound path (under ++ (name ∷ [])) here))
  | inr other ↦ other
]

effect-Elsewhere :
    (entries : Entries) (under path : PathParts) (old : Node)
    → Elsewhere under path
    → effect entries under path old ≡ old
unfolding effect
effect-Elsewhere nothing under path old away = refl
effect-Elsewhere (file name content mode rest) under path old away =
    rw (effect, not_same under path name away) (effect-Elsewhere rest under path old away)
effect-Elsewhere (directory name mode sub rest) under path old away =
    rw (effect, not_same under path name away)
      (effect-Elsewhere rest under path _ away
        ∙ effect-Elsewhere sub (under ++ (name ∷ [])) path old
            (Elsewhere-snoc under path name away))
effect-Elsewhere (special name rest) under path old away = effect-Elsewhere rest under path old away

-- No other entry's directory holds the path.
root_Elsewhere :
    (under : PathParts) (name : String) → Elsewhere (under ++ (name ∷ [])) (under ++ [])
root_Elsewhere under name below e =
    let f = append_cancel under [] (name ∷ below) (e ∙ append_snoc under name below) in cc

other_Elsewhere :
    (under : PathParts) (m name : String) (path : PathParts)
    → str_eq m name ≡ false
    → Elsewhere (under ++ (name ∷ [])) (under ++ (m ∷ path))
other_Elsewhere under m name path ne below e =
    let f = append_cancel under (m ∷ path) (name ∷ below) (e ∙ append_snoc under name below) in
    let g = (eq_iff m name).1 (cc) in cc

-- An entry of the same name wants nothing more.
settled :
    (rest : Entries) (m name : String) (path : PathParts) (old : Node)
    → str_eq m name ≡ true
    → Lacks name rest
    → applied (wanted rest (m ∷ path)) old ≡ old
settled rest m name path old e lacks =
    let same = (eq_iff m name).0 e in
    ap (λ w. applied w old)
      (ap (λ n. wanted rest (n ∷ path)) same ∙ wanted-Lacks rest name path lacks)

-- A path that begins with the name of a directory lies in it.
into :
    (under : PathParts) (m name : String) (path : PathParts)
    → str_eq m name ≡ true
    → under ++ (m ∷ path) ≡ (under ++ (name ∷ [])) ++ path
into under m name path e =
    ap (λ n. under ++ (n ∷ path)) ((eq_iff m name).0 e) ∙ sym (append_snoc under name path)

effect-wanted :
    (entries : Entries) (under path : PathParts) (old : Node)
    → IsTree entries
    → effect entries under (under ++ path) old ≡ applied (wanted entries path) old
unfolding effect wanted
effect-wanted nothing under path old t = refl
effect-wanted (file name content mode rest) under [] old (lacks, t) =
    rw (effect, same_path-prefix under [] (name ∷ []))
      (effect-wanted rest under [] old t ∙ ap (λ w. applied w old) (wanted-root rest))
effect-wanted (file name content mode rest) under (m ∷ []) old (lacks, t) =
    elim (Bool-cases (str_eq m name)) [
      | inl here ↦
          rw (effect, wanted, same_path-prefix under (m ∷ []) (name ∷ []), here)
            (effect-wanted rest under (m ∷ []) (holding content) t
              ∙ settled rest m name [] (holding content) here lacks)
      | inr other ↦
          rw (effect, wanted, same_path-prefix under (m ∷ []) (name ∷ []), other)
            (effect-wanted rest under (m ∷ []) old t)
    ]
effect-wanted (file name content mode rest) under (m ∷ n ∷ path) old (lacks, t) =
    elim (Bool-cases (str_eq m name)) [
      | inl here ↦
          rw (effect, wanted, same_path-prefix under (m ∷ n ∷ path) (name ∷ []), here)
            (effect-wanted rest under (m ∷ n ∷ path) old t
              ∙ settled rest m name (n ∷ path) old here lacks)
      | inr other ↦
          rw (effect, wanted, same_path-prefix under (m ∷ n ∷ path) (name ∷ []), other)
            (effect-wanted rest under (m ∷ n ∷ path) old t)
    ]
effect-wanted (directory name mode sub rest) under [] old (lacks, tsub, t) =
    rw
      (
        effect,
        same_path-prefix under [] (name ∷ []),
        effect-Elsewhere sub (under ++ (name ∷ [])) (under ++ []) old (root_Elsewhere under name),
      )
      (effect-wanted rest under [] old t ∙ ap (λ w. applied w old) (wanted-root rest))
effect-wanted (directory name mode sub rest) under (m ∷ []) old (lacks, tsub, t) =
    elim (Bool-cases (str_eq m name)) [
      | inl here ↦
          rw (effect, wanted, same_path-prefix under (m ∷ []) (name ∷ []), here)
            (effect-wanted rest under (m ∷ []) _ t
              ∙ settled rest m name [] _ here lacks
              ∙ ap (λ p. effect sub (under ++ (name ∷ [])) p (merged old))
                  (into under m name [] here)
              ∙ effect-wanted sub (under ++ (name ∷ [])) [] (merged old) tsub
              ∙ ap (λ w. applied w (merged old)) (wanted-root sub))
      | inr other ↦
          rw (effect, wanted, same_path-prefix under (m ∷ []) (name ∷ []), other)
            (ap (effect rest under (under ++ (m ∷ []))) (
                effect-Elsewhere sub (under ++ (name ∷ [])) _ old
                  (other_Elsewhere under m name [] other))
              ∙ effect-wanted rest under (m ∷ []) old t)
    ]
effect-wanted (directory name mode sub rest) under (m ∷ n ∷ path) old (lacks, tsub, t) =
    elim (Bool-cases (str_eq m name)) [
      | inl here ↦
          rw (effect, wanted, same_path-prefix under (m ∷ n ∷ path) (name ∷ []), here)
            (effect-wanted rest under (m ∷ n ∷ path) _ t
              ∙ settled rest m name (n ∷ path) _ here lacks
              ∙ ap (λ p. effect sub (under ++ (name ∷ [])) p old)
                  (into under m name (n ∷ path) here)
              ∙ effect-wanted sub (under ++ (name ∷ [])) (n ∷ path) old tsub)
      | inr other ↦
          rw (effect, wanted, same_path-prefix under (m ∷ n ∷ path) (name ∷ []), other)
            (ap (effect rest under (under ++ (m ∷ n ∷ path))) (
                effect-Elsewhere sub (under ++ (name ∷ [])) _ old
                  (other_Elsewhere under m name (n ∷ path) other))
              ∙ effect-wanted rest under (m ∷ n ∷ path) old t)
    ]
effect-wanted (special name rest) under path old (lacks, t) = effect-wanted rest under path old t

-- What the calls make of a path is what the tree laid over it makes.
effect-overlay :
    (entries : Entries) (under path : PathParts) (old : Node)
    → IsTree entries
    → effect entries under path old ≡ overlay entries under path old
unfolding overlay
effect-overlay entries under path old t = placed_at (below under path) refl
  where
    placed_at :
        (o : Option PathParts)
        → below under path ≡ o
        → effect entries under path old ≡ placed entries o old
    placed_at none e = effect-Elsewhere entries under path old λ rest. below-none under path rest e
    placed_at (some rest) e =
        ap (λ p. effect entries under p old) (below-some under path rest e)
        ∙ effect-wanted entries under rest old t

-- When the copy of a directory by `put_all` returns, what stands at every path of the remote host
-- is what stood there with the local tree laid over it: below the remote directory each file of the
-- tree is there with its bytes, each directory is there where nothing was, and whatever else was
-- there is as before; no path elsewhere has changed. The calls of the SFTP client do what they are
-- documented to do when they return, and the entries of each copied directory have different names.
pub put_directory-overlay :
    {S : Type 0} (F : Sftp S) (look : S → PathParts → Node)
    → IsFaithful F look
    → (name : String) (mode : ℕ) (entries : Entries) (remote_dir : PathParts) (chmod : Option ℕ)
      (s : S)
    → IsTree entries
    → After
        (λ _ s'. Becomes look (overlay (directory name mode entries nothing) remote_dir) s s')
        (put_directory F name mode entries remote_dir chmod s)
put_directory-overlay {S} F look L name mode entries remote_dir chmod s t =
    let (r, s') = put_directory F name mode entries remote_dir chmod s in
    read r s' ((put_directory-Changes F look L name mode entries remote_dir chmod).at s)
  where
    all : Entries
    all = directory name mode entries nothing

    read :
        (r : Result (Unit {0})) (s' : S)
        → After (λ _ t. Becomes look (effect all remote_dir) s t) (r, s')
        → After (λ _ t. Becomes look (overlay all remote_dir) s t) (r, s')
    read (ok a) s' changed = λ path. changed path ∙ effect-overlay all remote_dir path _ (tt, t, tt)
    read (raised e) s' changed = tt
    read no_fuel s' changed = tt
