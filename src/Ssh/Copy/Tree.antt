-- ===== src/Ssh/Copy/Tree.antt =====
-- What a copied tree is to make of the remote host: the abstract side of `put_all`.
use coppercomm.Prelude.{
  ◌≢◌, Option, none, some, ◌≡◌, refl, ap, String, str_eq, eq_iff, Bool, true, false, ◌&&◌, List, [],
  ◌∷◌, ◌++◌, if◌then◌else◌, arith,
}
use coppercomm.Ssh.Copy.{Entries, nothing, file, directory, special}

-- What stands at a path of the remote host.
pub data Node : Type 0 where
  absent : Node
  holding : String → Node
  folder : Node

-- A directory that is asked for, where `old` stands.
abbrev pub merged : Node → Node
merged absent = folder
merged old = old

-- What the path `path`, below the copied directory, is to become.
pub data Wanted : Type 0 where
  unchanged : Wanted
  bytes : String → Wanted
  merging : Wanted

abbrev pub applied : Wanted → Node → Node
applied unchanged old = old
applied (bytes content) old = holding content
applied merging old = merged old

-- The tree read as a function of paths: a file wants its bytes, a directory wants to be there,
-- whatever else there is wants nothing.
abbrev at_file : String → List String → Wanted
at_file content [] = bytes content
at_file content (m ∷ path) = unchanged

unfoldable pub wanted : Entries → List String → Wanted
wanted nothing path = unchanged
wanted (file name content mode rest) [] = unchanged
wanted (file name content mode rest) (m ∷ path) =
    let later = wanted rest (m ∷ path) in if str_eq m name then at_file content path else later
wanted (directory name mode sub rest) [] = unchanged
wanted (directory name mode sub rest) (m ∷ []) =
    let later = wanted rest (m ∷ []) in if str_eq m name then merging else later
wanted (directory name mode sub rest) (m ∷ n ∷ path) =
    let later = wanted rest (m ∷ n ∷ path) in
    let below = wanted sub (n ∷ path) in if str_eq m name then below else later
wanted (special name rest) path = wanted rest path

-- No entry is called `name`.
abbrev pub Lacks : String → Entries → Type 0
Lacks name nothing = Unit
Lacks name (file m content mode rest) = (str_eq name m ≡ false) × Lacks name rest
Lacks name (directory m mode sub rest) = (str_eq name m ≡ false) × Lacks name rest
Lacks name (special m rest) = (str_eq name m ≡ false) × Lacks name rest

-- As in a file system: the entries of a directory have different names.
abbrev pub IsTree : Entries → Type 0
IsTree nothing = Unit
IsTree (file m content mode rest) = Lacks m rest × IsTree rest
IsTree (directory m mode sub rest) = Lacks m rest × IsTree sub × IsTree rest
IsTree (special m rest) = Lacks m rest × IsTree rest

abbrev pub same_path : List String → List String → Bool
same_path [] [] = true
same_path [] (n ∷ q) = false
same_path (m ∷ p) [] = false
same_path (m ∷ p) (n ∷ q) = str_eq m n && same_path p q

-- What the calls of `_put_all` at the path `under` make of what stands at the path `path`, one
-- entry after another.
unfoldable pub effect : Entries → List String → List String → Node → Node
effect nothing under path old = old
effect (file name content mode rest) under path old =
    effect rest under path (if same_path path (under ++ (name ∷ [])) then holding content else old)
effect (directory name mode sub rest) under path old = effect rest under path (
    effect sub (under ++ (name ∷ [])) path
      (if same_path path (under ++ (name ∷ [])) then merged old else old))
effect (special name rest) under path old = effect rest under path old

pub same_path_sound : (p q : List String) → same_path p q ≡ true → p ≡ q
same_path_sound [] [] e = refl
same_path_sound [] (n ∷ q) e = absurd (cc)
same_path_sound (m ∷ p) [] e = absurd (cc)
same_path_sound (m ∷ p) (n ∷ q) e = ground (arith, eq_iff m n, same_path_sound p q)

pub same_path-prefix :
    (under p q : List String) → same_path (under ++ p) (under ++ q) ≡ same_path p q
same_path-prefix [] p q = refl
same_path-prefix (m ∷ under) p q = ground (arith, eq_iff m m, same_path-prefix under p q)

pub append_cancel : (under p q : List String) → under ++ p ≡ under ++ q → p ≡ q
append_cancel [] p q e = e
append_cancel (m ∷ under) p q e = append_cancel under p q (cc)

pub append_snoc :
    (under : List String) (name : String) (path : List String)
    → (under ++ (name ∷ [])) ++ path ≡ under ++ (name ∷ path)
append_snoc [] name path = refl
append_snoc (m ∷ under) name path = ap (λ rest. m ∷ rest) (append_snoc under name path)

pub wanted-root : (entries : Entries) → wanted entries [] ≡ unchanged
unfolding wanted
wanted-root nothing = refl
wanted-root (file name content mode rest) = refl
wanted-root (directory name mode sub rest) = refl
wanted-root (special name rest) = wanted-root rest

pub wanted-Lacks :
    (entries : Entries) (name : String) (path : List String)
    → Lacks name entries
    → wanted entries (name ∷ path) ≡ unchanged
unfolding wanted
wanted-Lacks nothing name path h = refl
wanted-Lacks (file m content mode rest) name path (ne, h) =
    rw (wanted, ne) (wanted-Lacks rest name path h)
wanted-Lacks (directory m mode sub rest) name [] (ne, h) =
    rw (wanted, ne) (wanted-Lacks rest name [] h)
wanted-Lacks (directory m mode sub rest) name (n ∷ path) (ne, h) =
    rw (wanted, ne) (wanted-Lacks rest name (n ∷ path) h)
wanted-Lacks (special m rest) name path (ne, h) = wanted-Lacks rest name path h

-- What stands of a path below `under`, if it does.
unfoldable pub below : List String → List String → Option (List String)
below [] path = some path
below (m ∷ under) [] = none
below (m ∷ under) (n ∷ path) = let rest = below under path in if str_eq m n then rest else none

-- A tree laid over what stands at the path `path`.
abbrev pub placed : Entries → Option (List String) → Node → Node
placed entries none old = old
placed entries (some path) old = applied (wanted entries path) old

unfoldable pub overlay : Entries → List String → List String → Node → Node
unfolding below wanted
overlay entries under path = placed entries (below under path)

pub below-some :
    (under path rest : List String) → below under path ≡ some rest → path ≡ under ++ rest
unfolding below
below-some [] path rest e = cc
below-some (m ∷ under) [] rest e = absurd (cc)
below-some (m ∷ under) (n ∷ path) rest e = ground (arith, eq_iff m n, below-some under path rest)

pub below-none : (under path rest : List String) → below under path ≡ none → path ≢ under ++ rest
unfolding below
below-none [] path rest e f = absurd (cc)
below-none (m ∷ under) [] rest e f = cc
below-none (m ∷ under) (n ∷ path) rest e f =
    let head : m ≡ n = cc in
    let tail : path ≡ under ++ rest = cc in ground (arith, eq_iff m n, below-none under path rest)
