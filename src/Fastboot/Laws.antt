-- ===== src/Fastboot/Laws.antt =====
-- Which device the commands of a `Fastboot` object address.
use coppercomm.Prelude.{
  ◌≡◌, refl, String, false, Option, none, some, List, [], ◌∷◌, truthy, occurs_in, split,
  split_lines, ◌⊎◌, inl, inr, Bool-cases, Result, ok, raised, no_fuel, continue,
}
use coppercomm.Host.{Host}
use coppercomm.LocalConsole.{words, Options, defaults}
use coppercomm.Fastboot.{
  Fastboot, new_fastboot, set_fastboot_id, adopt, first_state, state_in, FastbootSession,
  run_fastboot, find_state, fastboot_state,
}

-- The command addresses the device that the object names, or none.
unfoldable pub Addresses : Fastboot → Type 0
Addresses f =
    (f.fastboot_cmd ≡ "fastboot" ∷ [])
    ⊎ ((id : String) × (f.device_id ≡ some id) × (f.fastboot_cmd ≡ "fastboot" ∷ "-s" ∷ id ∷ []))

adopt-Addresses : (row : List String) (f : Fastboot) → Addresses f → Addresses (adopt row f).1
unfolding adopt set_fastboot_id Addresses
adopt-Addresses [] f h = h
adopt-Addresses (id ∷ []) f h = h
adopt-Addresses (id ∷ mode ∷ []) f h = inr (_, refl, refl)
adopt-Addresses (id ∷ mode ∷ x ∷ rest) f h = h

first_state-Addresses :
    (rows : List String) (f : Fastboot) → Addresses f → Addresses (first_state rows f).1
unfolding first_state
first_state-Addresses [] f h = h
first_state-Addresses (row ∷ rows) f h = elim (Bool-cases (occurs_in "fastboot" row)) [
  | inl here ↦ rw (first_state, here) (adopt-Addresses (split row) f h)
  | inr other ↦ rw (first_state, other) (first_state-Addresses rows f h)
]

state_in-Addresses :
    (rows : List String) (id : Option String) (f : Fastboot)
    → Addresses f
    → Addresses (state_in rows id f).1
state_in-Addresses rows none f h = first_state-Addresses rows f h
state_in-Addresses rows (some id) f h = elim (Bool-cases (truthy id)) [
  | inl named ↦ rw named h
  | inr unnamed ↦ rw unnamed (first_state-Addresses rows f h)
]

-- The commands of a new object address its device, or none.
new_fastboot-Addresses : (id : Option String) → Addresses (new_fastboot id)
unfolding new_fastboot Addresses
new_fastboot-Addresses none = inl refl
new_fastboot-Addresses (some id) = elim (Bool-cases (truthy id)) [
  | inl named ↦ rw named (inr (id, refl, refl))
  | inr unnamed ↦ rw unnamed (inl refl)
]

find_state-Addresses :
    (H : Host) (resp : String) (s : FastbootSession H)
    → Addresses s.object
    → Addresses (find_state H resp s).1.object
unfolding find_state
find_state-Addresses H resp s h =
    state_in-Addresses (split_lines resp) s.object.device_id s.object h

-- A `Fastboot` object whose commands carry `-s` with the id that it names, or no `-s`, is such an
-- object after `get_state` too, whether a device was adopted, none was found, or the call raised.
pub fastboot_state-Addresses :
    (H : Host) (s : FastbootSession H)
    → Addresses s.object
    → Addresses (fastboot_state H s).1.object
unfolding fastboot_state run_fastboot
fastboot_state-Addresses H s h =
    answered (run_fastboot H false (words ("devices" ∷ [])) asking s).0 _ h
  where
    asking : Options
    asking = record defaults { assert_ok = false; timeout = some 5000 }

    answered :
        (r : Result String) (s' : FastbootSession H)
        → Addresses s'.object
        → Addresses (continue (find_state H) (r, s')).1.object
    answered (ok resp) s' a = find_state-Addresses H resp s' a
    answered (raised e) s' a = a
    answered no_fuel s' a = a
