-- ===== src/Config/Getters/Extra.antt =====
-- Which of the extra devices `get_extra_devices` gives.
use coppercomm.Prelude.{
  ◌≡◌, refl, subst, String, Bool, true, false, Option, some, List, [], ◌∷◌, if◌then◌else◌, inl, inr,
  Option-cases, Result, ok, raised, no_fuel,
}
use coppercomm.Config.{Config, throw_config_error}
use coppercomm.Config.Value.{Json, Items, nil, cons, member}
use coppercomm.Config.Getters.{
  ◌>>=◌, at_key, get_top, device_matches, matching_devices, as_items, get_extra_devices,
}
use coppercomm.Config.Getters.Fits.{Tells, Fits, device_matches-Tells}

-- `Picks Q devices items`: the devices are those of the items that are `Q`, in their order, and
-- the others are not `Q`.
pub data Picks (Q : Json → Type 0) : List Json → Items → Type 0 where
  none_left : Picks Q [] nil
  picked :
      {devices : List Json} {items : Items} (device : Json)
      → Q device
      → Picks Q devices items
      → Picks Q (device ∷ devices) (cons device items)
  skipped :
      {devices : List Json} {items : Items} (device : Json)
      → ¬ Q device
      → Picks Q devices items
      → Picks Q devices (cons device items)

listed : (l m : List Json) → ◌≡◌ {A = Result (List Json)} (ok l) (ok m) → l ≡ m
listed l m e = cc

-- One more device, before those that were picked of the others.
picked_before :
    {Q : Json → Type 0} (device : Json) (items : Items) (r : Result Bool) (o : Result (List Json))
    (devices : List Json)
    → Tells (Q device) r
    → ((others : List Json) → o ≡ ok others → Picks Q others items)
    → (r >>= λ fits. o >>= λ others. ok (if fits then device ∷ others else others)) ≡ ok devices
    → Picks Q devices (cons device items)
picked_before {Q} device items (ok true) (ok others) devices tells rest e =
    subst (λ l. Picks Q l (cons device items)) (listed (device ∷ others) devices e)
      (picked device (tells.0 refl) (rest others refl))
picked_before {Q} device items (ok false) (ok others) devices tells rest e =
    subst (λ l. Picks Q l (cons device items)) (listed others devices e)
      (skipped device (tells.1 refl) (rest others refl))
picked_before device items (ok b) (raised x) devices tells rest e = cc
picked_before device items (ok b) no_fuel devices tells rest e = cc
picked_before device items (raised x) o devices tells rest e = cc
picked_before device items no_fuel o devices tells rest e = cc

matching_devices-Picks :
    {Q : Json → Type 0} (test : Json → Result Bool)
    → ((device : Json) → Tells (Q device) (test device))
    → (items : Items) (devices : List Json) → matching_devices test items ≡ ok devices
    → Picks Q devices items
unfolding matching_devices
matching_devices-Picks {Q} test tells nil devices e =
    subst (λ l. Picks Q l nil) (listed [] devices e) none_left
matching_devices-Picks test tells (cons device items) devices e =
    picked_before device items (test device) (matching_devices test items) devices (tells device)
      (matching_devices-Picks test tells items) e

get_top-member :
    (key : String) (config : Config) (value : Json)
    → get_top key config ≡ ok value
    → member key config.device_config_data ≡ some value
unfolding get_top at_key throw_config_error
get_top-member key config value = elim (Option-cases (member key config.device_config_data)) [
  | inl missing ↦ rw (get_top, missing) (λ e. cc)
  | inr (found, there) ↦ rw (get_top, there) (λ e. cc)
]

-- The iteration over an entry, where both the entry and the iteration are there.
iterated :
    (entry : Result Json) (items : Items)
    → (entry >>= as_items) ≡ ok items
    → (value : Json) × (entry ≡ ok value) × (as_items value ≡ ok items)
iterated (ok value) items told = (value, refl, told)
iterated (raised error) items told = cc
iterated no_fuel items told = cc

-- The loop over what is iterated, where it is there.
looped :
    (loop : Items → Result (List Json)) (over : Result Items) (devices : List Json)
    → (over >>= loop) ≡ ok devices
    → (items : Items) × (loop items ≡ ok devices) × (over ≡ ok items)
looped loop (ok items) devices told = (items, told, refl)
looped loop (raised error) devices told = cc
looped loop no_fuel devices told = cc

-- When `get_extra_devices` is run to its end, it has given exactly those of the devices under
-- "EXTRA_DEVICES", in their order, that are objects with the wanted text as their "device_type",
-- where a type is wanted and is not the empty text, and with the text of each filter under its
-- name.
pub get_extra_devices-Picks :
    (config : Config) (device_type : Option String) (filters : List (String × String))
    (devices : List Json)
    → get_extra_devices config device_type filters ≡ ok devices
    → (value : Json) × (items : Items) × (member "EXTRA_DEVICES" config.device_config_data
        ≡ some value)
      × (as_items value ≡ ok items)
      × Picks (Fits device_type filters) devices items
unfolding get_extra_devices
get_extra_devices-Picks config device_type filters devices e =
    let (items, all, over) =
      looped (matching_devices (device_matches device_type filters))
        (get_top "EXTRA_DEVICES" config >>= as_items) devices e in
    let (value, told, listed) = iterated (get_top "EXTRA_DEVICES" config) items over in
    (
      value,
      items,
      get_top-member "EXTRA_DEVICES" config value told,
      listed,
      matching_devices-Picks (device_matches device_type filters)
          (device_matches-Tells device_type filters) items devices all,
    )
