-- ===== src/Adb/State/Laws.antt =====
-- Which device `get_state` adopts, and the attributes of an `Adb` object.
use coppercomm.Prelude.{
  ◌≡◌, refl, ap, sym, ◌∙◌, subst, String, Bool, true, false, ◌&&◌, Option, none, some, List, [],
  ◌∷◌, difference, contains, contains-difference, Bool-cases, inl, inr, Result, ok, raised, no_fuel,
  coppercomm_error, dedup_from, arith, not, eq_iff, continue,
}
use coppercomm.Host.{Host}
use coppercomm.Adb.{
  Adb, Session, is_given, is_listed, base_command, new_adb, set_ignore_ids, set_device_id,
  validate_attributes, to_set,
}
use coppercomm.Adb.Devices.{get_all_devices}
use coppercomm.Adb.State.{choose_device, find_device}

-- The command addresses the device that the object names, and none if it names none.
unfoldable pub IsAddressed : Adb → Type 0
IsAddressed a = a.adb_cmd ≡ base_command a.adb_device_id

-- The object does not both name a device and ignore others.
unfoldable pub IsExclusive : Adb → Type 0
IsExclusive a = is_given a.adb_device_id && is_listed (some a.ignore_ids) ≡ false

listed-to_set :
    (id : Option String) (ids : Option (List String))
    → is_given id && is_listed ids ≡ false
    → is_given id && is_listed (some (to_set ids)) ≡ false
unfolding to_set dedup_from
listed-to_set id none h = ground arith
listed-to_set id (some []) h = ground arith
listed-to_set id (some (x ∷ xs)) h = ground arith

-- A new `Adb` object passes `-s` with the id exactly if it names a device with a non-empty id, and
-- then it ignores no devices.
pub new_adb-IsExclusive :
    (id : Option String) (ids : Option (List String)) (a : Adb)
    → new_adb id ids ≡ ok a
    → IsAddressed a × IsExclusive a
unfolding new_adb validate_attributes IsAddressed IsExclusive
new_adb-IsExclusive id ids a e = elim (Bool-cases (is_given id && is_listed ids)) [
  | inl conflict ↦ absurd (refused (rw (new_adb, conflict) at e))
  | inr fits ↦
      subst (λ b. IsAddressed b × IsExclusive b) (made (rw (new_adb, fits) at e))
        (refl, listed-to_set id ids fits)
]
  where
    refused : ◌≡◌ {A = Result Adb} (raised coppercomm_error) (ok a) → ⊥
    refused h = cc

    made : {b : Adb} → ◌≡◌ {A = Result Adb} (ok b) (ok a) → b ≡ a
    made h = cc

-- An object that does not both name a device and ignore others keeps that property when
-- `ignore_ids` is set, whether the setter raises or not.
pub set_ignore_ids-IsExclusive :
    (ids : Option (List String)) (a : Adb) → IsExclusive a → IsExclusive (set_ignore_ids ids a).1
unfolding set_ignore_ids validate_attributes IsExclusive
set_ignore_ids-IsExclusive ids a h = elim (Bool-cases (is_given a.adb_device_id && is_listed ids)) [
  | inl conflict ↦ rw (set_ignore_ids, conflict) h
  | inr fits ↦ rw (set_ignore_ids, fits) (listed-to_set a.adb_device_id ids fits)
]

module _ (H : Host) where
  adopted :
      (ids : List String) (s s' : Session H)
      → choose_device H ids s ≡ (ok true, s')
      → (id : String) × (ids ≡ id ∷ []) × (s' ≡ record s { adb = set_device_id id s.adb })
  unfolding choose_device
  adopted [] s s' e = absurd (none_found (ap (λ x. x.0) e))
    where
      none_found : ◌≡◌ {A = Result Bool} (ok false) (ok true) → ⊥
      none_found h = cc
  adopted (id ∷ []) s s' e = (id, refl, sym (ap (λ x. x.1) e))
  adopted (x ∷ y ∷ ids) s s' e = absurd (too_many (ap (λ x. x.0) e))
    where
      too_many : ◌≡◌ {A = Result Bool} (raised coppercomm_error) (ok true) → ⊥
      too_many h = cc

  -- What `find_device` may have done to a session whose object named no device: it has read the
  -- devices, there was one that is not ignored, and only one, and the object names it now.
  unfoldable pub Adopts : Session H → Session H → Type 0
  Adopts s s' =
      (ids : List String) × (id : String) × ((get_all_devices H s.host).0 ≡ ok ids)
      × (difference ids s.adb.ignore_ids ≡ id ∷ [])
      × (contains ids id && not (contains s.adb.ignore_ids id) ≡ true)
      × (s'.adb ≡ set_device_id id s.adb)

  listed_alone :
      (ids ignored : List String) (id : String)
      → difference ids ignored ≡ id ∷ []
      → contains ids id && not (contains ignored id) ≡ true
  listed_alone ids ignored id e =
      sym (contains-difference ids ignored id) ∙ rw e (rw ((eq_iff id id).1 refl) refl)

  -- When an `Adb` object that names no device goes on to ask for a state, `adb devices` has listed
  -- one device that is not among the ignored ones, and only one, and the object names this device
  -- now.
  pub find_device-Adopts :
      (s s' : Session H)
      → is_given s.adb.adb_device_id ≡ false
      → find_device H s ≡ (ok true, s')
      → Adopts s s'
  unfolding find_device Adopts
  find_device-Adopts s s' unnamed e =
      listed (get_all_devices H s.host).0 refl (rw (find_device, unnamed) at e)
    where
      listed :
          (r : Result (List String))
          → (get_all_devices H s.host).0 ≡ r
          → continue
              (λ ids. choose_device H (difference ids s.adb.ignore_ids))
              (r, record s { host = (get_all_devices H s.host).1 })
            ≡ (ok true, s')
          → Adopts s s'
      listed (ok ids) told h =
          let (id, alone, after) = adopted (difference ids s.adb.ignore_ids) _ s' h in
          (ids, id, told, alone, listed_alone ids s.adb.ignore_ids id alone, ap (λ x. x.adb) after)
      listed (raised x) told h = absurd (failed (ap (λ x. x.0) h))
        where
          failed : ◌≡◌ {A = Result Bool} (raised x) (ok true) → ⊥
          failed h = cc
      listed no_fuel told h = absurd (failed (ap (λ x. x.0) h))
        where
          failed : ◌≡◌ {A = Result Bool} no_fuel (ok true) → ⊥
          failed h = cc
