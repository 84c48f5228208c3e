-- ===== src/Device.antt =====
-- src/coppercomm/device.py: the mapping of SSH connections that `_create_ssh_connections` returns, which
-- makes each of them when it is first asked for. The loaders are parameters.
use coppercomm.Prelude.{
  ◌≡◌, refl, ap, ◌∙◌, eq_iff, arith, String, str_eq, Option, none, some, List, [], ◌∷◌,
  if◌then◌else◌, map, length, ℕ, key_error, Act, Result, ok, raised, no_fuel, pure, raise, modify,
  continue, ◌>>=◌,
}

module _ {V : Type 0} where
  -- `mapping[key]`, and `none` without the key.
  unfoldable pub lookup : String → List (String × V) → Option V
  lookup key [] = none
  lookup key ((k, v) ∷ rest) = let later = lookup key rest in if str_eq key k then some v else later

module _ {S V : Type 0} (loaders : List (String × Act S V)) where
  pub record LazyDict : Type 0 where
    pub world : S
    pub cached : List (String × V)

  abbrev pub in_world : {A : Type 0} → Act S A → Act LazyDict A
  in_world m d = let (r, world) = m d.world in (r, record d { world = world })

  -- A key that is not cached: its loader runs, and what it returns is kept.
  abbrev pub load : String → Option (Act S V) → Act LazyDict V
  load key none = raise key_error
  load key (some loader) = in_world loader >>= λ value.
      modify (λ d. record d { cached = (key, value) ∷ d.cached }) >>= λ _. pure value

  abbrev pub cached_or : String → Option V → Act LazyDict V
  cached_or key none = load key (lookup key loaders)
  cached_or key (some value) = pure value

  -- `__getitem__`
  unfoldable pub lazy_get : String → Act LazyDict V
  unfolding lookup
  lazy_get key d = cached_or key (lookup key d.cached) d

  -- `__len__` and `__iter__`
  abbrev pub lazy_len : ℕ
  lazy_len = length loaders

  abbrev pub lazy_iter : List String
  lazy_iter = map (λ entry. entry.0) loaders

  lookup-newest :
      (key : String) (value : V) (rest : List (String × V))
      → lookup key ((key, value) ∷ rest) ≡ some value
  unfolding lookup
  lookup-newest key value rest = ground (arith, eq_iff key key)

  -- Whatever the next access finds in the cache, it returns.
  kept :
      (key : String) (value : V) (d : LazyDict)
      → lookup key d.cached ≡ some value
      → lazy_get key d ≡ (ok value, d)
  unfolding lazy_get
  kept key value d e = rw (cached_or, e) refl

  -- What the loader returned is what the next access finds.
  loaded-kept :
      (key : String) (value : V) (loader : Option (Act S V)) (d : LazyDict)
      → (load key loader d).0 ≡ ok value
      → lookup key (load key loader d).1.cached ≡ some value
  loaded-kept key value none d e = absurd (cc)
  loaded-kept key value (some loader) d e = returned (loader d.world).0 (loader d.world).1 e
    where
      keep : V → Act LazyDict V
      keep v = modify (λ c. record c { cached = (key, v) ∷ c.cached }) >>= λ _. pure v

      returned :
          (r : Result V) (world : S)
          → (continue keep (r, record d { world = world })).0 ≡ ok value
          → lookup key (continue keep (r, record d { world = world })).1.cached ≡ some value
      returned (ok v) world e = lookup-newest key v d.cached ∙ ap some (cc)
      returned (raised x) world e = absurd (cc)
      returned no_fuel world e = absurd (cc)

  found_or_loaded-kept :
      (key : String) (value : V) (found : Option V) (d : LazyDict)
      → lookup key d.cached ≡ found
      → (cached_or key found d).0 ≡ ok value
      → lookup key (cached_or key found d).1.cached ≡ some value
  found_or_loaded-kept key value none d f e = loaded-kept key value (lookup key loaders) d e
  found_or_loaded-kept key value (some v) d f e = f ∙ ap some (cc)

  -- A key that was returned once is returned again, without its loader and with nothing changed.
  pub lazy_get-again :
      (key : String) (value : V) (d : LazyDict)
      → (lazy_get key d).0 ≡ ok value
      → lazy_get key (lazy_get key d).1 ≡ (ok value, (lazy_get key d).1)
  unfolding lazy_get
  lazy_get-again key value d e =
      kept key value (lazy_get key d).1
        (found_or_loaded-kept key value (lookup key d.cached) d refl e)
