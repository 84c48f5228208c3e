-- ===== src/Config/Finder/Cached.antt =====
-- `load_config` of src/coppercomm/config_file_parser.py, under `functools.lru_cache()`: 128 results are
-- kept, the one used last in front. Calls that spell their arguments differently (by position or
-- by name) have different keys in Python; a request here is a call in one spelling.
use coppercomm.Prelude.{
  ℕ, zero, suc, String, Bool, true, false, ◌&&◌, Option, none, some, List, [], ◌∷◌, if◌then◌else◌,
  str_eq, Act, Result, ok, raised, no_fuel,
}
use coppercomm.Config.{Config}
use coppercomm.Config.Finder.{FileSystem, Request, read_config}

abbrev pub Loaded : Type 0
Loaded = Config × String

abbrev pub Cache : Type 0
Cache = List (Request × Loaded)

abbrev same_path : Option String → Option String → Bool
same_path none none = true
same_path none (some b) = false
same_path (some a) none = false
same_path (some a) (some b) = str_eq a b

unfoldable pub same_request : Request → Request → Bool
same_request p q =
    same_path p.path q.path
    && (str_eq p.filename q.filename && str_eq p.env_variable q.env_variable)

unfoldable pub cached : Request → Cache → Option Loaded
unfolding same_request
cached q [] = none
cached q ((p, r) ∷ cache) = if same_request p q then some r else cached q cache

unfoldable pub without : Request → Cache → Cache
unfolding same_request
without q [] = []
without q ((p, r) ∷ cache) = if same_request p q then cache else (p, r) ∷ without q cache

unfoldable pub first_entries : ℕ → Cache → Cache
first_entries zero cache = []
first_entries (suc n) [] = []
first_entries (suc n) (e ∷ cache) = e ∷ first_entries n cache

-- The entry that was used comes to the front, and what no longer fits is dropped.
unfoldable pub remember : Request → Loaded → Cache → Cache
unfolding without first_entries
remember q r cache = first_entries 128 ((q, r) ∷ without q cache)

-- A call that raises leaves the cache as it is.
abbrev store_result : Request → Cache → Result Loaded → Result Loaded × Cache
store_result q cache (ok r) = (ok r, remember q r cache)
store_result q cache (raised e) = (raised e, cache)
store_result q cache no_fuel = (no_fuel, cache)

unfoldable pub load_config : FileSystem → Request → Act Cache Loaded
unfolding cached remember read_config
load_config fs q cache = elim (cached q cache) [
  | some r ↦ (ok r, remember q r cache)
  | none ↦ store_result q cache (read_config fs q)
]
