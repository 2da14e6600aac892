-- ===== src/Cache/Store.antt =====
-- What ICache promises (00_Base/src/interfaces/cache/cache.ts): a map from namespaced keys to texts.
-- Its clients are modelled over this map; Cache.Memory.Refines ties the implementation to it. That an
-- entry may expire between two calls is left to the caller's state: a theorem about a later call takes
-- the state that it finds, and says what it needs of it.
use rexharge_citrineos_core.Prelude.{
  String, Option, none, some, Bool, true, false, Dict, insert, remove, is_some, if◌then◌else◌,
  str_eq,
}
use rexharge_citrineos_core.Prelude.Text.{colon_join}

abbrev pub Store : Type 0
Store = Dict String

-- `namespace || 'default'`, then `${namespace}:${key}`
abbrev pub full_key : String → Option String → String
full_key key none = colon_join "default" key
full_key key (some namespace) =
    colon_join (if str_eq namespace "" then "default" else namespace) key

-- a text that `if (result)` lets through: every one but the empty one
abbrev pub truthy : Option String → Option String
truthy none = none
truthy (some s) = if str_eq s "" then none else some s

unfoldable pub exists : String → Option String → Store → Bool
exists key namespace s = is_some (s (full_key key namespace))

-- null for a key that does not exist, and for no other
unfoldable pub get : String → Option String → Store → Option String
get key namespace s = s (full_key key namespace)

-- What a client has of `get`, which takes an empty text for none: MemoryCache.get gives null for it.
unfoldable pub get_text : String → Option String → Store → Option String
unfolding get
get_text key namespace s = truthy (get key namespace s)

unfoldable pub remove_key : String → Option String → Store → Bool × Store
remove_key key namespace s =
    (is_some (s (full_key key namespace)), remove (full_key key namespace) s)

unfoldable pub set : String → String → Option String → Store → Store
set key value namespace s = insert (full_key key namespace) value s

unfoldable pub set_if_not_exist : String → String → Option String → Store → Bool × Store
set_if_not_exist key value namespace s =
    if is_some (s (full_key key namespace))
    then (false, s)
    else (true, insert (full_key key namespace) value s)
