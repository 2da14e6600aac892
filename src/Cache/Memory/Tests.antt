-- ===== src/Cache/Memory/Tests.antt =====
-- The memory cache on one key.
use rexharge_citrineos_core.Prelude.{◌≡◌, none, some, str_eq, if◌then◌else◌, ltb, arith}
use rexharge_citrineos_core.Cache.Store
use rexharge_citrineos_core.Cache.Memory.{
  MemoryCache, init, set, set_if_not_exist, remove_key, exists, get, wait, seconds, on_change,
}
use rexharge_citrineos_core.Cache.Memory.Invariant.{
  IsValid, Reach, here, next, sets, removes, Reach-IsValid,
}
use rexharge_citrineos_core.Cache.Memory.Expiry.{get-set_expiry}
use rexharge_citrineos_core.Cache.Memory.Refines.{view, view_refines}

abbrev written : MemoryCache
written = set "cs1" "Accepted" (some "boot") (some 5) init

abbrev removed : MemoryCache
removed = (remove_key "cs1" (some "boot") written).1

removed-Reach : Reach init removed
removed-Reach =
    next (next here (sets "cs1" "Accepted" (some "boot") (some 5))) (removes "cs1" (some "boot"))

Reach-IsValid_example : IsValid removed
Reach-IsValid_example = Reach-IsValid removed removed-Reach

get-set_expiry_example :
    get "cs1" (some "boot") (wait 7 (set "cs1" "Pending" (some "boot") (some 2) removed))
    ≡ (if ltb 7 (seconds 2) then some "Pending" else none)
get-set_expiry_example =
    get-set_expiry "cs1" "Pending" (some "boot") 2 7 removed (Reach-IsValid removed removed-Reach)
      (omega arith) (omega arith) (λ e. cc)

view_refines_example :
    (exists "cs1" none written ≡ Store.exists "cs1" none (view written))
    × (get "cs1" none written ≡ elim (Store.get "cs1" none (view written)) [
      | none ↦ none
      | some value ↦ if str_eq value "" then none else some value
    ])
    × (view (set "cs1" "v" none (some 3) written) ≡ Store.set "cs1" "v" none (view written))
    × ((set_if_not_exist "cs1" "v" none (some 3) written).0
        ≡ (Store.set_if_not_exist "cs1" "v" none (view written)).0)
    × (view (set_if_not_exist "cs1" "v" none (some 3) written).1
        ≡ (Store.set_if_not_exist "cs1" "v" none (view written)).1)
    × ((remove_key "cs1" none written).0 ≡ (Store.remove_key "cs1" none (view written)).0)
    × (view (remove_key "cs1" none written).1 ≡ (Store.remove_key "cs1" none (view written)).1)
    × (view (on_change "cs1" 9 none written).1 ≡ view written)
view_refines_example = view_refines "cs1" "v" none (some 3) 9 written
