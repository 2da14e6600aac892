-- ===== src/Boot/Permissions.antt =====
-- The list of a station's actions in the cache, as the boot handlers write it.

use text.Mathlib.TextPositions.{eq_refl}
use rexharge_citrineos_core.Prelude.{
  String, ◌≡◌, ◌≢◌, refl, sym, subst, none, some, true, false, List, [], ◌∷◌, arith, eq_iff,
  Bool-cases, inl, inr, str_eq, includes, if◌then◌else◌,
}
use rexharge_citrineos_core.Cache.Store.{Store, full_key, set, exists, remove_key}
use rexharge_citrineos_core.Boot.{
  RegistrationStatus, accepted, pending, rejected, whitelist, blacklist, cache_permissions,
}

module _ (station : String) (action : String) where
  IsListed : Store → Type 0
  IsListed cache = exists action (some station) cache ≡ true

  blacklist_keeps :
      (actions : List String) (cache : Store)
      → IsListed cache
      → IsListed (blacklist station actions cache)
  unfolding blacklist IsListed exists set
  blacklist_keeps [] cache h = h
  blacklist_keeps (a ∷ actions) cache h = blacklist_keeps actions _ (ground arith)

  blacklist_lists :
      (actions : List String) (cache : Store)
      → includes actions action ≡ true
      → str_eq action "BootNotification" ≡ false
      → IsListed (blacklist station actions cache)
  unfolding blacklist IsListed exists set
  blacklist_lists [] cache h other = ground arith
  blacklist_lists (a ∷ actions) cache h other = elim (Bool-cases (str_eq a action)) [
    | inl same ↦ blacklist_keeps actions _ (
        subst
          (λ t. IsListed (
            if str_eq t "BootNotification"
            then cache
            else set t "blacklisted" (some station) cache))
          (sym ((eq_iff a action).0 same))
          (rw other (ground (arith, eq_refl (full_key action (some station))))))
    | inr differs ↦ blacklist_lists actions _ (ground arith) other
  ]

  IsUnlisted : Store → Type 0
  IsUnlisted cache = exists action (some station) cache ≡ false

  remove_keeps :
      (k : String) (cache : Store)
      → IsUnlisted cache
      → IsUnlisted (remove_key k (some station) cache).1
  unfolding IsUnlisted exists remove_key
  remove_keeps k cache h = ground arith

  whitelist_keeps :
      (actions : List String) (cache : Store)
      → IsUnlisted cache
      → IsUnlisted (whitelist station actions cache)
  unfolding whitelist IsUnlisted exists remove_key
  whitelist_keeps [] cache h = h
  whitelist_keeps (a ∷ actions) cache h = whitelist_keeps actions _ (ground arith)

  whitelist_unlists :
      (actions : List String) (cache : Store)
      → includes actions action ≡ true
      → str_eq action "BootNotification" ≡ false
      → IsUnlisted (whitelist station actions cache)
  unfolding whitelist IsUnlisted exists remove_key
  whitelist_unlists [] cache h other = ground arith
  whitelist_unlists (a ∷ actions) cache h other = elim (Bool-cases (str_eq a action)) [
    | inl same ↦ whitelist_keeps actions _ (
        subst
          (λ t.
            IsUnlisted (
              if str_eq t "BootNotification" then cache else (remove_key t (some station) cache).1))
          (sym ((eq_iff a action).0 same))
          (rw other (ground (arith, eq_refl (full_key action (some station))))))
    | inr differs ↦ whitelist_unlists actions _ (ground arith) other
  ]

module _ (actions : List String) (station action : String) (cache : Store) where
  -- A first boot that is not accepted puts every action of the version but BootNotification on the
  -- station's list.
  cache_permissions_lists :
      (status : RegistrationStatus)
      → status ≢ accepted
      → includes actions action ≡ true
      → str_eq action "BootNotification" ≡ false
      → exists action (some station) (cache_permissions actions station none status cache) ≡ true
  unfolding cache_permissions
  cache_permissions_lists accepted h found other = absurd (h refl)
  cache_permissions_lists pending h found other =
      unfold IsListed in blacklist_lists station action actions cache found other
  cache_permissions_lists rejected h found other =
      unfold IsListed in blacklist_lists station action actions cache found other

  -- An accepted boot after one that was not takes every such action off the list again.
  cache_permissions_unlists :
      (cached : String)
      → includes actions action ≡ true
      → str_eq action "BootNotification" ≡ false
      → exists action
          (some station)
          (cache_permissions actions station (some cached) accepted cache)
        ≡ false
  unfolding cache_permissions
  cache_permissions_unlists cached found other =
      unfold IsUnlisted in
      remove_keeps station action "boot_status" _
        (whitelist_unlists station action actions cache found other)
