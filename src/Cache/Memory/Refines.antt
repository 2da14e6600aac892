-- ===== src/Cache/Memory/Refines.antt =====
-- The cache in memory keeps the contract of Cache.Store.
use rexharge_citrineos_core.Prelude.{
  ℕ, zero, suc, ◌≡◌, refl, String, Option, none, some, is_some, Bool-cases, inl, inr, insert,
  str_eq, if◌then◌else◌,
}
use rexharge_citrineos_core.Cache.Store.{Store, full_key, truthy}
use rexharge_citrineos_core.Cache.Store
use rexharge_citrineos_core.Cache.Memory.{
  MemoryCache, start, expire_after, resolve_on_change, store, set, set_if_not_exist, exists, get,
  remove_key, on_change,
}

-- What the clients of the contract see.
abbrev pub view : MemoryCache → Store
view c = c.entries

view-store :
    (k value : String) (e : Option ℕ) (c : MemoryCache)
    → view (store k value e c) ≡ insert k value (view c)
unfolding store expire_after start resolve_on_change
view-store k value none c = refl
view-store k value (some zero) c = refl
view-store k value (some (suc e)) c = refl

module _ (key value : String) (namespace : Option String) (e : Option ℕ) (c : MemoryCache) where
  set_if_not_exist_refines :
      ((set_if_not_exist key value namespace e c).0
        ≡ (Store.set_if_not_exist key value namespace (view c)).0)
      × (view (set_if_not_exist key value namespace e c).1
          ≡ (Store.set_if_not_exist key value namespace (view c)).1)
  unfolding set_if_not_exist Store.set_if_not_exist
  set_if_not_exist_refines = elim (Bool-cases (is_some (c.entries (full_key key namespace)))) [
    | inl there ↦ rw there (refl, refl)
    | inr absent ↦ rw absent (refl, view-store (full_key key namespace) value e c)
  ]

-- exists, set, setIfNotExist and remove give the results that the contract gives on the entries, and
-- leave the entries that it leaves, whatever the expiry; get gives what the contract gives, but for an
-- empty text, for which it gives null; and onChange changes no entry. What time deletes is no part of it.
pub view_refines :
    (key value : String) (namespace : Option String) (e : Option ℕ) (seconds : ℕ) (c : MemoryCache)
    → (exists key namespace c ≡ Store.exists key namespace (view c))
      × (get key namespace c ≡ elim (Store.get key namespace (view c)) [
        | none ↦ none
        | some value ↦ if str_eq value "" then none else some value
      ])
      × (view (set key value namespace e c) ≡ Store.set key value namespace (view c))
      × ((set_if_not_exist key value namespace e c).0
          ≡ (Store.set_if_not_exist key value namespace (view c)).0)
      × (view (set_if_not_exist key value namespace e c).1
          ≡ (Store.set_if_not_exist key value namespace (view c)).1)
      × ((remove_key key namespace c).0 ≡ (Store.remove_key key namespace (view c)).0)
      × (view (remove_key key namespace c).1 ≡ (Store.remove_key key namespace (view c)).1)
      × (view (on_change key seconds namespace c).1 ≡ view c)
unfolding on_change start exists get set remove_key Store.exists Store.get Store.set
    Store.remove_key
view_refines key value namespace e seconds c =
    let (same, left) = set_if_not_exist_refines key value namespace e c in
    (
      refl,
      read (c.entries (full_key key namespace)),
      view-store (full_key key namespace) value e c,
      same,
      left,
      refl,
      refl,
      refl,
    )
  where
    read :
        (o : Option String)
        → truthy o
          ≡ elim o [ none ↦ none | some value ↦ if str_eq value "" then none else some value ]
    read none = refl
    read (some value) = refl
