-- ===== src/Cache/Memory/Waiting.antt =====
-- What a call of onChange gets.
use rexharge_citrineos_core.Prelude.{
  ℕ, zero, suc, ◌≡◌, refl, String, Option, none, some, List, [], ◌∷◌, ◌++◌, arith, eq_refl,
  if◌then◌else◌, ◌⊎◌, inl, str_eq,
}
use rexharge_citrineos_core.Cache.Store.{full_key}
use rexharge_citrineos_core.Cache.Memory.{
  MemoryCache, start, expire_after, resolve_on_change, store, set, settle, settle_all, on_change,
  remove_key,
}

settle_all_keeps :
    (ws : List ℕ) (v : Option String) (m : ℕ → Option (Option String)) (w : ℕ)
    → m w ≡ some v
    → settle_all ws v m w ≡ some v
unfolding settle_all
settle_all_keeps [] v m w h = h
settle_all_keeps (x ∷ ws) v m w h = settle_all_keeps ws v (settle x v m) w (ground arith)

-- A waiter with no value yet, or with this one, has it after the list with it at the end is settled.
settle_all-append :
    (ws : List ℕ) (v : Option String) (m : ℕ → Option (Option String)) (w : ℕ)
    → (m w ≡ none) ⊎ (m w ≡ some v)
    → settle_all (ws ++ w ∷ []) v m w ≡ some v
unfolding settle_all
settle_all-append [] v m w h = ground arith
settle_all-append (x ∷ ws) v m w h = settle_all-append ws v (settle x v m) w (ground arith)

store_settled :
    (k value : String) (e : Option ℕ) (c : MemoryCache)
    → (store k value e c).settled ≡ settle_all (c.waiting k) (some value) c.settled
unfolding store expire_after start resolve_on_change
store_settled k value none c = refl
store_settled k value (some zero) c = refl
store_settled k value (some (suc e)) c = refl

-- A call of onChange whose waiter is new gets the value of the next write to its key, whatever waited
-- for the key before; and a removal in place of the write gives it nothing.
on_change_outcome :
    (key value : String) (namespace : Option String) (seconds : ℕ) (e : Option ℕ) (c : MemoryCache)
    → c.settled c.next_id ≡ none
    → let (w, d) = on_change key seconds namespace c in
      ((set key value namespace e d).settled w ≡ some (some value))
      × ((remove_key key namespace d).1.settled w ≡ none)
unfolding on_change start set remove_key
on_change_outcome key value namespace seconds e c fresh = (
  rw (store_settled (full_key key namespace) value e (on_change key seconds namespace c).1, joined)
      (settle_all-append (c.waiting (full_key key namespace)) (some value) c.settled c.next_id
        (inl fresh)),
  fresh,
)
  where
    joined :
        (if str_eq (full_key key namespace) (full_key key namespace)
          then c.waiting (full_key key namespace) ++ c.next_id ∷ []
          else c.waiting (full_key key namespace))
        ≡ c.waiting (full_key key namespace) ++ c.next_id ∷ []
    joined = rw (eq_refl (full_key key namespace))
