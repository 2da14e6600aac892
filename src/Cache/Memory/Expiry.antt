-- ===== src/Cache/Memory/Expiry.antt =====
-- When an entry that was written with an expiry leaves the cache in memory.
use rexharge_citrineos_core.Prelude.{
  ℕ, zero, suc, ◌+◌, ◌<◌, ◌≤◌, ◌≡◌, ◌≢◌, eq_iff, refl, ◌∙◌, ap, inl, inr, String, Option, Bool,
  true, false, none, some, arith, eq_refl, All, ltb, if◌then◌else◌, Bool-cases,
}
use rexharge_citrineos_core.Cache.Store.{full_key, truthy}
use rexharge_citrineos_core.Cache.Memory.{
  Task, expire, wake, MemoryCache, seconds, timer_delay, clear_timeout, start, expire_after,
  resolve_on_change, store, set, get, due_timers, later_timers, tick, wait,
}
use rexharge_citrineos_core.Cache.Memory.Invariant.{
  IsValid, IsForOther, All-map_of, All-append, All-later_timers, clear_timeout-IsForOther,
}
use rexharge_citrineos_core.Cache.Memory.Deletion.{
  IsDueAt, HasDeletion, HasDeletion-append, fire_all_timers, fire_all_other, fire_all_gone,
  fire_all_deletes, due_timers-other, later_timers-deletion, due_timers-deletion,
}

-- The key's only deletion is due at the given time.
record IsArmed (k : String) (d : ℕ) (c : MemoryCache) : Type 0 where
  due : All (λ t. IsDueAt k d t.due t.task) c.timers
  running : HasDeletion k c.timers

abbrev passed : MemoryCache → MemoryCache
passed c = record c { now = suc c.now; timers = later_timers (suc c.now) c.timers }

tick_now : (c : MemoryCache) → (tick c).now ≡ suc c.now
unfolding tick
tick_now c = (fire_all_timers (due_timers (suc c.now) c.timers) (passed c)).1

module _ (k : String) (d : ℕ) (c : MemoryCache) (a : IsArmed k d c) where
  tick-IsArmed : suc c.now < d → IsArmed k d (tick c)
  unfolding tick
  tick-IsArmed early =
      let (same, _) = fire_all_timers (due_timers (suc c.now) c.timers) (passed c) in
      record {
        due = rw same (All-later_timers _ (suc c.now) c.timers a.due);
        running = rw same (later_timers-deletion k d (suc c.now) c.timers early a.due a.running);
      }

  tick_early : suc c.now < d → (tick c).entries k ≡ c.entries k
  unfolding tick
  tick_early early =
      fire_all_other k _ (passed c) (due_timers-other k d (suc c.now) c.timers early a.due)

  tick_late : d ≤ suc c.now → (tick c).entries k ≡ none
  unfolding tick
  tick_late late =
      fire_all_deletes k _ (passed c)
        (due_timers-deletion k d (suc c.now) c.timers late a.due a.running)

tick_gone : (k : String) (c : MemoryCache) → c.entries k ≡ none → (tick c).entries k ≡ none
unfolding tick
tick_gone k c h = fire_all_gone k (due_timers (suc c.now) c.timers) (passed c) h

wait_gone :
    (k : String) (n : ℕ) (c : MemoryCache) → c.entries k ≡ none → (wait n c).entries k ≡ none
unfolding wait
wait_gone k zero c h = h
wait_gone k (suc n) c h = wait_gone k n (tick c) (tick_gone k c h)

-- An armed entry stays as it is until its time has come, and then it is gone for good.
wait_armed :
    (k : String) (d n : ℕ) (c : MemoryCache)
    → IsArmed k d c
    → c.now < d
    → (wait n c).entries k ≡ (if ltb (c.now + n) d then c.entries k else none)
unfolding wait
wait_armed k d zero c a h = ground arith
wait_armed k d (suc n) c a h = elim (Bool-cases (ltb (suc c.now) d)) [
  | inl early ↦ ground (
    arith,
    wait_armed k d n (tick c) (tick-IsArmed k d c a (ground arith)),
    tick_early k d c a,
    tick_now c,
  )
  | inr late ↦ ground (arith, wait_gone k n (tick c) (tick_late k d c a (ground arith)))
]

due_of_other : (k : String) (d due : ℕ) (task : Task) → IsForOther k task → IsDueAt k d due task
due_of_other k d due (expire j) other = λ same. absurd (other same)
due_of_other k d due (wake w j) other = tt

-- Once the noted timeout is cleared, the one that is started is the key's only deletion.
store-IsArmed :
    (k value : String) (e : ℕ) (c : MemoryCache)
    → IsValid c
    → timer_delay (seconds (suc e)) ≡ seconds (suc e)
    → IsArmed k (c.now + seconds (suc e)) (store k value (some (suc e)) c)
unfolding store expire_after start resolve_on_change
store-IsArmed k value e c v fits = record {
  due =
      All-append _ (clear_timeout (c.timeouts k) c.timers) _
        (All-map_of _ (λ t o. due_of_other k _ t.due t.task o.1) _
          (clear_timeout-IsForOther c.next_id c.timeouts k c.timers v.owned))
        ((λ _. ap (λ d. c.now + d) fits), tt);
  running = HasDeletion-append k (clear_timeout (c.timeouts k) c.timers) _ (inl refl);
}

store_entry :
    (k value : String) (e : Option ℕ) (c : MemoryCache)
    → ((store k value e c).entries k ≡ some value) × ((store k value e c).now ≡ c.now)
unfolding store expire_after start resolve_on_change
store_entry k value none c = ground (arith, eq_refl k)
store_entry k value (some zero) c = ground (arith, eq_refl k)
store_entry k value (some (suc e)) c = ground (arith, eq_refl k)

ltb-add_left : (a n d : ℕ) → ltb (a + n) (a + d) ≡ ltb n d
ltb-add_left a n d = ground arith

truthy_if :
    (b : Bool) (o : Option String) → truthy (if b then o else none) ≡ (if b then truthy o else none)
truthy_if true o = refl
truthy_if false o = refl

read_text : (value : String) → value ≢ "" → truthy (some value) ≡ some value
read_text value h = ground (arith, eq_iff value "")

delay_fits : (e : ℕ) → suc e ≤ 2147483 → timer_delay (seconds (suc e)) ≡ seconds (suc e)
delay_fits e h = ground arith

-- In a valid cache, whatever was written to the key and removed before: a text that is not empty, set
-- with an expiry of 1 to 2147483 seconds, is read for exactly that many thousand milliseconds in which
-- nothing else is called, and nothing is read from then on. (With more seconds the milliseconds do not
-- fit in the 31 bits that setTimeout takes.)
pub get-set_expiry :
    (key value : String) (namespace : Option String) (e n : ℕ) (c : MemoryCache)
    → IsValid c
    → 0 < e
    → e ≤ 2147483
    → value ≢ ""
    → get key namespace (wait n (set key value namespace (some e) c))
      ≡ (if ltb n (seconds e) then some value else none)
unfolding get set store
get-set_expiry key value namespace zero n c v pos fits given = absurd (omega arith)
get-set_expiry key value namespace (suc e) n c v pos fits given =
    let k = full_key key namespace in
    let stored = store k value (some (suc e)) c in
    let (entry, time) = store_entry k value (some (suc e)) c in
    ap truthy (
      wait_armed k (c.now + seconds (suc e)) n stored
        (store-IsArmed k value e c v (delay_fits e fits)) (omega arith))
    ∙ ap (λ b. truthy (if b then stored.entries k else none))
        (ltb-add_left c.now n (seconds (suc e)))
    ∙ truthy_if (ltb n (seconds (suc e))) (stored.entries k)
    ∙ ap (λ o. if ltb n (seconds (suc e)) then truthy o else none) entry
    ∙ ap (λ o. if ltb n (seconds (suc e)) then o else none) (read_text value given)
