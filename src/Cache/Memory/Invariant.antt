-- ===== src/Cache/Memory/Invariant.antt =====
-- The running timeouts of the cache in memory: each one that deletes a key is the one noted for it, and
-- no two are the same.
use rexharge_citrineos_core.Prelude.{
  ℕ, zero, suc, eq_refl, ◌<◌, ◌≡◌, ap, ◌≢◌, String, Option, none, some, List, [], ◌∷◌, ◌++◌, Dict,
  arith, eq_iff, All, leb, Bool-cases, Option-cases, inl, inr, ◌==◌, insert,
}
use rexharge_citrineos_core.Cache.Store.{full_key}
use rexharge_citrineos_core.Cache.Memory.{
  Task, expire, wake, Timer, MemoryCache, init, cancel, clear_timeout, start, expire_after,
  resolve_on_change, store, set, set_if_not_exist, remove_key, on_change, fire, fire_all,
  due_timers, later_timers, tick,
}

-- A timeout is the one noted for its key, if it deletes one.
abbrev pub IsNoted : Dict ℕ → ℕ → Task → Type 0
IsNoted noted id (expire k) = noted k ≡ some id
IsNoted noted id (wake w k) = Unit

abbrev pub IsOwned : ℕ → Dict ℕ → Timer → Type 0
IsOwned next noted t = (t.id < next) × IsNoted noted t.id t.task

-- No two timeouts have the same identity.
abbrev pub AreDistinct : List Timer → Type 0
AreDistinct [] = Unit
AreDistinct (t ∷ ts) = All (λ u. u.id ≢ t.id) ts × AreDistinct ts

pub record IsValid (c : MemoryCache) : Type 0 where
  pub owned : All (IsOwned c.next_id c.timeouts) c.timers
  pub all_distinct : AreDistinct c.timers
  pub past : (k : String) (id : ℕ) → c.timeouts k ≡ some id → id < c.next_id

module _ {ℓ} (P : Timer → Type ℓ) where
  pub All-map_of {κ} :
      {Q : Timer → Type κ} → ((t : Timer) → P t → Q t) → (ts : List Timer) → All P ts → All Q ts
  All-map_of f [] h = tt
  All-map_of f (t ∷ ts) (p, h) = (f t p, All-map_of f ts h)

  pub All-append : (ts us : List Timer) → All P ts → All P us → All P (ts ++ us)
  All-append [] us h k = k
  All-append (t ∷ ts) us (p, h) k = (p, All-append ts us h k)

  pub All-later_timers : (now : ℕ) (ts : List Timer) → All P ts → All P (later_timers now ts)
  unfolding later_timers
  All-later_timers now [] h = tt
  All-later_timers now (t ∷ ts) (p, h) = elim (Bool-cases (leb t.due now)) [
    | inl due ↦ rw due (All-later_timers now ts h)
    | inr later ↦ rw later (p, All-later_timers now ts h)
  ]

  All-cancel : (id : ℕ) (ts : List Timer) → All P ts → All (λ t. P t × (t.id ≢ id)) (cancel id ts)
  unfolding cancel
  All-cancel id [] h = tt
  All-cancel id (t ∷ ts) (p, h) = elim (Bool-cases (t.id == id)) [
    | inl same ↦ rw same (All-cancel id ts h)
    | inr other ↦ rw other ((p, ground arith), All-cancel id ts h)
  ]

later_timers-AreDistinct :
    (now : ℕ) (ts : List Timer) → AreDistinct ts → AreDistinct (later_timers now ts)
unfolding later_timers
later_timers-AreDistinct now [] h = tt
later_timers-AreDistinct now (t ∷ ts) (p, h) = elim (Bool-cases (leb t.due now)) [
  | inl due ↦ rw due (later_timers-AreDistinct now ts h)
  | inr later ↦ rw later (All-later_timers _ now ts p, later_timers-AreDistinct now ts h)
]

cancel-AreDistinct : (id : ℕ) (ts : List Timer) → AreDistinct ts → AreDistinct (cancel id ts)
unfolding cancel
cancel-AreDistinct id [] h = tt
cancel-AreDistinct id (t ∷ ts) (p, h) = elim (Bool-cases (t.id == id)) [
  | inl same ↦ rw same (cancel-AreDistinct id ts h)
  | inr other ↦
      rw other (All-map_of _ (λ u q. q.0) _ (All-cancel _ id ts p), cancel-AreDistinct id ts h)
]

clear_timeout-AreDistinct :
    (o : Option ℕ) (ts : List Timer) → AreDistinct ts → AreDistinct (clear_timeout o ts)
clear_timeout-AreDistinct none ts h = h
clear_timeout-AreDistinct (some id) ts h = cancel-AreDistinct id ts h

-- A timeout with the next identity is new.
append-AreDistinct :
    (u : Timer) (ts : List Timer)
    → All (λ t. t.id < u.id) ts
    → AreDistinct ts
    → AreDistinct (ts ++ u ∷ [])
append-AreDistinct u [] below h = (tt, tt)
append-AreDistinct u (t ∷ ts) (less, below) (p, h) =
    (All-append _ ts (u ∷ []) p (λ same. omega arith, tt), append-AreDistinct u ts below h)

-- A timeout that does not delete the key.
abbrev pub IsForOther : String → Task → Type 0
IsForOther k (expire j) = j ≢ k
IsForOther k (wake w j) = Unit

other_of_id :
    (noted : Dict ℕ) (id : ℕ) (k : String) (t : ℕ) (task : Task)
    → noted k ≡ some id
    → IsNoted noted t task
    → t ≢ id
    → IsForOther k task
other_of_id noted id k t (expire j) e h ne = λ same. ne (ground (arith, ap noted same))
other_of_id noted id k t (wake w j) e h ne = tt

other_of_none :
    (noted : Dict ℕ) (k : String) (t : ℕ) (task : Task)
    → noted k ≡ none
    → IsNoted noted t task
    → IsForOther k task
other_of_none noted k t (expire j) e h = λ same. ground (arith, ap noted same)
other_of_none noted k t (wake w j) e h = tt

-- After clearTimeout on the noted timeout of a key no running one deletes the key.
pub clear_timeout-IsForOther :
    (next : ℕ) (noted : Dict ℕ) (k : String) (ts : List Timer)
    → All (IsOwned next noted) ts
    → All (λ t. IsOwned next noted t × IsForOther k t.task) (clear_timeout (noted k) ts)
clear_timeout-IsForOther next noted k ts h = elim (Option-cases (noted k)) [
  | inl e ↦ rw e (All-map_of _ (λ t o. (o, other_of_none noted k t.id t.task e o.1)) ts h)
  | inr (id, e) ↦ rw e (
      All-map_of _ (λ t o. (o.0, other_of_id noted id k t.id t.task e o.0.1 o.1)) _
        (All-cancel _ id ts h))
]

module _ (next : ℕ) (noted : Dict ℕ) (k : String) where
  IsNoted-insert :
      (t : ℕ) (task : Task)
      → IsNoted noted t task
      → IsForOther k task
      → IsNoted (insert k next noted) t task
  IsNoted-insert t (expire j) h other = ground (arith, eq_iff k j)
  IsNoted-insert t (wake w j) h other = tt

  IsOwned-insert :
      (t : Timer)
      → IsOwned next noted t × IsForOther k t.task
      → IsOwned (suc next) (insert k next noted) t
  IsOwned-insert t (o, other) = (omega arith, IsNoted-insert t.id t.task o.1 other)

IsOwned-suc :
    (next : ℕ) (noted : Dict ℕ) (t : Timer) → IsOwned next noted t → IsOwned (suc next) noted t
IsOwned-suc next noted t o = (omega arith, o.1)

-- The state between clearTimeout and the new timeout of a key.
IsCleared : String → MemoryCache → Type 0
IsCleared k c = All (λ t. IsOwned c.next_id c.timeouts t × IsForOther k t.task) c.timers

expire_after-IsValid :
    (k : String) (e : Option ℕ) (c : MemoryCache)
    → IsCleared k c
    → AreDistinct c.timers
    → ((j : String) (id : ℕ) → c.timeouts j ≡ some id → id < c.next_id)
    → IsValid (expire_after k e c)
unfolding expire_after start IsCleared
expire_after-IsValid k none c h d past = record {
  owned = All-map_of _ (λ t o. o.0) _ h;
  all_distinct = d;
  past = past;
}
expire_after-IsValid k (some zero) c h d past = record {
  owned = All-map_of _ (λ t o. o.0) _ h;
  all_distinct = d;
  past = past;
}
expire_after-IsValid k (some (suc e)) c h d past = record {
  all_distinct = append-AreDistinct _ c.timers (All-map_of _ (λ t o. o.0.0) _ h) d;
  owned =
      All-append _ c.timers _ (All-map_of _ (IsOwned-insert c.next_id c.timeouts k) _ h)
        ((omega arith, ground (arith, eq_refl k)), tt);
  past = λ j id. ground (arith, past j id);
}

resolve_on_change-IsValid :
    (k value : String) (c : MemoryCache) → IsValid c → IsValid (resolve_on_change k value c)
unfolding resolve_on_change
resolve_on_change-IsValid k value c v = record {
  owned = v.owned;
  all_distinct = v.all_distinct;
  past = v.past;
}

store-IsValid :
    (k value : String) (e : Option ℕ) (c : MemoryCache) → IsValid c → IsValid (store k value e c)
unfolding store IsCleared
store-IsValid k value e c v = resolve_on_change-IsValid k value _ (
    expire_after-IsValid k e _ (clear_timeout-IsForOther c.next_id c.timeouts k c.timers v.owned)
      (clear_timeout-AreDistinct (c.timeouts k) c.timers v.all_distinct) v.past)

remove_key-IsValid :
    (key : String) (namespace : Option String) (c : MemoryCache)
    → IsValid c
    → IsValid (remove_key key namespace c).1
unfolding remove_key
remove_key-IsValid key namespace c v = record {
  owned = v.owned;
  all_distinct = v.all_distinct;
  past = v.past;
}

set_if_not_exist-IsValid :
    (key value : String) (namespace : Option String) (e : Option ℕ) (c : MemoryCache)
    → IsValid c
    → IsValid (set_if_not_exist key value namespace e c).1
unfolding set_if_not_exist
set_if_not_exist-IsValid key value namespace e c v =
    ground (arith, store-IsValid (full_key key namespace) value e c v, v)

on_change-IsValid :
    (key : String) (seconds : ℕ) (namespace : Option String) (c : MemoryCache)
    → IsValid c
    → IsValid (on_change key seconds namespace c).1
unfolding on_change start
on_change-IsValid key seconds namespace c v = record {
  all_distinct =
      append-AreDistinct _ c.timers (All-map_of _ (λ t o. o.0) c.timers v.owned) v.all_distinct;
  owned =
      All-append _ c.timers _ (All-map_of _ (λ t o. (omega arith, o.1)) c.timers v.owned)
        ((omega arith, tt), tt);
  past = λ k id. ground (arith, v.past k id);
}

fire-IsValid : (task : Task) (c : MemoryCache) → IsValid c → IsValid (fire task c)
unfolding fire
fire-IsValid (expire k) c v = record {
  owned = v.owned;
  all_distinct = v.all_distinct;
  past = v.past;
}
fire-IsValid (wake w k) c v = record {
  owned = v.owned;
  all_distinct = v.all_distinct;
  past = v.past;
}

fire_all-IsValid : (ts : List Timer) (c : MemoryCache) → IsValid c → IsValid (fire_all ts c)
unfolding fire_all
fire_all-IsValid [] c v = v
fire_all-IsValid (t ∷ ts) c v = fire_all-IsValid ts _ (fire-IsValid t.task c v)

tick-IsValid : (c : MemoryCache) → IsValid c → IsValid (tick c)
unfolding tick
tick-IsValid c v =
    fire_all-IsValid (due_timers (suc c.now) c.timers)
      (record c { now = suc c.now; timers = later_timers (suc c.now) c.timers })
      (record {
        owned = All-later_timers _ (suc c.now) c.timers v.owned;
        all_distinct = later_timers-AreDistinct (suc c.now) c.timers v.all_distinct;
        past = v.past;
      })

-- One call on the cache, or a millisecond in which timeouts run.
pub data Step : MemoryCache → MemoryCache → Type 0 where
  sets :
      {c : MemoryCache} (key value : String) (namespace : Option String) (e : Option ℕ)
      → Step c (set key value namespace e c)
  sets_if_not_exist :
      {c : MemoryCache} (key value : String) (namespace : Option String) (e : Option ℕ)
      → Step c (set_if_not_exist key value namespace e c).1
  removes :
      {c : MemoryCache} (key : String) (namespace : Option String)
      → Step c (remove_key key namespace c).1
  awaits :
      {c : MemoryCache} (key : String) (seconds : ℕ) (namespace : Option String)
      → Step c (on_change key seconds namespace c).1
  ticks : {c : MemoryCache} → Step c (tick c)

pub data Reach (c : MemoryCache) : MemoryCache → Type 0 where
  here : Reach c c
  next : {d e : MemoryCache} → Reach c d → Step d e → Reach c e

Step-IsValid : {c d : MemoryCache} → Step c d → IsValid c → IsValid d
unfolding set
Step-IsValid (sets {c} key value namespace e) v = store-IsValid (full_key key namespace) value e c v
Step-IsValid (sets_if_not_exist {c} key value namespace e) v =
    set_if_not_exist-IsValid key value namespace e c v
Step-IsValid (removes {c} key namespace) v = remove_key-IsValid key namespace c v
Step-IsValid (awaits {c} key seconds namespace) v = on_change-IsValid key seconds namespace c v
Step-IsValid (ticks {c}) v = tick-IsValid c v

Reach-keeps : {c d : MemoryCache} → Reach c d → IsValid c → IsValid d
Reach-keeps here v = v
Reach-keeps (next r st) v = Step-IsValid st (Reach-keeps r v)

-- In every state that calls and the passing of time can reach from the empty cache, a running timeout
-- that deletes a key is the one noted for that key, no two running timeouts have the same identity, and
-- the next identity is above that of every timeout that runs or is noted.
pub Reach-IsValid : (c : MemoryCache) → Reach init c → IsValid c
Reach-IsValid c r = Reach-keeps r (record { owned = tt; all_distinct = tt; past = λ k id. cc })
