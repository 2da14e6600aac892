-- ===== src/Cache/Memory/Deletion.antt =====
-- The running timeouts that delete one key of the cache in memory, and what running them does.
use rexharge_citrineos_core.Prelude.{
  ℕ, ◌<◌, ◌≤◌, ◌≡◌, refl, ◌∙◌, ◌⊎◌, inl, inr, String, none, List, [], ◌∷◌, ◌++◌, arith, eq_iff, All,
  leb, Bool-cases, true, false,
}
use rexharge_citrineos_core.Cache.Memory.{
  Task, expire, wake, Timer, MemoryCache, fire, fire_all, due_timers, later_timers,
}
use rexharge_citrineos_core.Cache.Memory.Invariant.{IsForOther}

-- A timeout that deletes the key is due at the given time.
abbrev pub IsDueAt : String → ℕ → ℕ → Task → Type 0
IsDueAt k d due (expire j) = j ≡ k → due ≡ d
IsDueAt k d due (wake w j) = Unit

abbrev pub Deletes : String → Task → Type 0
Deletes k (expire j) = j ≡ k
Deletes k (wake w j) = ⊥

-- Some timeout of the list deletes the key.
abbrev pub HasDeletion : String → List Timer → Type 0
HasDeletion k [] = ⊥
HasDeletion k (t ∷ ts) = Deletes k t.task ⊎ HasDeletion k ts

pub HasDeletion-append :
    (k : String) (ts us : List Timer) → HasDeletion k us → HasDeletion k (ts ++ us)
HasDeletion-append k [] us h = h
HasDeletion-append k (t ∷ ts) us h = inr (HasDeletion-append k ts us h)

module _ (k : String) where
  fire_other :
      (task : Task) (c : MemoryCache) → IsForOther k task → (fire task c).entries k ≡ c.entries k
  unfolding fire
  fire_other (expire j) c h = ground (arith, eq_iff j k)
  fire_other (wake w j) c h = refl

  pub fire_all_other :
      (ts : List Timer) (c : MemoryCache)
      → All (λ t. IsForOther k t.task) ts
      → (fire_all ts c).entries k ≡ c.entries k
  unfolding fire_all
  fire_all_other [] c h = refl
  fire_all_other (t ∷ ts) c (p, h) = fire_all_other ts (fire t.task c) h ∙ fire_other t.task c p

  fire_gone : (task : Task) (c : MemoryCache) → c.entries k ≡ none → (fire task c).entries k ≡ none
  unfolding fire
  fire_gone (expire j) c h = ground arith
  fire_gone (wake w j) c h = h

  pub fire_all_gone :
      (ts : List Timer) (c : MemoryCache) → c.entries k ≡ none → (fire_all ts c).entries k ≡ none
  unfolding fire_all
  fire_all_gone [] c h = h
  fire_all_gone (t ∷ ts) c h = fire_all_gone ts (fire t.task c) (fire_gone t.task c h)

  fire-Deletes : (task : Task) (c : MemoryCache) → Deletes k task → (fire task c).entries k ≡ none
  unfolding fire
  fire-Deletes (expire j) c h = ground (arith, eq_iff j k)
  fire-Deletes (wake w j) c h = elim h [ ]

  pub fire_all_deletes :
      (ts : List Timer) (c : MemoryCache) → HasDeletion k ts → (fire_all ts c).entries k ≡ none
  unfolding fire_all
  fire_all_deletes [] c h = elim h [ ]
  fire_all_deletes (t ∷ ts) c (inl here) = fire_all_gone ts _ (fire-Deletes t.task c here)
  fire_all_deletes (t ∷ ts) c (inr later) = fire_all_deletes ts (fire t.task c) later

fire_timers :
    (task : Task) (c : MemoryCache)
    → ((fire task c).timers ≡ c.timers) × ((fire task c).now ≡ c.now)
unfolding fire
fire_timers (expire k) c = (refl, refl)
fire_timers (wake w k) c = (refl, refl)

pub fire_all_timers :
    (ts : List Timer) (c : MemoryCache)
    → ((fire_all ts c).timers ≡ c.timers) × ((fire_all ts c).now ≡ c.now)
unfolding fire_all
fire_all_timers [] c = (refl, refl)
fire_all_timers (t ∷ ts) c =
    let (p, q) = fire_all_timers ts (fire t.task c) in
    let (r, s) = fire_timers t.task c in (p ∙ r, q ∙ s)

module _ (k : String) (d now : ℕ) where
  -- Before the time has come no due timeout deletes the key, and the one that will still runs.
  other_of_early :
      (due : ℕ) (task : Task) → now < d → due ≤ now → IsDueAt k d due task → IsForOther k task
  other_of_early due (expire j) early h at = λ same. absurd (let e = at same in omega arith)
  other_of_early due (wake w j) early h at = tt

  pub due_timers-other :
      (ts : List Timer)
      → now < d
      → All (λ t. IsDueAt k d t.due t.task) ts
      → All (λ t. IsForOther k t.task) (due_timers now ts)
  unfolding due_timers
  due_timers-other [] early h = tt
  due_timers-other (t ∷ ts) early (p, h) = elim (Bool-cases (leb t.due now)) [
    | inl due ↦
        rw due (other_of_early t.due t.task early (ground arith) p, due_timers-other ts early h)
    | inr later ↦ rw later (due_timers-other ts early h)
  ]

  early_deletion :
      (due : ℕ) (task : Task)
      → now < d
      → leb due now ≡ true
      → IsDueAt k d due task
      → Deletes k task
      → ⊥
  early_deletion due (expire j) early h at same = let e = at same in ground arith
  early_deletion due (wake w j) early h at same = same

  pub later_timers-deletion :
      (ts : List Timer)
      → now < d
      → All (λ t. IsDueAt k d t.due t.task) ts
      → HasDeletion k ts
      → HasDeletion k (later_timers now ts)
  unfolding later_timers
  later_timers-deletion [] early p h = h
  later_timers-deletion (t ∷ ts) early (p, ps) (inl here) = elim (Bool-cases (leb t.due now)) [
    | inl due ↦ absurd (early_deletion t.due t.task early due p here)
    | inr later ↦ rw later (inl here)
  ]
  later_timers-deletion (t ∷ ts) early (p, ps) (inr h) = elim (Bool-cases (leb t.due now)) [
    | inl due ↦ rw due (later_timers-deletion ts early ps h)
    | inr later ↦ rw later (inr (later_timers-deletion ts early ps h))
  ]

  late_deletion :
      (due : ℕ) (task : Task)
      → d ≤ now
      → leb due now ≡ false
      → IsDueAt k d due task
      → Deletes k task
      → ⊥
  late_deletion due (expire j) late h at same = let e = at same in ground arith
  late_deletion due (wake w j) late h at same = same

  pub due_timers-deletion :
      (ts : List Timer)
      → d ≤ now
      → All (λ t. IsDueAt k d t.due t.task) ts
      → HasDeletion k ts
      → HasDeletion k (due_timers now ts)
  unfolding due_timers
  due_timers-deletion [] late p h = h
  due_timers-deletion (t ∷ ts) late (p, ps) (inl here) = elim (Bool-cases (leb t.due now)) [
    | inl due ↦ rw due (inl here)
    | inr later ↦ absurd (late_deletion t.due t.task late later p here)
  ]
  due_timers-deletion (t ∷ ts) late (p, ps) (inr h) = elim (Bool-cases (leb t.due now)) [
    | inl due ↦ rw due (inr (due_timers-deletion ts late ps h))
    | inr later ↦ rw later (due_timers-deletion ts late ps h)
  ]
