-- ===== src/ChargingProfiles/Fresh.antt =====
-- The keys that the tables use are given out.
use rexharge_citrineos_core.Prelude.{
  ◌≡◌, refl, subst, ℕ, suc, ◌<◌, Option, none, some, Bool, List, [], ◌∷◌, ◌++◌, arith, All,
  Bool-cases, inl, inr, any, ◌==◌,
}
use rexharge_citrineos_core.ChargingProfiles.{Profile, Schedule}
use rexharge_citrineos_core.ChargingProfiles.Store.{
  Row, ScheduleRow, Tables, Place, filter, is_row, find_row, new_row, updated_row, update_row,
  is_numbered, is_scheduled, delete_schedules, create_schedule, create_schedules, insert_row,
  replace_profile, create_profile, create_or_replace, create_or_update,
}
use rexharge_citrineos_core.ChargingProfiles.Stored.{IsFresh}

module _ {A : Type 0} (P : A → Type 0) where
  All-snoc : (xs : List A) (x : A) → All P xs → P x → All P (xs ++ x ∷ [])
  All-snoc [] x h p = (p, tt)
  All-snoc (y ∷ xs) x h p = (h.0, All-snoc xs x h.1 p)

  All-filter : (p : A → Bool) (xs : List A) → All P xs → All P (filter p xs)
  unfolding filter
  All-filter p [] h = tt
  All-filter p (x ∷ xs) h = elim (Bool-cases (p x)) [
    | inl e ↦ rw e (h.0, All-filter p xs h.1)
    | inr e ↦ rw e (All-filter p xs h.1)
  ]

  All-map_imp : (Q : A → Type 0) (xs : List A) → ((x : A) → P x → Q x) → All P xs → All Q xs
  All-map_imp Q [] f h = tt
  All-map_imp Q (x ∷ xs) f h = (f x h.0, All-map_imp Q xs f h.1)

-- a bound on the keys of rows, and on those that schedules refer to
abbrev KeysBelow : ℕ → List Row → Type 0
KeysBelow n = All (λ r. r.database_id < n)

abbrev RefersBelow : ℕ → List ScheduleRow → Type 0
RefersBelow n = All (λ s. s.profile_database_id < n)

found-below :
    (q : Row → Bool) (n : ℕ) (rows : List Row) {r : Row}
    → KeysBelow n rows
    → find_row q rows ≡ some r
    → r.database_id < n
unfolding find_row
found-below q n [] h e = cc
found-below q n (x ∷ rows) {r} h e = elim (Bool-cases (q x)) [
  | inl k ↦ let same : x ≡ r = cc (rw k at e) in subst (λ y. y.database_id < n) same h.0
  | inr k ↦ found-below q n rows h.1 (rw k at e)
]

update-below :
    (place : Place) (p : Profile) (transaction : Option ℕ) (key n : ℕ) (rows : List Row)
    → KeysBelow n rows
    → KeysBelow n (update_row key (updated_row place p transaction) rows)
unfolding update_row
update-below place p transaction key n [] h = tt
update-below place p transaction key n (x ∷ rows) h = elim (Bool-cases (x.database_id == key)) [
  | inl k ↦ rw k (h.0, update-below place p transaction key n rows h.1)
  | inr k ↦ rw k (h.0, update-below place p transaction key n rows h.1)
]

create_schedules-IsFresh :
    (place : Place) (key : ℕ) (ss : List Schedule) (t : Tables)
    → key < t.next_profile
    → IsFresh t
    → IsFresh (create_schedules place key ss t).1
unfolding create_schedules
create_schedules-IsFresh place key [] t k h = h
create_schedules-IsFresh place key (s ∷ ss) t k h =
    elim (Bool-cases (any (is_scheduled place.station s.id) t.schedules)) [
      | inl taken ↦ rw taken h
      | inr free ↦
          let rest =
            create_schedules-IsFresh place key ss (create_schedule place key s t) k
              (h.0, All-snoc (λ x. x.profile_database_id < t.next_profile) t.schedules _ h.1 k) in
          rw free rest
    ]

insert_row-IsFresh :
    (place : Place) (p : Profile) (transaction : Option ℕ) (t : Tables)
    → IsFresh t
    → IsFresh (insert_row (new_row t.next_profile place p transaction) t)
insert_row-IsFresh place p transaction t h = (
  All-snoc (λ r. r.database_id < suc t.next_profile) t.profiles _
      (All-map_imp (λ r. r.database_id < t.next_profile) (λ r. r.database_id < suc t.next_profile)
        t.profiles (λ x b. omega arith) h.0)
      (omega arith),
  All-map_imp (λ s. s.profile_database_id < t.next_profile)
      (λ s. s.profile_database_id < suc t.next_profile) t.schedules (λ x b. omega arith) h.1,
)

module _ (place : Place) (p : Profile) (transaction : Option ℕ) (t : Tables)
    (fresh : IsFresh t) where
  replace-IsFresh :
      (q : Row → Bool) (r : Row)
      → find_row q t.profiles ≡ some r
      → IsFresh (replace_profile place p transaction r t).1
  unfolding replace_profile delete_schedules
  replace-IsFresh q r h =
      create_schedules-IsFresh place r.database_id p.schedules _
        (found-below q t.next_profile t.profiles fresh.0 h)
        (
          update-below place p transaction r.database_id t.next_profile t.profiles fresh.0,
          All-filter (λ s. s.profile_database_id < t.next_profile) _ t.schedules fresh.1,
        )

  create-IsFresh : IsFresh (create_profile place p transaction t).1
  unfolding create_profile
  create-IsFresh = elim (Bool-cases (any (is_numbered place.station p.id) t.profiles)) [
    | inl taken ↦ rw taken fresh
    | inr free ↦ rw free (
        create_schedules-IsFresh place t.next_profile p.schedules _ (omega arith)
          (insert_row-IsFresh place p transaction t fresh))
  ]

  store-IsFresh :
      (found : Option Row)
      → find_row (is_row place.tenant place.station p.id) t.profiles ≡ found
      → IsFresh (create_or_replace place p transaction found t).1
  unfolding create_or_replace
  store-IsFresh none h = create-IsFresh
  store-IsFresh (some r) h = replace-IsFresh _ r h

  -- Storing a profile keeps the keys fresh, also where it fails on the way.
  pub create_or_update-IsFresh : IsFresh (create_or_update place p transaction t).1
  unfolding create_or_update
  create_or_update-IsFresh = store-IsFresh _ refl
