-- ===== src/ChargingProfiles/Stored.antt =====
-- What createOrUpdateChargingProfile leaves in the tables.
use rexharge_citrineos_core.Prelude.{
  ◌≡◌, ◌≢◌, refl, sym, ap, ◌∙◌, subst, ℕ, ◌<◌, Option, none, some, Bool, true, false, not, List, [],
  ◌∷◌, ◌++◌, map, arith, All, Bool-cases, inl, inr, ◌==◌, eq_refl, get_or, any,
}
use mathlib.Core.List.{append-nil, append_assoc}
use rexharge_citrineos_core.Rpc.Message.{ok}
use rexharge_citrineos_core.ChargingProfiles.{Profile, Schedule, cso}
use rexharge_citrineos_core.ChargingProfiles.Store.{
  Row, ScheduleRow, Tables, Place, filter, is_row, find_row, new_row, updated_row, update_row,
  has_profile, delete_schedules, create_schedule, create_schedules, insert_row, replace_profile,
  create_profile, create_or_replace, create_or_update, is_numbered, is_scheduled,
}

-- The schedules of a profile, in the order in which they were stored.
abbrev pub schedules_of : ℕ → List ScheduleRow → List Schedule
schedules_of key rows = map (λ s. s.schedule) (filter (has_profile key) rows)

-- No profile has a key that is not given out yet, and no schedule refers to one.
abbrev pub IsFresh : Tables → Type 0
IsFresh t =
    All (λ r. r.database_id < t.next_profile) t.profiles
    × All (λ s. s.profile_database_id < t.next_profile) t.schedules

fresh-schedules_of :
    (key : ℕ) (rows : List ScheduleRow)
    → All (λ s. s.profile_database_id < key) rows
    → schedules_of key rows ≡ []
unfolding filter
fresh-schedules_of key [] h = refl
fresh-schedules_of key (s ∷ rows) h =
    let away : (s.profile_database_id == key) ≡ false = ground arith in
    rw away (fresh-schedules_of key rows h.1)

schedules_of-here :
    (key : ℕ) (rows : List ScheduleRow) (x : ScheduleRow)
    → (x.profile_database_id == key) ≡ true
    → schedules_of key (rows ++ x ∷ []) ≡ schedules_of key rows ++ x.schedule ∷ []
unfolding filter
schedules_of-here key [] x h = rw h
schedules_of-here key (s ∷ rows) x h = elim (Bool-cases (s.profile_database_id == key)) [
  | inl e ↦ rw e (ap (◌∷◌ s.schedule) (schedules_of-here key rows x h))
  | inr e ↦ rw e (schedules_of-here key rows x h)
]

schedules_of-elsewhere :
    (key : ℕ) (rows : List ScheduleRow) (x : ScheduleRow)
    → (x.profile_database_id == key) ≡ false
    → schedules_of key (rows ++ x ∷ []) ≡ schedules_of key rows
unfolding filter
schedules_of-elsewhere key [] x h = rw h
schedules_of-elsewhere key (s ∷ rows) x h = elim (Bool-cases (s.profile_database_id == key)) [
  | inl e ↦ rw e (ap (◌∷◌ s.schedule) (schedules_of-elsewhere key rows x h))
  | inr e ↦ rw e (schedules_of-elsewhere key rows x h)
]

module _ (key : ℕ) where
  deleted-schedules_of :
      (rows : List ScheduleRow) → schedules_of key (filter (λ s. not (has_profile key s)) rows) ≡ []
  unfolding filter
  deleted-schedules_of [] = refl
  deleted-schedules_of (s ∷ rows) = elim (Bool-cases (s.profile_database_id == key)) [
    | inl e ↦ rw e (deleted-schedules_of rows)
    | inr e ↦ rw e (rw e (deleted-schedules_of rows))
  ]

  kept-schedules_of :
      (other : ℕ) (rows : List ScheduleRow)
      → other ≢ key
      → schedules_of other (filter (λ s. not (has_profile key s)) rows) ≡ schedules_of other rows
  unfolding filter
  kept-schedules_of other [] away = refl
  kept-schedules_of other (s ∷ rows) away = elim (Bool-cases (s.profile_database_id == key)) [
    | inl e ↦
        let gone : (s.profile_database_id == other) ≡ false = ground arith in
        rw (e, gone) (kept-schedules_of other rows away)
    | inr e ↦ elim (Bool-cases (s.profile_database_id == other)) [
      | inl f ↦ rw (e, f) (ap (◌∷◌ s.schedule) (kept-schedules_of other rows away))
      | inr f ↦ rw (e, f) (kept-schedules_of other rows away)
    ]
  ]

module _ (place : Place) (key : ℕ) where
  schedules_of-create :
      (ss : List Schedule) (t : Tables)
      → (create_schedules place key ss t).0 ≡ ok tt
      → schedules_of key (create_schedules place key ss t).1.schedules
        ≡ schedules_of key t.schedules ++ ss
  unfolding create_schedules
  schedules_of-create [] t h = sym (append-nil _)
  schedules_of-create (s ∷ ss) t h =
      elim (Bool-cases (any (is_scheduled place.station s.id) t.schedules)) [
        | inl taken ↦ cc (rw taken at h)
        | inr free ↦
            let rest = schedules_of-create ss (create_schedule place key s t) in
            rw free (
              rest (rw free at h)
              ∙ ap (λ l. l ++ ss) (schedules_of-here key t.schedules _ (ground arith))
              ∙ append_assoc (schedules_of key t.schedules) (s ∷ []) ss)
      ]

  others-create :
      (other : ℕ) (ss : List Schedule) (t : Tables)
      → other ≢ key
      → schedules_of other (create_schedules place key ss t).1.schedules
        ≡ schedules_of other t.schedules
  unfolding create_schedules
  others-create other [] t away = refl
  others-create other (s ∷ ss) t away =
      elim (Bool-cases (any (is_scheduled place.station s.id) t.schedules)) [
        | inl taken ↦ rw taken
        | inr free ↦
            let rest = others-create other ss (create_schedule place key s t) away in
            rw free (rest ∙ schedules_of-elsewhere other t.schedules _ (ground arith))
      ]

  pub profiles-create :
      (ss : List Schedule) (t : Tables) → (create_schedules place key ss t).1.profiles ≡ t.profiles
  unfolding create_schedules
  profiles-create [] t = refl
  profiles-create (s ∷ ss) t =
      elim (Bool-cases (any (is_scheduled place.station s.id) t.schedules)) [
        | inl taken ↦ rw taken
        | inr free ↦ let rest = profiles-create ss (create_schedule place key s t) in rw free rest
      ]

module _ (q : Row → Bool) where
  find-update :
      (f : Row → Row) (rows : List Row) (r : Row)
      → ((x : Row) → q (f x) ≡ q x)
      → find_row q rows ≡ some r
      → find_row q (update_row r.database_id f rows) ≡ some (f r)
  unfolding find_row update_row
  find-update f [] r same h = cc
  find-update f (x ∷ rows) r same h = elim (Bool-cases (q x)) [
    | inl e ↦
        (let same_row : x ≡ r = cc (rw e at h) in
          let own : (x.database_id == x.database_id) ≡ true = ground arith in
          subst (λ y. find_row q (update_row y.database_id f (x ∷ rows)) ≡ some (f y)) same_row
            (rw (own, same x, e) refl))
    | inr e ↦ elim (Bool-cases (x.database_id == r.database_id)) [
      | inl k ↦ rw (k, same x, e) (find-update f rows r same (rw e at h))
      | inr k ↦ rw (k, e) (find-update f rows r same (rw e at h))
    ]
  ]

  find-append :
      (rows : List Row) (r : Row)
      → find_row q rows ≡ none
      → q r ≡ true
      → find_row q (rows ++ r ∷ []) ≡ some r
  unfolding find_row
  find-append [] r h k = rw k
  find-append (x ∷ rows) r h k = elim (Bool-cases (q x)) [
    | inl e ↦ cc (rw e at h)
    | inr e ↦ rw e (find-append rows r (rw e at h) k)
  ]

is_row-new_row :
    (key : ℕ) (place : Place) (p : Profile) (transaction : Option ℕ)
    → is_row place.tenant place.station p.id (new_row key place p transaction) ≡ true
is_row-new_row key place p transaction =
    let a : (place.tenant == place.tenant) ≡ true = ground arith in
    let b : (p.id == p.id) ≡ true = ground arith in rw (a, b, eq_refl place.station)

-- How a profile stands in the tables.
pub record IsStored (place : Place) (p : Profile) (before after : Tables) (r : Row) : Type 0 where
  pub found : find_row (is_row place.tenant place.station p.id) after.profiles ≡ some r
  pub active : r.is_active ≡ get_or place.is_active false
  pub source : r.source ≡ get_or place.source cso
  pub level : r.stack_level ≡ p.stack_level
  pub purpose : r.purpose ≡ p.purpose
  pub own : schedules_of r.database_id after.schedules ≡ p.schedules
  pub others :
      (key : ℕ)
      → key ≢ r.database_id
      → schedules_of key after.schedules ≡ schedules_of key before.schedules

module _ (place : Place) (p : Profile) (transaction : Option ℕ) (t : Tables) where
  replace-IsStored :
      (r : Row)
      → find_row (is_row place.tenant place.station p.id) t.profiles ≡ some r
      → (replace_profile place p transaction r t).0 ≡ ok tt
      → IsStored place p t
          (replace_profile place p transaction r t).1
          (updated_row place p transaction r)
  unfolding replace_profile delete_schedules
  replace-IsStored r h done =
      let f = updated_row place p transaction in
      let q = is_row place.tenant place.station p.id in
      let cleared =
        delete_schedules r.database_id
          (record t { profiles = update_row r.database_id f t.profiles }) in
      record {
        found =
            ap (find_row q) (profiles-create place r.database_id p.schedules cleared)
            ∙ find-update q f t.profiles r (λ x. refl) h;
        active = refl;
        source = refl;
        level = refl;
        purpose = refl;
        own =
            schedules_of-create place r.database_id p.schedules cleared done
            ∙ ap (λ l. l ++ p.schedules) (deleted-schedules_of r.database_id t.schedules);
        others = λ key away.
            others-create place r.database_id key p.schedules cleared away
            ∙ kept-schedules_of r.database_id key t.schedules away;
      }

  created-IsStored :
      IsFresh t
      → find_row (is_row place.tenant place.station p.id) t.profiles ≡ none
      → let created =
          create_schedules place t.next_profile p.schedules
            (insert_row (new_row t.next_profile place p transaction) t) in
        created.0 ≡ ok tt
        → IsStored place p t created.1 (new_row t.next_profile place p transaction)
  created-IsStored fresh h done =
      let r = new_row t.next_profile place p transaction in
      let q = is_row place.tenant place.station p.id in
      record {
        found =
            ap (find_row q) (profiles-create place t.next_profile p.schedules (insert_row r t))
            ∙ find-append q t.profiles r h (is_row-new_row t.next_profile place p transaction);
        active = refl;
        source = refl;
        level = refl;
        purpose = refl;
        own =
            schedules_of-create place t.next_profile p.schedules (insert_row r t) done
            ∙ ap (λ l. l ++ p.schedules) (fresh-schedules_of t.next_profile t.schedules fresh.1);
        others =
            λ key away. others-create place t.next_profile key p.schedules (insert_row r t) away;
      }

  create-IsStored :
      IsFresh t
      → find_row (is_row place.tenant place.station p.id) t.profiles ≡ none
      → (create_profile place p transaction t).0 ≡ ok tt
      → (r : Row) × IsStored place p t (create_profile place p transaction t).1 r
  unfolding create_profile
  create-IsStored fresh h done =
      elim (Bool-cases (any (is_numbered place.station p.id) t.profiles)) [
        | inl taken ↦ cc (rw taken at done)
        | inr free ↦
            rw free (
              new_row t.next_profile place p transaction,
              created-IsStored fresh h (rw free at done),
            )
      ]

  store-IsStored :
      IsFresh t
      → (found : Option Row) → find_row (is_row place.tenant place.station p.id) t.profiles ≡ found
      → (create_or_replace place p transaction found t).0 ≡ ok tt
      → (r : Row) × IsStored place p t (create_or_replace place p transaction found t).1 r
  unfolding create_or_replace
  store-IsStored fresh none h done = create-IsStored fresh h done
  store-IsStored fresh (some r) h done =
      (updated_row place p transaction r, replace-IsStored r h done)

  -- Where the keys of the database are fresh, a profile that is stored to the end is found afterwards
  -- under its tenant, station and number, as active and from the source that was asked for, with its
  -- stack level and purpose; its schedules are exactly those that were given, in their order, whatever
  -- it had before, and no other profile's schedules change.
  pub create_or_update-IsStored :
      IsFresh t
      → (create_or_update place p transaction t).0 ≡ ok tt
      → (r : Row) × IsStored place p t (create_or_update place p transaction t).1 r
  unfolding create_or_update
  create_or_update-IsStored fresh done = store-IsStored fresh _ refl done
