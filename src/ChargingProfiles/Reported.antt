-- ===== src/ChargingProfiles/Reported.antt =====
-- The profiles that a station reports are active afterwards.
use rexharge_citrineos_core.Prelude.{
  ◌≡◌, refl, sym, ap, subst, ◌∙◌, ℕ, String, Option, none, some, Bool, true, false, List, [], ◌∷◌,
  ◌++◌, All, Bool-cases, inl, inr, ◌⊎◌, ◌==◌, any, get_or,
}
use rexharge_citrineos_core.Prelude.Int.{ℤ}
use rexharge_citrineos_core.Rpc.Message.{ok, throw, Exception}
use rexharge_citrineos_core.ChargingProfiles.{Profile, Source}
use rexharge_citrineos_core.ChargingProfiles.Store.{
  Row, Tables, Place, is_row, find_row, new_row, updated_row, update_row, insert_row,
  replace_profile, delete_schedules, create_profile, create_or_replace, create_or_update,
  is_numbered, Written,
}
use rexharge_citrineos_core.ChargingProfiles.Stored.{
  IsFresh, create_or_update-IsStored, profiles-create,
}
use rexharge_citrineos_core.ChargingProfiles.Fresh.{create_or_update-IsFresh}
use rexharge_citrineos_core.ChargingProfiles.Handlers.{Sender, place_in, store_reported}

-- The row that a query finds first is active.
abbrev pub IsOn : (Row → Bool) → List Row → Type 0
IsOn q rows = (r : Row) × (find_row q rows ≡ some r) × (r.is_active ≡ true)

Written-cases :
    (w : Written)
    → ((t : Tables) × (w ≡ (ok tt, t))) ⊎ ((e : Exception) × (t : Tables) × (w ≡ (throw e, t)))
Written-cases (ok u, t) = inl (t, refl)
Written-cases (throw e, t) = inr (e, t, refl)

module _ (q : Row → Bool) where
  update-IsOn :
      (f : Row → Row) (key : ℕ) (rows : List Row)
      → ((x : Row) → q (f x) ≡ q x)
      → ((x : Row) → (f x).is_active ≡ true)
      → IsOn q rows
      → IsOn q (update_row key f rows)
  unfolding find_row update_row
  update-IsOn f key [] same on (r, h, a) = cc
  update-IsOn f key (x ∷ rows) same on (r, h, a) = elim (Bool-cases (q x)) [
    | inl e ↦ elim (Bool-cases (x.database_id == key)) [
      | inl k ↦ rw (k, same x, e) (f x, refl, on x)
      | inr k ↦ rw (k, e) (x, refl, cc (rw e at h, a))
    ]
    | inr e ↦
        let rest = update-IsOn f key rows same on (r, rw e at h, a) in
        elim (Bool-cases (x.database_id == key)) [
          | inl k ↦ rw (k, same x, e) rest
          | inr k ↦ rw (k, e) rest
        ]
  ]

  append-IsOn : (rows : List Row) (x : Row) → IsOn q rows → IsOn q (rows ++ x ∷ [])
  unfolding find_row
  append-IsOn [] x (r, h, a) = cc
  append-IsOn (y ∷ rows) x (r, h, a) = elim (Bool-cases (q y)) [
    | inl e ↦ rw e (r, rw e at h, a)
    | inr e ↦ rw e (append-IsOn rows x (r, rw e at h, a))
  ]

module _ (place : Place) (p : Profile) (transaction : Option ℕ) (t : Tables) where
  module _ (tenant : ℕ) (station : String) (id : ℕ) where
    keeps-created :
        IsOn (is_row tenant station id) t.profiles
        → IsOn (is_row tenant station id) (create_profile place p transaction t).1.profiles
    unfolding create_profile
    keeps-created on = elim (Bool-cases (any (is_numbered place.station p.id) t.profiles)) [
      | inl taken ↦ rw taken on
      | inr free ↦
          let r = new_row t.next_profile place p transaction in
          rw free (
            subst (IsOn (is_row tenant station id))
              (sym (profiles-create place t.next_profile p.schedules (insert_row r t)))
              (append-IsOn (is_row tenant station id) t.profiles r on))
    ]

    keeps-replaced :
        (r : Row)
        → place.is_active ≡ some true
        → IsOn (is_row tenant station id) t.profiles
        → IsOn (is_row tenant station id) (replace_profile place p transaction r t).1.profiles
    unfolding replace_profile delete_schedules
    keeps-replaced r active on =
        subst (IsOn (is_row tenant station id))
          (sym (profiles-create place r.database_id p.schedules _))
          (update-IsOn (is_row tenant station id) (updated_row place p transaction) r.database_id
            t.profiles (λ x. refl) (λ x. ap (λ b. get_or b false) active) on)

    keeps-found :
        (found : Option Row)
        → place.is_active ≡ some true
        → IsOn (is_row tenant station id) t.profiles
        → IsOn (is_row tenant station id) (create_or_replace place p transaction found t).1.profiles
    unfolding create_or_replace
    keeps-found none active on = keeps-created on
    keeps-found (some r) active on = keeps-replaced r active on

    -- Storing a profile as active leaves the others active that are.
    keeps-IsOn :
        place.is_active ≡ some true
        → IsOn (is_row tenant station id) t.profiles
        → IsOn (is_row tenant station id) (create_or_update place p transaction t).1.profiles
    unfolding create_or_update
    keeps-IsOn active on = keeps-found _ active on

  stored-IsOn :
      IsFresh t
      → place.is_active ≡ some true
      → (create_or_update place p transaction t).0 ≡ ok tt
      → IsOn
          (is_row place.tenant place.station p.id)
          (create_or_update place p transaction t).1.profiles
  stored-IsOn fresh active done =
      let (r, stored) = create_or_update-IsStored place p transaction t fresh done in
      (r, stored.found, stored.active ∙ ap (λ b. get_or b false) active)

module _ (s : Sender) (evse : ℤ) (source : Source) where
  abbrev place_here : Place
  place_here = place_in s (some evse) (some source) (some true)

  reported-keeps :
      (ps : List (Profile × Option ℕ)) (t : Tables) (id : ℕ)
      → IsOn (is_row s.tenant s.station id) t.profiles
      → IsOn (is_row s.tenant s.station id) (store_reported s evse source ps t).1.profiles
  unfolding store_reported
  reported-keeps [] t id on = on
  reported-keeps ((p, transaction) ∷ ps) t id on =
      let kept = keeps-IsOn place_here p transaction t s.tenant s.station id refl on in
      elim (Written-cases (create_or_update place_here p transaction t)) [
        | inl (t', e) ↦ let more = reported-keeps ps t' id (rw e at kept) in rw e more
        | inr (x, t', e) ↦ rw e (rw e at kept)
      ]

  -- Where the keys are fresh and every reported profile could be stored, each of them is found active
  -- afterwards, under the tenant and the station of the message.
  pub store_reported-IsOn :
      (ps : List (Profile × Option ℕ)) (t : Tables)
      → IsFresh t
      → (store_reported s evse source ps t).0 ≡ ok tt
      → All
          (λ x.
            IsOn (is_row s.tenant s.station x.0.id) (store_reported s evse source ps t).1.profiles)
          ps
  unfolding store_reported
  store_reported-IsOn [] t fresh h = tt
  store_reported-IsOn ((p, transaction) ∷ ps) t fresh h =
      let on = stored-IsOn place_here p transaction t fresh refl in
      let fresh' = create_or_update-IsFresh place_here p transaction t fresh in
      elim (Written-cases (create_or_update place_here p transaction t)) [
        | inl (t', e) ↦
            let same : store_reported s evse source ((p, transaction) ∷ ps) t
                ≡ store_reported s evse source ps t' =
              rw e refl in
            let h' = ap (λ x. x.0) (sym same) ∙ h in
            subst
              (λ x.
                All (λ y. IsOn (is_row s.tenant s.station y.0.id) x.1.profiles)
                  ((p, transaction) ∷ ps))
              (sym same)
              ((
                reported-keeps ps t' p.id (
                    subst (λ w. IsOn (is_row s.tenant s.station p.id) w.1.profiles) e
                      (on (ap (λ w. w.0) e))),
                store_reported-IsOn ps t' (subst (λ w. IsFresh w.1) e fresh') h',
              ))
        | inr (x, t', e) ↦ cc (rw e at h)
      ]
