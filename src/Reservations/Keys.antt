-- ===== src/Reservations/Keys.antt =====
-- Two kinds of keys: the number of a reservation, and its key in the database.
use rexharge_citrineos_core.Prelude.{
  ◌≡◌, ◌≢◌, refl, ap, ◌∙◌, subst, ℕ, String, Option, none, some, Bool, true, false, List, [], ◌∷◌,
  ◌++◌, arith, Bool-cases, inl, inr, str_eq, ◌==◌, any, eq_refl,
}
use rexharge_citrineos_core.Rpc.Message.{Result, ok, throw}
use rexharge_citrineos_core.Reservations.{
  ReserveNowRequest, Reservation, Reservations, is_reservation, find, update_by_key, set_active,
  set_status, UpdateStatus, ends, handle_reservation_status_update, handle_cancel_reservation,
  handle_reserve_now, sent, reserve_now, reserve_stored, store_at, create_or_renew,
  create_or_update_reservation, created_row, renewed_row, is_taken, evse_key,
}

not_equal : (a b : ℕ) → a ≢ b → (a == b) ≡ false
not_equal a b h = ground arith

module _ (q : Reservation → Bool) where
  find-update :
      (f : Reservation → Reservation) (rows : List Reservation) (r : Reservation)
      → ((x : Reservation) → q (f x) ≡ q x)
      → find q rows ≡ some r
      → find q (update_by_key r.database_id f rows) ≡ some (f r)
  unfolding find update_by_key
  find-update f [] r same h = cc
  find-update f (x ∷ rows) r same h = elim (Bool-cases (q x)) [
    | inl e ↦
        (let same_row : x ≡ r = cc (rw e at h) in
          let own : (x.database_id == x.database_id) ≡ true = ground arith in
          subst (λ y. find q (update_by_key y.database_id f (x ∷ rows)) ≡ some (f y)) same_row
            (rw (own, same x, e) refl))
    | inr e ↦ elim (Bool-cases (x.database_id == r.database_id)) [
      | inl k ↦ rw (k, same x, e) (find-update f rows r same (rw e at h))
      | inr k ↦ rw (k, e) (find-update f rows r same (rw e at h))
    ]
  ]

  -- An update under another key leaves a row that is found as it is.
  find-missed :
      (key : ℕ) (f : Reservation → Reservation) (rows : List Reservation) (r : Reservation)
      → ((x : Reservation) → q (f x) ≡ q x)
      → r.database_id ≢ key
      → find q rows ≡ some r
      → find q (update_by_key key f rows) ≡ some r
  unfolding find update_by_key
  find-missed key f [] r same away h = cc
  find-missed key f (x ∷ rows) r same away h = elim (Bool-cases (q x)) [
    | inl e ↦
        (let same_row : x ≡ r = cc (rw e at h) in
          let other : (x.database_id == key) ≡ false =
            rw same_row (not_equal r.database_id key away) in
          rw (other, e) (ap some same_row))
    | inr e ↦ elim (Bool-cases (x.database_id == key)) [
      | inl k ↦ rw (k, same x, e) (find-missed key f rows r same away (rw e at h))
      | inr k ↦ rw (k, e) (find-missed key f rows r same away (rw e at h))
    ]
  ]

-- Where a reservation's number is not its key in the database, the answer of the station changes
-- nothing in it, neither that to a ReserveNow nor that to a CancelReservation, whatever it says: the
-- number is taken for the key.
pub answers_miss :
    (tenant : ℕ) (station : String) (id : ℕ) (status : String) (rejected : Bool) (s : Reservations)
    (r : Reservation)
    → find (is_reservation tenant station id) s.rows ≡ some r
    → r.database_id ≢ id
    → (find (is_reservation tenant station id) (handle_reserve_now (some id) status s).rows
        ≡ some r)
      × (find
            (is_reservation tenant station id)
            (handle_cancel_reservation (some id) rejected s).rows
          ≡ some r)
unfolding handle_reserve_now handle_cancel_reservation
answers_miss tenant station id status rejected s r h away = (
  find-missed _ id (set_status status (str_eq status "Accepted")) s.rows r (λ x. refl) away h,
  find-missed _ id (set_active rejected) s.rows r (λ x. refl) away h,
)

-- A station's notice that its reservation is expired or removed makes this reservation inactive.
status_update_ends :
    (tenant : ℕ) (station : String) (id : ℕ) (status : UpdateStatus) (s : Reservations)
    (r : Reservation)
    → find (is_reservation tenant station id) s.rows ≡ some r
    → ends status ≡ true
    → find
        (is_reservation tenant station id)
        (handle_reservation_status_update tenant station id status s).rows
      ≡ some (set_active false r)
unfolding handle_reservation_status_update
status_update_ends tenant station id status s r h e =
    rw h (rw e (find-update _ (set_active false) s.rows r (λ x. refl) h))

-- The reservation is stored, and is not active.
abbrev pub IsIdle : ℕ → String → ℕ → Reservations → Type 0
IsIdle tenant station id s =
    (r : Reservation) × (find (is_reservation tenant station id) s.rows ≡ some r)
    × (r.is_active ≡ false)

find-append :
    (q : Reservation → Bool) (rows : List Reservation) (r : Reservation)
    → find q rows ≡ none
    → q r ≡ true
    → find q (rows ++ r ∷ []) ≡ some r
unfolding find
find-append q [] r h k = rw k
find-append q (x ∷ rows) r h k = elim (Bool-cases (q x)) [
  | inl e ↦ cc (rw e at h)
  | inr e ↦ rw e (find-append q rows r (rw e at h) k)
]

is_reservation-created_row :
    (key tenant : ℕ) (station : String) (q : ReserveNowRequest) (evse : Option ℕ)
    → is_reservation tenant station q.id (created_row key tenant station q evse) ≡ true
is_reservation-created_row key tenant station q evse =
    let a : (tenant == tenant) ≡ true = ground arith in
    let b : (q.id == q.id) ≡ true = ground arith in rw (a, b, eq_refl station)

module _ (tenant : ℕ) (q : ReserveNowRequest) (station : String) (s : Reservations) where
  renew-IsIdle :
      (evse : Option ℕ) (found : Option Reservation)
      → find (is_reservation tenant station q.id) s.rows ≡ found
      → (create_or_renew tenant station q evse false found s).0 ≡ ok true
      → IsIdle tenant station q.id (create_or_renew tenant station q evse false found s).1
  unfolding create_or_renew
  renew-IsIdle evse (some r) h done = (
    renewed_row q evse false r,
    find-update _ (renewed_row q evse false) s.rows r (λ x. refl) h,
    refl,
  )
  renew-IsIdle evse none h done = elim (Bool-cases (any (is_taken station q.id) s.rows)) [
    | inl taken ↦ cc (rw taken at done)
    | inr free ↦ rw free (
      created_row s.next_key tenant station q evse,
      find-append _ s.rows _ h (is_reservation-created_row s.next_key tenant station q evse),
      refl,
    )
  ]

  reserve_stored_ok :
      (w : Result Bool × Reservations)
      → (reserve_stored station w).0 ≡ sent
      → (w.0 ≡ ok true) × ((reserve_stored station w).1.rows ≡ w.1.rows)
  reserve_stored_ok (throw e, t) h = cc
  reserve_stored_ok (ok false, t) h = cc
  reserve_stored_ok (ok true, t) h = (refl, refl)

  store_at-IsIdle :
      (evse : Option (Option ℕ))
      → (store_at tenant q station false evse s).0 ≡ ok true
      → IsIdle tenant station q.id (store_at tenant q station false evse s).1
  unfolding store_at
  store_at-IsIdle none done = cc
  store_at-IsIdle (some evse) done = renew-IsIdle evse _ refl done

  store-IsIdle :
      (evses : ℕ → Option ℕ)
      → (create_or_update_reservation evses tenant q station false s).0 ≡ ok true
      → IsIdle tenant station q.id (create_or_update_reservation evses tenant q station false s).1
  unfolding create_or_update_reservation
  store-IsIdle evses done = store_at-IsIdle (evse_key evses q.evse_id) done

  -- Where a ReserveNow was sent, the reservation is stored and not active; and where its key in the
  -- database is not its number, it stays like this when the station answers Accepted.
  pub accepted-IsIdle :
      (evses : ℕ → Option ℕ)
      → (reserve_now evses tenant q station s).0 ≡ sent
      → let after = (reserve_now evses tenant q station s).1 in
        (r : Reservation) × (find (is_reservation tenant station q.id) after.rows ≡ some r)
        × (r.is_active ≡ false)
        × (r.database_id ≢ q.id
            → find
                (is_reservation tenant station q.id)
                (handle_reserve_now (some q.id) "Accepted" after).rows
              ≡ some r)
  unfolding reserve_now
  accepted-IsIdle evses h =
      let w = create_or_update_reservation evses tenant q station false s in
      let (done, same) = reserve_stored_ok w h in
      let (r, found, idle) = store-IsIdle evses done in
      let there = ap (find (is_reservation tenant station q.id)) same ∙ found in
      (
        r,
        there,
        idle,
        λ away.
            let missed =
              answers_miss tenant station q.id "Accepted" false (reserve_stored station w).1 r there
                away in
            missed.0,
      )
