-- ===== src/Reservations/Tests.antt =====
-- Two stations, the second of which has a reservation.
use rexharge_citrineos_core.Prelude.{◌≡◌, ◌≢◌, refl, ℕ, Option, none, some, true, false, [], ◌∷◌}
use rexharge_citrineos_core.Reservations.{
  ReserveNowRequest, Reservation, Reservations, is_reservation, find, reserve_now,
  cancel_reservation, handle_reserve_now, created_row,
}
use rexharge_citrineos_core.Reservations.Keys.{accepted-IsIdle}

abbrev request : ReserveNowRequest
request = record {
  id = 1;
  expiry_date_time = 50;
  connector_type = none;
  evse_id = some 2;
  id_token = "t";
  group_id_token = none;
}

abbrev evses : ℕ → Option ℕ
evses n = some 9

abbrev other : Reservation
other = record (created_row 1 1 "cs2" request none) { is_active = true }

abbrev state : Reservations
state = record { rows = other ∷ []; next_key = 2; calls = [] }

abbrev after : Reservations
after = (reserve_now evses 1 request "cs1" state).1

accepted-IsIdle_example :
    (r : Reservation) × (find (is_reservation 1 "cs1" 1) after.rows ≡ some r)
    × (r.is_active ≡ false)
    × (r.database_id ≢ 1
        → find (is_reservation 1 "cs1" 1) (handle_reserve_now (some 1) "Accepted" after).rows
          ≡ some r)
unfolding reserve_now
accepted-IsIdle_example = accepted-IsIdle 1 request "cs1" state evses refl

-- The answer of the first station takes effect on the reservation of the second.
wrong_row :
    find (is_reservation 1 "cs2" 1) (handle_reserve_now (some 1) "Rejected" after).rows
    ≡ some (record other { reserve_status = some "Rejected"; is_active = false })
unfolding reserve_now handle_reserve_now find
wrong_row = refl

cancelled : (cancel_reservation 1 1 ("cs1" ∷ "cs2" ∷ []) state).0 ≡ false
unfolding cancel_reservation
cancelled = refl
