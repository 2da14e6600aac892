-- ===== src/Reservations.antt =====
-- Reservations: reserveNow and cancelReservation of 03_Modules/EVDriver/src/module/2.0.1/MessageApi.ts,
-- the handlers of module.ts beside it, and 01_Data/src/layers/sequelize/repository/Reservation.ts.
-- The texts of errors are without the values in them. Calls that are sent are listed by their stations,
-- the newest first.
pub mod Keys
mod Tests
use rexharge_citrineos_core.Prelude.{
  ℕ, zero, suc, String, Option, none, some, Bool, true, false, not, List, [], ◌∷◌, ◌++◌, any,
  is_some, str_eq, ◌==◌, ◌&&◌, if◌then◌else◌, get_or,
}
use rexharge_citrineos_core.Rpc.Message.{Result, ok, throw, Exception, plain}

-- ReserveNowRequest, with identifiers of tokens as texts
pub record ReserveNowRequest : Type 0 where
  pub id : ℕ
  pub expiry_date_time : ℕ
  pub connector_type : Option String
  pub evse_id : Option ℕ
  pub id_token : String
  pub group_id_token : Option String

-- A row of Reservations.
pub record Reservation : Type 0 where
  pub database_id : ℕ
  pub tenant : ℕ
  pub station : String
  pub id : ℕ
  pub expiry_date_time : ℕ
  pub connector_type : Option String
  pub evse_id : Option ℕ
  pub id_token : String
  pub group_id_token : Option String
  pub reserve_status : Option String
  pub is_active : Bool

-- The rows, the next key, and the stations to which calls were sent.
pub record Reservations : Type 0 where
  pub rows : List Reservation
  pub next_key : ℕ
  pub calls : List String

abbrev pub is_reservation : ℕ → String → ℕ → Reservation → Bool
is_reservation tenant station id r = r.tenant == tenant && str_eq r.station station && r.id == id

-- the unique columns
abbrev pub is_taken : String → ℕ → Reservation → Bool
is_taken station id r = str_eq r.station station && r.id == id

unfoldable pub find : (Reservation → Bool) → List Reservation → Option Reservation
find p [] = none
find p (r ∷ rs) = let rest = find p rs in if p r then some r else rest

-- updateByKey: the rows with a key of the database
unfoldable pub update_by_key : ℕ → (Reservation → Reservation) → List Reservation → List Reservation
update_by_key key f [] = []
update_by_key key f (r ∷ rs) =
    let rest = update_by_key key f rs in (if r.database_id == key then f r else r) ∷ rest

abbrev pub created_row : ℕ → ℕ → String → ReserveNowRequest → Option ℕ → Reservation
created_row key tenant station q evse = record {
  database_id = key;
  tenant = tenant;
  station = station;
  id = q.id;
  expiry_date_time = q.expiry_date_time;
  connector_type = q.connector_type;
  evse_id = evse;
  id_token = q.id_token;
  group_id_token = q.group_id_token;
  reserve_status = none;
  is_active = false;
}

abbrev pub renewed_row : ReserveNowRequest → Option ℕ → Bool → Reservation → Reservation
renewed_row q evse active r = record r {
  expiry_date_time = q.expiry_date_time;
  connector_type = q.connector_type;
  evse_id = evse;
  id_token = q.id_token;
  group_id_token = q.group_id_token;
  is_active = active;
}

unfoldable pub create_or_renew :
    ℕ
    → String
    → ReserveNowRequest
    → Option ℕ
    → Bool
    → Option Reservation
    → Reservations
    → Result Bool × Reservations
unfolding update_by_key
create_or_renew tenant station q evse active (some r) s =
    (ok true, record s { rows = update_by_key r.database_id (renewed_row q evse active) s.rows })
create_or_renew tenant station q evse active none s =
    if any (is_taken station q.id) s.rows then (throw (plain "Validation error"), s) else (
      ok true,
      record s {
        rows = s.rows ++ created_row s.next_key tenant station q evse ∷ [];
        next_key = suc s.next_key;
      },
    )

-- The EVSE of a request in the database: there may be none in the request.
abbrev pub evse_key : (ℕ → Option ℕ) → Option ℕ → Option (Option ℕ)
evse_key evses none = some none
evse_key evses (some zero) = some none
evse_key evses (some (suc n)) = elim (evses (suc n)) [ none ↦ none | some key ↦ some (some key) ]

unfoldable pub store_at :
    ℕ
    → ReserveNowRequest
    → String
    → Bool
    → Option (Option ℕ)
    → Reservations
    → Result Bool × Reservations
unfolding create_or_renew find
store_at tenant q station active none s = (ok false, s)
store_at tenant q station active (some evse) s =
    create_or_renew tenant station q evse active (find (is_reservation tenant station q.id) s.rows)
      s

-- createOrUpdateReservation, and whether it gives a reservation
unfoldable pub create_or_update_reservation :
    (ℕ → Option ℕ)
    → ℕ
    → ReserveNowRequest
    → String
    → Bool
    → Reservations
    → Result Bool × Reservations
unfolding store_at
create_or_update_reservation evses tenant q station active s =
    store_at tenant q station active (evse_key evses q.evse_id) s

-- What one station's part of a request comes to: the call was sent, or a text tells why not.
pub data Answer : Type 0 where
  sent : Answer
  failed : String → Answer

abbrev pub text_of : Exception → String
text_of (plain t) = t
text_of other = "error"

abbrev pub send_to : String → Reservations → Reservations
send_to station s = record s { calls = station ∷ s.calls }

abbrev pub reserve_stored : String → Result Bool × Reservations → Answer × Reservations
reserve_stored station (throw e, s) = (failed (text_of e), s)
reserve_stored station (ok false, s) = (failed "Reservation could not be stored for station.", s)
reserve_stored station (ok true, s) = (sent, send_to station s)

-- reserveNow for one station
unfoldable pub reserve_now :
    (ℕ → Option ℕ) → ℕ → ReserveNowRequest → String → Reservations → Answer × Reservations
unfolding create_or_update_reservation
reserve_now evses tenant q station s =
    reserve_stored station (create_or_update_reservation evses tenant q station false s)

abbrev pub has_reservation : ℕ → ℕ → List Reservation → String → Bool
has_reservation tenant id rows station = is_some (find (is_reservation tenant station id) rows)

unfoldable pub send_to_all : List String → Reservations → Reservations
send_to_all [] s = s
send_to_all (station ∷ stations) s = send_to_all stations (send_to station s)

unfoldable pub all_have : ℕ → ℕ → List Reservation → List String → Bool
unfolding find
all_have tenant id rows [] = true
all_have tenant id rows (station ∷ stations) =
    has_reservation tenant id rows station && all_have tenant id rows stations

-- cancelReservation, and whether calls were sent
unfoldable pub cancel_reservation : ℕ → ℕ → List String → Reservations → Bool × Reservations
unfolding all_have send_to_all
cancel_reservation tenant id stations s =
    if all_have tenant id s.rows stations then (true, send_to_all stations s) else (false, s)

abbrev pub set_active : Bool → Reservation → Reservation
set_active b r = record r { is_active = b }

abbrev pub set_status : String → Bool → Reservation → Reservation
set_status status b r = record r { reserve_status = some status; is_active = b }

-- ReservationUpdateStatusEnumType, and any other
pub data UpdateStatus : Type 0 where
  expired removed other_status : UpdateStatus

abbrev pub ends : UpdateStatus → Bool
ends expired = true
ends removed = true
ends other_status = false

unfoldable pub end_found : UpdateStatus → Option Reservation → Reservations → Reservations
unfolding update_by_key
end_found status none s = s
end_found status (some r) s =
    if ends status
    then record s { rows = update_by_key r.database_id (set_active false) s.rows }
    else s

-- _handleReservationStatusUpdate, without the empty answer that it always sends
unfoldable pub handle_reservation_status_update :
    ℕ → String → ℕ → UpdateStatus → Reservations → Reservations
unfolding end_found find
handle_reservation_status_update tenant station id status s =
    end_found status (find (is_reservation tenant station id) s.rows) s

-- _handleCancelReservation, for an answer that is a rejection or not; the request that it answers has
-- the number of a reservation, if it is found.
unfoldable pub handle_cancel_reservation : Option ℕ → Bool → Reservations → Reservations
unfolding update_by_key
handle_cancel_reservation none rejected s = s
handle_cancel_reservation (some id) rejected s = record s {
  rows = update_by_key id (set_active rejected) s.rows;
}

-- _handleReserveNow
unfoldable pub handle_reserve_now : Option ℕ → String → Reservations → Reservations
unfolding update_by_key
handle_reserve_now none status s = s
handle_reserve_now (some id) status s = record s {
  rows = update_by_key id (set_status status (str_eq status "Accepted")) s.rows;
}
