-- ===== src/ChargingProfiles/Setting.antt =====
-- SetChargingProfile for one station: setChargingProfile of
-- 03_Modules/SmartCharging/src/module/2.0.1/MessageApi.ts. The time is an argument; of a call that is
-- sent the profile and the EVSE are kept, in a list with the newest first.
use rexharge_citrineos_core.Prelude.{
  ℕ, String, Option, none, some, Bool, true, false, not, List, [], ◌∷◌, length, ltb, leb, is_some,
  includes, if◌then◌else◌, ◌==◌, ◌&&◌, ◌||◌, str_eq,
}
use rexharge_citrineos_core.Prelude.Int.{ℤ, pos, negsuc, is_positive}
use rexharge_citrineos_core.Rpc.Message.{plain, ok, throw}
use rexharge_citrineos_core.SmartCharging.{ChargingRateUnit, amperes, watts}
use rexharge_citrineos_core.ChargingProfiles.{
  Purpose, charging_station_external_constraints, charging_station_max_profile, tx_default_profile,
  tx_profile, Kind, absolute, recurring, relative, cso, Period, Schedule, Profile, eq_purpose, Step,
  go, refused, failed, expect, expect_some, awaited, ◌>>=◌, ◌>>◌,
}
use rexharge_citrineos_core.ChargingProfiles.Validation.{
  Directory, truthy, non_zero, string_to_set, all_of, validate_charging_profile_type,
}
use rexharge_citrineos_core.ChargingProfiles.Store.{
  Row, Tables, Place, Written, filter, create_or_update,
}

-- The tables, and the calls that were sent.
pub record State : Type 0 where
  pub tables : Tables
  pub calls : List (ℤ × Profile)

-- A station of a tenant, with what is known of it, and the time.
pub record Station : Type 0 where
  pub tenant : ℕ
  pub name : String
  pub directory : Directory
  pub now : ℕ

-- the equality of stack levels
abbrev pub eq_int : ℤ → ℤ → Bool
eq_int (pos a) (pos b) = a == b
eq_int (negsuc a) (negsuc b) = a == b
eq_int a b = false

abbrev pub is_at_key : Option ℕ → ℕ → Bool
is_at_key none k = false
is_at_key (some j) k = j == k

abbrev pub is_at_evse : Option ℤ → ℤ → Bool
is_at_evse none e = false
is_at_evse (some f) e = eq_int f e

-- the query of K01.FR.39
abbrev pub conflicts_in_transaction : ℕ → ℤ → ℕ → Row → Bool
conflicts_in_transaction tenant level transaction r =
    eq_int r.stack_level level
    && is_at_key r.transaction_database_id transaction
    && eq_purpose r.purpose tx_profile
    && r.is_active
    && r.tenant == tenant

-- the query for the other purposes, which does not name the station
abbrev pub conflicts_at_evse : ℕ → Profile → ℤ → Row → Bool
conflicts_at_evse tenant p evse r =
    eq_int r.stack_level p.stack_level
    && eq_purpose r.purpose p.purpose
    && is_at_evse r.evse_id evse
    && r.is_active
    && r.tenant == tenant

abbrev pub starts_later : Option ℕ → ℕ → Bool
starts_later none now = false
starts_later (some t) now = ltb now t

abbrev pub is_over : Option ℕ → ℕ → Bool
is_over none now = false
is_over (some t) now = leb t now

-- The branch for the purpose TxProfile.
unfoldable pub check_tx_profile : Station → ℤ → Profile → Tables → Step (Unit {0})
unfolding filter
check_tx_profile station evse_id p t = do
  id ← expect_some (truthy p.transaction_id) "Missing transactionId for TxProfile."
  transaction ← expect_some (station.directory.transaction id) "Transaction not found on station."
  expect (is_positive evse_id) "TxProfile SHALL only be used with evseId > 0."
  evse ← expect_some (station.directory.evse evse_id) "Evse not found."
  needs ← awaited (station.directory.needs evse transaction)
  expect (is_some needs || leb (length p.schedules) 1)
      "No prior NotifyEVChargingNeedsReq found for this transaction."
  expect
      (length
          (filter (conflicts_in_transaction station.tenant p.stack_level transaction) t.profiles)
        == 0)
      "ChargingProfile with this stackLevel and transactionId already exists."

abbrev pub ends_before : Option ℕ → Row → Bool
ends_before none r = false
ends_before (some end) r = elim r.valid_to [ none ↦ false | some e ↦ ltb e end ]

abbrev pub is_relative : Kind → Bool
is_relative relative = true
is_relative absolute = false
is_relative recurring = false

-- The branch for the other purposes.
unfoldable pub check_other_profile : Station → ℤ → Profile → Tables → Step (Unit {0})
unfolding filter all_of
check_other_profile station evse_id p t = do
  expect (not (eq_purpose p.purpose charging_station_max_profile && is_relative p.kind))
      "When chargingProfilePurpose is ChargingStationMaxProfile, kind SHALL NOT be Relative."
  expect
      (all_of (ends_before p.valid_to)
        (filter (conflicts_at_evse station.tenant p evse_id) t.profiles))
      "No two charging profiles can be valid at the same time."

unfoldable pub check_purpose : Station → ℤ → Profile → Tables → Purpose → Step (Unit {0})
unfolding check_tx_profile check_other_profile
check_purpose station evse_id p t tx_profile = check_tx_profile station evse_id p t
check_purpose station evse_id p t charging_station_external_constraints =
    refused "The CSMS SHALL NOT set purpose to ChargingStationExternalConstraints."
check_purpose station evse_id p t charging_station_max_profile =
    check_other_profile station evse_id p t
check_purpose station evse_id p t tx_default_profile = check_other_profile station evse_id p t

abbrev pub starts_at_zero : List Period → Bool
starts_at_zero [] = false
starts_at_zero (p ∷ ps) = p.start_period == 0

-- The first period is read without a look whether there is one.
unfoldable pub check_first : List Period → Step (Unit {0})
check_first [] = failed (plain "Cannot read properties of undefined")
check_first (p ∷ ps) =
    expect (p.start_period == 0) "The startPeriod of the first period SHALL be 0."

abbrev pub start_fits : Kind → Option ℕ → Bool
start_fits relative start = not (is_some start)
start_fits absolute start = is_some start
start_fits recurring start = is_some start

abbrev pub unit_text : ChargingRateUnit → String
unit_text amperes = "A"
unit_text watts = "W"

unfoldable pub unit_fits : Option String → ChargingRateUnit → Bool
unfolding string_to_set
unit_fits none u = true
unit_fits (some list) u =
    if str_eq list "" then true else includes (string_to_set list) (unit_text u)

-- The sort by the start, which keeps the order of equal ones.
unfoldable pub insert_period : Period → List Period → List Period
insert_period p [] = p ∷ []
insert_period p (q ∷ qs) =
    let rest = insert_period p qs in
    if leb p.start_period q.start_period then p ∷ q ∷ qs else q ∷ rest

unfoldable pub sort_periods : List Period → List Period
unfolding insert_period
sort_periods [] = []
sort_periods (p ∷ ps) = insert_period p (sort_periods ps)

abbrev pub phase_fits : Directory → Period → Bool
phase_fits d p = elim (non_zero p.phase_to_use) [
  | none ↦ true
  | some phase ↦ is_at_key p.number_phases 1 && not (length d.ac_phase_switching_supported == 0)
]

-- The loop over the schedules, which leaves their periods sorted.
unfoldable pub check_schedules : Directory → Kind → List Schedule → Step (List Schedule)
unfolding unit_fits sort_periods all_of check_first
check_schedules d kind [] = go []
check_schedules d kind (s ∷ ss) = do
  check_first s.periods
  expect (start_fits kind s.start_schedule) "startSchedule does not fit the chargingProfileKind."
  expect (unit_fits d.rate_units s.charging_rate_unit) "chargingRateUnit SHALL be one of the list."
  expect (all_of (phase_fits d) (sort_periods s.periods)) "phaseToUse is not allowed."
  rest ← check_schedules d kind ss
  go ((record s { periods = sort_periods s.periods }) ∷ rest)

-- The checks of a profile that is validated.
unfoldable pub check_validated : Station → ℤ → Profile → Tables → Step Profile
unfolding check_purpose check_schedules
check_validated station evse_id p t = do
  expect (not (starts_later p.valid_from station.now)) "validFrom should not be in the future."
  expect (not (is_over p.valid_to station.now)) "validTo should be in the future."
  check_purpose station evse_id p t p.purpose
  schedules ← check_schedules station.directory p.kind p.schedules
  go (record p { schedules = schedules })

-- Everything before the profile is stored.
unfoldable pub check_profile : Station → ℤ → Profile → Tables → Step Profile
unfolding validate_charging_profile_type check_validated
check_profile station evse_id request t = do
  p ← validate_charging_profile_type station.directory evse_id request
  check_validated station evse_id p t

abbrev pub transaction_key : Directory → Option String → Option ℕ
transaction_key d none = none
transaction_key d (some id) = d.transaction id

abbrev pub place_of : Station → ℤ → Place
place_of station evse_id = record {
  tenant = station.tenant;
  station = station.name;
  evse_id = some evse_id;
  source = some cso;
  is_active = none;
}

-- The call is sent once the profile is stored.
unfoldable pub send_stored :
    (ℤ → Profile → Bool) → ℤ → Profile → State → Written → Step Bool × State
send_stored send_call evse_id p state (throw e, t) = (failed e, record state { tables = t })
send_stored send_call evse_id p state (ok u, t) =
    (go (send_call evse_id p), record { tables = t; calls = (evse_id, p) ∷ state.calls })

unfoldable pub store_and_send :
    Station → (ℤ → Profile → Bool) → ℤ → Step Profile → State → Step Bool × State
unfolding create_or_update send_stored
store_and_send station send_call evse_id (refused s) state = (refused s, state)
store_and_send station send_call evse_id (failed e) state = (failed e, state)
store_and_send station send_call evse_id (go p) state = send_stored send_call evse_id p state (
    create_or_update (place_of station evse_id) p
      (transaction_key station.directory (truthy p.transaction_id)) state.tables)

-- setChargingProfile, with the success of the call, or why none was sent
unfoldable pub set_charging_profile :
    Station → (ℤ → Profile → Bool) → ℤ → Profile → State → Step Bool × State
unfolding store_and_send check_profile
set_charging_profile station send_call evse_id request state =
    store_and_send station send_call evse_id (check_profile station evse_id request state.tables)
      state
