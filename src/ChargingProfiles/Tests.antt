-- ===== src/ChargingProfiles/Tests.antt =====
-- A tenant with two stations.
use rexharge_citrineos_core.Prelude.{
  ◌≡◌, refl, ℕ, Option, none, some, Bool, true, List, [], ◌∷◌, ◌↔◌, All, arith,
}
use rexharge_citrineos_core.Prelude.Int.{ℤ, pos}
use rexharge_citrineos_core.Rpc.Message.{ok}
use rexharge_citrineos_core.SmartCharging.{amperes}
use rexharge_citrineos_core.ChargingProfiles.{
  tx_default_profile, absolute, cso, Period, Schedule, Profile, go,
}
use rexharge_citrineos_core.ChargingProfiles.Validation.{
  Directory, number_of_fraction_digit, string_to_set,
}
use rexharge_citrineos_core.ChargingProfiles.Store.{Row, Tables, Place, create_or_update, is_row}
use rexharge_citrineos_core.ChargingProfiles.Setting.{State, Station, set_charging_profile}
use rexharge_citrineos_core.ChargingProfiles.Requests.{ClearRequest, clear_charging_profile}
use rexharge_citrineos_core.ChargingProfiles.Clearing.{NamesProfiles, clear_charging_profile_iff}
use rexharge_citrineos_core.ChargingProfiles.Admissible.{Outcome, set_charging_profile-Outcome}
use rexharge_citrineos_core.ChargingProfiles.Blocked.{set_charging_profile_blocked}
use rexharge_citrineos_core.ChargingProfiles.Stored.{IsStored, create_or_update-IsStored}
use rexharge_citrineos_core.ChargingProfiles.Handlers.{
  Sender, Active, store_reported, generated_profile,
}
use rexharge_citrineos_core.ChargingProfiles.Reported.{IsOn, store_reported-IsOn}
use rexharge_citrineos_core.ChargingProfiles.Numbers.{
  LacksProfile, LacksSchedule, generated_profile-Lacks,
}

abbrev directory : Directory
directory = record {
  transaction = λ id. some 4;
  evse = λ e. some 8;
  needs = λ e t. ok none;
  periods_per_schedule = some 3;
  ac_phase_switching_supported = [];
  rate_units = some "A, W";
}

abbrev station : Station
station = record { tenant = 1; name = "cs1"; directory = directory; now = 100 }

abbrev period : ℕ → Period
period n = record { start_period = n; limit = "16.5"; number_phases = none; phase_to_use = none }

abbrev schedule : Schedule
schedule = record {
  id = 1;
  start_schedule = some 90;
  duration = none;
  charging_rate_unit = amperes;
  periods = period 0 ∷ period 60 ∷ period 30 ∷ [];
  min_charging_rate = none;
  sales_tariff = none;
}

abbrev profile : Profile
profile = record {
  id = 3;
  stack_level = pos 1;
  purpose = tx_default_profile;
  kind = absolute;
  valid_from = none;
  valid_to = none;
  schedules = schedule ∷ [];
  transaction_id = none;
}

-- an active profile of another station
abbrev elsewhere : Row
elsewhere = record {
  database_id = 1;
  tenant = 1;
  station = "cs2";
  id = 3;
  stack_level = pos 1;
  purpose = tx_default_profile;
  kind = absolute;
  valid_from = none;
  valid_to = none;
  evse_id = some (pos 1);
  transaction_database_id = none;
  source = cso;
  is_active = true;
}

abbrev tables : List Row → Tables
tables rows = record {
  profiles = rows;
  schedules = [];
  tariffs = [];
  next_profile = 2;
  next_schedule = 1;
}

abbrev state : List Row → State
state rows = record { tables = tables rows; calls = [] }

abbrev sending : ℤ → Profile → Bool
sending e p = true

digits_read : number_of_fraction_digit "12.345" ≡ 3
unfolding number_of_fraction_digit
digits_read = refl

units_read : string_to_set "A, W" ≡ "A" ∷ "W" ∷ []
unfolding string_to_set
units_read = refl

sent : (set_charging_profile station sending (pos 1) profile (state [])).0 ≡ go true
unfolding set_charging_profile
sent = refl

set_charging_profile-Outcome_example :
    Outcome station
      (pos 1)
      profile
      (state [])
      (set_charging_profile station sending (pos 1) profile (state []))
set_charging_profile-Outcome_example =
    set_charging_profile-Outcome station sending (pos 1) profile (state [])

set_charging_profile_blocked_example :
    (set_charging_profile station sending (pos 1) profile (state (elsewhere ∷ []))).1.calls ≡ []
set_charging_profile_blocked_example =
    set_charging_profile_blocked station sending (pos 1) profile (state (elsewhere ∷ [])) [] []
      elsewhere refl refl (refl, refl, refl, refl, refl, refl)

abbrev clear_evse : ClearRequest
clear_evse = record {
  profile_id = none;
  criteria = some (record { purpose = none; stack_level = some 0; evse_id = some 1 });
}

clear_charging_profile_iff_example :
    (clear_charging_profile clear_evse ≡ none)
    ↔ NamesProfiles clear_evse.profile_id clear_evse.criteria
clear_charging_profile_iff_example = clear_charging_profile_iff clear_evse

abbrev place : Place
place = record {
  tenant = 1;
  station = "cs1";
  evse_id = some (pos 1);
  source = none;
  is_active = none;
}

abbrev stored : Tables
stored = (create_or_update place profile none (tables (elsewhere ∷ []))).1

create_or_update-IsStored_example :
    (r : Row) × IsStored place profile (tables (elsewhere ∷ [])) stored r
unfolding create_or_update
create_or_update-IsStored_example =
    create_or_update-IsStored place profile none (tables (elsewhere ∷ [])) ((omega arith, tt), tt)
      refl

abbrev sender : Sender
sender = record { tenant = 1; station = "cs1" }

store_reported-IsOn_example :
    All
      (λ (x : Profile × Option ℕ).
        IsOn
          (is_row 1 "cs1" x.0.id)
          (store_reported sender (pos 1) cso ((profile, none) ∷ []) (tables [])).1.profiles)
      ((profile, none) ∷ [])
unfolding store_reported
store_reported-IsOn_example =
    store_reported-IsOn sender (pos 1) cso ((profile, none) ∷ []) (tables []) (tt, tt) refl

abbrev active : Active
active = record { id = 4; transaction_id = "t4"; evse = 8 }

generated_profile-Lacks_example :
    LacksProfile "cs2" (generated_profile "cs2" active schedule stored).id stored.profiles
    × (x : Schedule) × ((generated_profile "cs2" active schedule stored).schedules ≡ x ∷ [])
    × LacksSchedule "cs2" x.id stored.schedules
generated_profile-Lacks_example = generated_profile-Lacks "cs2" active schedule stored

generated_four : (generated_profile "cs2" active schedule stored).id ≡ 4
unfolding generated_profile create_or_update
generated_four = refl
