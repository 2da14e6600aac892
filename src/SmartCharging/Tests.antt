-- ===== src/SmartCharging/Tests.antt =====
-- A transaction with a profile of 16 amperes.
use rexharge_citrineos_core.Prelude.{◌≡◌, refl, none, some, [], ◌∷◌}
use rexharge_citrineos_core.Rpc.Message.{ok}
use rexharge_citrineos_core.SmartCharging.{
  ChargingNeeds, ChargingProfile, ChargingSchedulePeriod, Profiles, ac_single_phase, amperes, rate,
  profile_for, calculate_charging_profile,
}
use rexharge_citrineos_core.SmartCharging.Limits.{AllWithin, calculate_charging_profile-AllWithin}

abbrev period : ChargingSchedulePeriod
period = record { start_period = 0; limit = 16; number_phases = some 1 }

abbrev existing : ChargingProfile
existing = record {
  id = 1;
  stack_level = 0;
  valid_from = none;
  valid_to = none;
  schedules =
      record {
        id = 1;
        duration = none;
        charging_rate_unit = amperes;
        periods = period ∷ [];
        min_charging_rate = none;
      }
      ∷ [];
  transaction_id = "T1";
}

abbrev profiles : Profiles
profiles = record {
  next_profile_id = 2;
  next_stack_level = 1;
  next_schedule_id = 2;
  highest = some existing;
}

abbrev needs : ChargingNeeds
needs = record {
  requested_energy_transfer = ac_single_phase;
  ac_parameters = some (record { ev_min_current = 6; ev_max_current = 10 });
  dc_parameters = none;
  departure_time = some 5000;
}

calculates :
    calculate_charging_profile profiles 1000 "T1" needs
    ≡ ok (profile_for profiles 1000 "T1" needs (rate amperes 10 (some 1) (some 6)))
unfolding calculate_charging_profile
calculates = refl

calculate_charging_profile-AllWithin_example :
    AllWithin profiles 1000 "T1" needs
      (profile_for profiles 1000 "T1" needs (rate amperes 10 (some 1) (some 6)))
calculate_charging_profile-AllWithin_example =
    calculate_charging_profile-AllWithin profiles 1000 "T1" needs _ calculates
