-- ===== src/SmartCharging.antt =====
-- The limits of charging: 03_Modules/SmartCharging/src/module/smartCharging/InternalSmartCharging.ts.
-- Currents, voltages, powers and limits are natural numbers, and times are milliseconds. The texts of
-- the errors are without the numbers in them.
pub mod Limits
mod Tests
use rexharge_citrineos_core.Prelude.{
  ℕ, zero, suc, ◌*◌, String, Option, none, some, Bool, true, false, ◌&&◌, List, [], ◌∷◌, ltb, ◌==◌,
  length, if◌then◌else◌,
}
use rexharge_citrineos_core.Rpc.Message.{Result, ok, throw, Exception, plain}

-- EnergyTransferModeEnumType, and any other text
pub data EnergyTransferMode : Type 0 where
  ac_single_phase ac_two_phase ac_three_phase dc : EnergyTransferMode
  unsupported : String → EnergyTransferMode

-- Of ACChargingParametersType and DCChargingParametersType.
pub record AcParameters : Type 0 where
  pub ev_min_current : ℕ
  pub ev_max_current : ℕ

pub record DcParameters : Type 0 where
  pub ev_max_current : ℕ
  pub ev_max_voltage : ℕ
  pub ev_max_power : Option ℕ

-- ChargingNeedsType
pub record ChargingNeeds : Type 0 where
  pub requested_energy_transfer : EnergyTransferMode
  pub ac_parameters : Option AcParameters
  pub dc_parameters : Option DcParameters
  pub departure_time : Option ℕ

-- ChargingRateUnitEnumType
pub data ChargingRateUnit : Type 0 where
  amperes watts : ChargingRateUnit

pub record ChargingSchedulePeriod : Type 0 where
  pub start_period : ℕ
  pub limit : ℕ
  pub number_phases : Option ℕ

-- The duration is a difference of two times, which may be below zero: the later one and the earlier.
pub record ChargingSchedule : Type 0 where
  pub id : ℕ
  pub duration : Option (ℕ × ℕ)
  pub charging_rate_unit : ChargingRateUnit
  pub periods : List ChargingSchedulePeriod
  pub min_charging_rate : Option ℕ

-- A profile of the purpose TxProfile and the kind Absolute.
pub record ChargingProfile : Type 0 where
  pub id : ℕ
  pub stack_level : ℕ
  pub valid_from : Option ℕ
  pub valid_to : Option ℕ
  pub schedules : List ChargingSchedule
  pub transaction_id : String

-- What the repository of the profiles gives for a transaction: the next numbers, and the stored profile
-- of the highest stack level, if there is one, whether it is active and valid or not.
pub record Profiles : Type 0 where
  pub next_profile_id : ℕ
  pub next_stack_level : ℕ
  pub next_schedule_id : ℕ
  pub highest : Option ChargingProfile

-- What is charged with, before it is checked.
pub record Rate : Type 0 where
  pub unit : ChargingRateUnit
  pub limit : ℕ
  pub number_phases : Option ℕ
  pub min_charging_rate : Option ℕ

abbrev pub rate : ChargingRateUnit → ℕ → Option ℕ → Option ℕ → Rate
rate u l phases least = record {
  unit = u;
  limit = l;
  number_phases = phases;
  min_charging_rate = least;
}

-- The values that stand where the needs lack the parameters of their mode.
abbrev pub no_rate : Rate
no_rate = rate amperes 0 none none

-- _getChargingRateUnitAndLimit
unfoldable pub rate_unit_and_limit : ℕ → ℕ → Option ℕ → ChargingRateUnit × ℕ
rate_unit_and_limit current voltage none = (amperes, current * voltage)
rate_unit_and_limit current voltage (some zero) = (amperes, current * voltage)
rate_unit_and_limit current voltage (some (suc power)) =
    if ltb (suc power) (current * voltage)
    then (watts, suc power * 1000)
    else (amperes, current * voltage)

ac_rate : ℕ → Option AcParameters → Rate
ac_rate phases none = no_rate
ac_rate phases (some p) = rate amperes p.ev_max_current (some phases) (some p.ev_min_current)

dc_rate : Option DcParameters → Rate
unfolding rate_unit_and_limit
dc_rate none = no_rate
dc_rate (some p) =
    let (u, l) = rate_unit_and_limit p.ev_max_current p.ev_max_voltage p.ev_max_power in
    rate u l none none

rate_in : ChargingNeeds → EnergyTransferMode → Result Rate
unfolding ac_rate dc_rate
rate_in needs ac_single_phase = ok (ac_rate 1 needs.ac_parameters)
rate_in needs ac_two_phase = ok (ac_rate 2 needs.ac_parameters)
rate_in needs ac_three_phase = ok (ac_rate 3 needs.ac_parameters)
rate_in needs dc = ok (dc_rate needs.dc_parameters)
rate_in needs (unsupported mode) = throw (plain "Unsupported energy transfer mode")

-- The switch on the mode of the transfer.
unfoldable pub rate_of : ChargingNeeds → Result Rate
unfolding rate_in
rate_of needs = rate_in needs needs.requested_energy_transfer

abbrev pub too_big : Exception
too_big = plain "Limit is bigger than existing limit in charging schedule"

unfoldable pub check_periods : ℕ → List ChargingSchedulePeriod → Option Exception
check_periods limit [] = none
check_periods limit (p ∷ ps) =
    let rest = check_periods limit ps in if ltb p.limit limit then some too_big else rest

-- the first of two that is thrown
abbrev pub or_then : Option Exception → Option Exception → Option Exception
or_then (some e) rest = some e
or_then none rest = rest

unfoldable pub check_schedules : ℕ → List ChargingSchedule → Option Exception
unfolding check_periods
check_schedules limit [] = none
check_schedules limit (s ∷ ss) = or_then (check_periods limit s.periods) (check_schedules limit ss)

-- _validateLimitAgainstExistingProfile
unfoldable pub validate_limit : ℕ → Option ChargingProfile → Option Exception
unfolding check_schedules
validate_limit limit none = none
validate_limit limit (some profile) = check_schedules limit profile.schedules

abbrev pub duration_until : Option ℕ → ℕ → Option (ℕ × ℕ)
duration_until none now = none
duration_until (some departure) now = some (departure, now)

-- the profile for a rate
abbrev pub profile_for : Profiles → ℕ → String → ChargingNeeds → Rate → ChargingProfile
profile_for profiles now transaction needs r = record {
  id = profiles.next_profile_id;
  stack_level = profiles.next_stack_level;
  valid_from = some now;
  valid_to = needs.departure_time;
  schedules =
      record {
        id = profiles.next_schedule_id;
        duration = duration_until needs.departure_time now;
        charging_rate_unit = r.unit;
        periods =
            record { start_period = 0; limit = r.limit; number_phases = r.number_phases } ∷ [];
        min_charging_rate = r.min_charging_rate;
      }
      ∷ [];
  transaction_id = transaction;
}

checked : Option Exception → ChargingProfile → Result ChargingProfile
checked none profile = ok profile
checked (some e) profile = throw e

calculate_from : Profiles → ℕ → String → ChargingNeeds → Result Rate → Result ChargingProfile
unfolding checked validate_limit
calculate_from profiles now transaction needs (throw e) = throw e
calculate_from profiles now transaction needs (ok r) =
    checked (validate_limit r.limit profiles.highest) (profile_for profiles now transaction needs r)

-- calculateChargingProfile
unfoldable pub calculate_charging_profile :
    Profiles → ℕ → String → ChargingNeeds → Result ChargingProfile
unfolding calculate_from rate_of
calculate_charging_profile profiles now transaction needs =
    calculate_from profiles now transaction needs (rate_of needs)

abbrev pub exceeds : Exception
exceeds = plain "Given limits exceeds existing limits in charging profile"

abbrev pub unmatched : Exception
unmatched =
    plain "Given charging periods and existing charging periods in charging profile are unmatched."

abbrev pub too_many : Exception
too_many = plain "Existing charging profile have more than one charging schedules."

-- The loop over the periods of both, which are as many.
unfoldable pub compare_periods :
    List ChargingSchedulePeriod → List ChargingSchedulePeriod → Option Exception
compare_periods [] existing = none
compare_periods (p ∷ given) [] = none
compare_periods (p ∷ given) (q ∷ existing) =
    let rest = compare_periods given existing in if ltb q.limit p.limit then some exceeds else rest

unfoldable pub check_against :
    List ChargingSchedulePeriod → List ChargingSchedule → Option Exception
unfolding compare_periods
check_against given [] = some too_many
check_against given (s ∷ []) =
    if length given == length s.periods then compare_periods given s.periods else some unmatched
check_against given (s ∷ s' ∷ rest) = some too_many

-- checkLimitsOfChargingSchedule
unfoldable pub check_limits_of_charging_schedule :
    Profiles → List ChargingSchedulePeriod → Option Exception
unfolding check_against
check_limits_of_charging_schedule profiles given = elim profiles.highest [
  | none ↦ none
  | some profile ↦ check_against given profile.schedules
]
