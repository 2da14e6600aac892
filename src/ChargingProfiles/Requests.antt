-- ===== src/ChargingProfiles/Requests.antt =====
-- The other requests of 03_Modules/SmartCharging/src/module/2.0.1/MessageApi.ts, for one station. The
-- answer is the text that a request is refused with, or none where the call is sent.
use rexharge_citrineos_core.Prelude.{
  ℕ, zero, suc, String, Option, none, some, Bool, false, not, List, length, is_some, ltb,
  if◌then◌else◌, ◌&&◌, ◌||◌,
}
use rexharge_citrineos_core.Prelude.Int.{ℤ, is_zero}
use rexharge_citrineos_core.SmartCharging.{ChargingRateUnit}
use rexharge_citrineos_core.ChargingProfiles.{
  Purpose, charging_station_external_constraints, Source, eq_purpose,
}
use rexharge_citrineos_core.ChargingProfiles.Validation.{Directory, non_zero}
use rexharge_citrineos_core.ChargingProfiles.Setting.{unit_fits}

-- ClearChargingProfileType and ClearChargingProfileRequest
pub record Criteria : Type 0 where
  pub purpose : Option Purpose
  pub stack_level : Option ℕ
  pub evse_id : Option ℕ

pub record ClearRequest : Type 0 where
  pub profile_id : Option ℕ
  pub criteria : Option Criteria

-- a number counts as given if it is not zero
abbrev pub nothing_in : Option Purpose → Option ℕ → Option ℕ → Bool
nothing_in purpose level evse =
    not (is_some purpose) && not (is_some (non_zero level)) && not (is_some (non_zero evse))

abbrev pub names_nothing : Criteria → Bool
names_nothing c = nothing_in c.purpose c.stack_level c.evse_id

abbrev pub is_external : Option Purpose → Bool
is_external none = false
is_external (some p) = eq_purpose p charging_station_external_constraints

-- clearChargingProfile
unfoldable pub clear_with : Option ℕ → Option Criteria → Option String
clear_with none none = some "Either chargingProfileId or chargingProfileCriteria must be provided"
clear_with none (some c) =
    if names_nothing c
    then some "At least one of chargingProfilePurpose, stackLevel, or evseId must be provided"
    else if is_external c.purpose
    then some "The CSMS SHALL NOT set chargingProfilePurpose to ChargingStationExternalConstraints."
    else none
clear_with (some id) none = none
clear_with (some id) (some c) =
    some "chargingProfileCriteria is not needed when chargingProfileId is provided."

unfoldable pub clear_charging_profile : ClearRequest → Option String
unfolding clear_with
clear_charging_profile r = clear_with (non_zero r.profile_id) r.criteria

-- ChargingProfileCriterionType
pub record Criterion : Type 0 where
  pub profile_ids : Option (List ℕ)
  pub purpose : Option Purpose
  pub stack_level : Option ℕ
  pub limit_sources : Option (List Source)

abbrev pub has_filter : Criterion → Bool
has_filter c = is_some c.purpose || is_some (non_zero c.stack_level) || is_some c.limit_sources

abbrev pub exceeds_limit : List ℕ → Option ℕ → Bool
exceeds_limit ids none = false
exceeds_limit ids (some zero) = false
exceeds_limit ids (some (suc max)) = ltb 1 (length ids) && ltb (suc max) (length ids)

-- getChargingProfiles; the limit is that of the variable Entries, where there is one.
unfoldable pub get_charging_profiles : Option ℕ → Criterion → Option String
get_charging_profiles limit c = elim c.profile_ids [
  | none ↦
      if has_filter c
      then none
      else some "At least one of purpose, stackLevel, or chargingLimitSource must be provided"
  | some ids ↦
      if has_filter c
      then some "The others are not needed when chargingProfileId is provided."
      else if exceeds_limit ids limit
      then some "The max length of chargingProfileId is exceeded."
      else none
]

-- GetCompositeScheduleRequest
pub record CompositeRequest : Type 0 where
  pub evse_id : ℤ
  pub charging_rate_unit : Option ChargingRateUnit

-- getCompositeSchedule
unfoldable pub get_composite_schedule : Directory → CompositeRequest → Option String
unfolding unit_fits
get_composite_schedule d r =
    if not (is_zero r.evse_id) && not (is_some (d.evse r.evse_id))
    then some "EVSE not found for station."
    else elim r.charging_rate_unit [
      | none ↦ none
      | some u ↦
          if unit_fits d.rate_units u
          then none
          else some "chargingRateUnit SHALL be one of the list."
    ]
