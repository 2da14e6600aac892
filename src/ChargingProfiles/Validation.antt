-- ===== src/ChargingProfiles/Validation.antt =====
-- validateChargingProfileType of 02_Util/src/util/validator.ts, and getNumberOfFractionDigit and
-- stringToSet of parser.ts beside it. What the repositories answer for a tenant and a station is
-- Directory; its limit of periods is absent where the device model has none, or zero, or no number.
use Prim.Native.Char.{code}
use Prim.Native.String.{String, [], ◌∷◌}
use rexharge_citrineos_core.Prelude.{
  ℕ, zero, suc, Option, none, some, Bool, true, not, List, [], ◌∷◌, map, length, leb, is_some,
  if◌then◌else◌, ◌==◌, ◌&&◌, ◌||◌, str_eq,
}
use rexharge_citrineos_core.Prelude.Text.{split}
use rexharge_citrineos_core.Prelude.Letters.{trim}
use rexharge_citrineos_core.Prelude.Int.{ℤ, is_negative, is_zero, is_beyond}
use rexharge_citrineos_core.Rpc.Message.{Result}
use rexharge_citrineos_core.ChargingProfiles.{
  charging_station_max_profile, tx_profile, Cost, ConsumptionCost, SalesTariffEntry, SalesTariff,
  Period, Schedule, Profile, eq_purpose, Step, go, expect, expect_some, caught, ◌>>=◌, ◌>>◌,
}

-- what is used of a stored ChargingNeeds
pub record Needs : Type 0 where
  pub is_ac : Bool
  pub is_dc : Bool
  pub max_schedule_tuples : Option ℕ

pub record Directory : Type 0 where
  -- the transaction of the station, and the EVSE of the tenant, by their keys in the database
  pub transaction : String → Option ℕ
  pub evse : ℤ → Option ℕ
  pub needs : ℕ → ℕ → Result (Option Needs)
  pub periods_per_schedule : Option ℕ
  -- the values of the attributes ACPhaseSwitchingSupported of the EVSE
  pub ac_phase_switching_supported : List String
  -- the list of values of RateUnit, where it is a MemberList
  pub rate_units : Option String

-- the digits at the start of a text
leading_digits : String → ℕ
leading_digits [] = 0
leading_digits (c ∷ s) =
    let rest = leading_digits s in if leb b'0' (code c) && leb (code c) b'9' then suc rest else 0

-- getNumberOfFractionDigit: the match of /\.(\d+)/
unfoldable pub number_of_fraction_digit : String → ℕ
unfolding leading_digits
number_of_fraction_digit [] = 0
number_of_fraction_digit (c ∷ s) =
    let rest = number_of_fraction_digit s in
    if code c == b'.' && not (leading_digits s == 0) then leading_digits s else rest

-- stringToSet, as a list
unfoldable pub string_to_set : String → List String
unfolding split trim
string_to_set s = map trim (split b',' s)

-- transactionId && …: a text that is not empty
abbrev pub truthy : Option String → Option String
truthy none = none
truthy (some s) = if str_eq s "" then none else some s

-- A number that is there and not zero.
abbrev pub non_zero : Option ℕ → Option ℕ
non_zero none = none
non_zero (some zero) = none
non_zero (some (suc n)) = some (suc n)

unfoldable pub look_up_needs : Directory → ℤ → String → Step (Option Needs)
look_up_needs d evse_id id = do
  transaction ← expect_some (d.transaction id) "Transaction not found on station."
  evse ← expect_some (d.evse evse_id) "Evse not found."
  caught (d.needs evse transaction)

-- receivedChargingNeeds
unfoldable pub received_charging_needs : Directory → ℤ → Option String → Step (Option Needs)
unfolding look_up_needs
received_charging_needs d evse_id none = go none
received_charging_needs d evse_id (some id) =
    if is_zero evse_id then go none else look_up_needs d evse_id id

-- The number of phases that the needs put in the place of a period's.
unfoldable pub phases_for : Option Needs → Option ℕ → Option ℕ
phases_for none phases = phases
phases_for (some needs) phases =
    if needs.is_ac
    then elim (non_zero phases) [ none ↦ some 3 | some n ↦ phases ]
    else if needs.is_dc
    then none
    else phases

-- The loop over the periods.
unfoldable pub validate_periods : Option Needs → List Period → Step (List Period)
unfolding number_of_fraction_digit phases_for
validate_periods needs List.[] = go List.[]
validate_periods needs (List.◌∷◌ p ps) = do
  expect (leb (number_of_fraction_digit p.limit) 1) "limit accepts at most one digit fraction"
  rest ← validate_periods needs ps
  go (List.◌∷◌ (record p { number_phases = phases_for needs p.number_phases }) rest)

abbrev pub costs_of : ConsumptionCost → List Cost
costs_of c = elim c.cost [ none ↦ List.[] | some costs ↦ costs ]

abbrev pub multiplier_fits : Cost → Bool
multiplier_fits c = elim c.amount_multiplier [ none ↦ true | some m ↦ not (is_beyond 3 m) ]

unfoldable pub all_of {ℓ} : {A : Type ℓ} → (A → Bool) → List A → Bool
all_of p List.[] = true
all_of p (List.◌∷◌ x xs) = p x && all_of p xs

abbrev pub entry_fits : SalesTariffEntry → Bool
entry_fits e = elim e.consumption_cost [
  | none ↦ true
  | some costs ↦ all_of (λ c. all_of multiplier_fits (costs_of c)) costs
]

abbrev pub max_tuples : Option Needs → Option ℕ
max_tuples none = none
max_tuples (some needs) = non_zero needs.max_schedule_tuples

abbrev pub at_most : ℕ → Option ℕ → Bool
at_most n none = true
at_most n (some limit) = leb n limit

unfoldable pub validate_tariff : Option Needs → Option SalesTariff → Step (Unit {0})
unfolding all_of
validate_tariff needs none = go tt
validate_tariff needs (some tariff) = do
  expect (at_most (length tariff.sales_tariff_entry) (max_tuples needs))
      "The number of SalesTariffEntry elements SHALL not exceed maxScheduleTuples."
  expect (all_of entry_fits tariff.sales_tariff_entry) "amountMultiplier SHALL be in [-3, 3]."

abbrev pub rate_fits : Option String → Bool
rate_fits none = true
rate_fits (some rate) = str_eq rate "0" || leb (number_of_fraction_digit rate) 1

-- The loop over the schedules.
unfoldable pub validate_schedules : Option ℕ → Option Needs → List Schedule → Step (List Schedule)
unfolding validate_periods validate_tariff number_of_fraction_digit
validate_schedules limit needs List.[] = go List.[]
validate_schedules limit needs (List.◌∷◌ s ss) = do
  expect (rate_fits s.min_charging_rate) "minChargingRate accepts at most one digit fraction"
  expect (at_most (length s.periods) (non_zero limit))
      "The number of chargingSchedulePeriod SHALL not exceed the limit."
  periods ← validate_periods needs s.periods
  validate_tariff needs s.sales_tariff
  rest ← validate_schedules limit needs ss
  go (List.◌∷◌ (record s { periods = periods }) rest)

-- validateChargingProfileType, with the profile as it leaves it. What it throws is refused by its
-- caller, the failure of a query included.
unfoldable pub validate_charging_profile_type : Directory → ℤ → Profile → Step Profile
unfolding received_charging_needs validate_schedules
validate_charging_profile_type d evse_id p = do
  expect (not (is_negative p.stack_level)) "Lowest Stack level is 0"
  expect (not (eq_purpose p.purpose charging_station_max_profile && not (is_zero evse_id)))
      "When chargingProfilePurpose is ChargingStationMaxProfile, evseId SHALL be 0"
  expect (eq_purpose p.purpose tx_profile || not (is_some (truthy p.transaction_id)))
      "transactionId SHALL only be included when ChargingProfilePurpose is set to TxProfile."
  needs ← received_charging_needs d evse_id (truthy p.transaction_id)
  schedules ← validate_schedules d.periods_per_schedule needs p.schedules
  go (record p { schedules = schedules })
