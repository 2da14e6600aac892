-- ===== src/ChargingProfiles.antt =====
-- The charging profiles that the CSMS sets (00_Base/src/ocpp/model/2.0.1/types/SetChargingProfileRequest.ts),
-- and the steps of a check. A limit and a rate are the texts of their numbers, a time is a number of
-- milliseconds, and the start of a period is a natural number.
pub mod Validation
pub mod Store
pub mod Setting
pub mod Handlers
pub mod Requests
mod Periods
pub mod Clearing
pub mod Blocked
pub mod Admissible
pub mod Stored
pub mod Fresh
pub mod Reported
pub mod Numbers
mod Tests
use rexharge_citrineos_core.Prelude.{
  ◌≡◌, refl, ℕ, zero, suc, String, Option, none, some, Bool, true, false, List, [], ◌∷◌,
}
use rexharge_citrineos_core.Prelude.Int.{ℤ, pos, negsuc}
use rexharge_citrineos_core.Rpc.Message.{Result, ok, throw, Exception, ocpp, plain, retry}
use rexharge_citrineos_core.SmartCharging.{ChargingRateUnit}

-- ChargingProfilePurposeEnumType
pub data Purpose : Type 0 where
  charging_station_external_constraints charging_station_max_profile : Purpose
  tx_default_profile tx_profile : Purpose

-- ChargingProfileKindEnumType
pub data Kind : Type 0 where
  absolute recurring relative : Kind

-- ChargingLimitSourceEnumType
pub data Source : Type 0 where
  ems other so cso : Source

-- CostType, ConsumptionCostType, SalesTariffEntryType and SalesTariffType
pub record Cost : Type 0 where
  pub amount_multiplier : Option ℤ

pub record ConsumptionCost : Type 0 where
  pub cost : Option (List Cost)

pub record SalesTariffEntry : Type 0 where
  pub consumption_cost : Option (List ConsumptionCost)

pub record SalesTariff : Type 0 where
  pub id : ℕ
  pub sales_tariff_entry : List SalesTariffEntry

-- ChargingSchedulePeriodType
pub record Period : Type 0 where
  pub start_period : ℕ
  pub limit : String
  pub number_phases : Option ℕ
  pub phase_to_use : Option ℕ

-- ChargingScheduleType
pub record Schedule : Type 0 where
  pub id : ℕ
  pub start_schedule : Option ℕ
  pub duration : Option ℕ
  pub charging_rate_unit : ChargingRateUnit
  pub periods : List Period
  pub min_charging_rate : Option String
  pub sales_tariff : Option SalesTariff

-- ChargingProfileType
pub record Profile : Type 0 where
  pub id : ℕ
  pub stack_level : ℤ
  pub purpose : Purpose
  pub kind : Kind
  pub valid_from : Option ℕ
  pub valid_to : Option ℕ
  pub schedules : List Schedule
  pub transaction_id : Option String

-- the tests `===` of these enums
abbrev pub eq_purpose : Purpose → Purpose → Bool
eq_purpose charging_station_external_constraints charging_station_external_constraints = true
eq_purpose charging_station_max_profile charging_station_max_profile = true
eq_purpose tx_default_profile tx_default_profile = true
eq_purpose tx_profile tx_profile = true
eq_purpose p q = false

abbrev pub eq_source : Source → Source → Bool
eq_source ems ems = true
eq_source other other = true
eq_source so so = true
eq_source cso cso = true
eq_source p q = false

-- A check that goes on with a value, refuses the request with a text, or lets an error through.
pub data Step {ℓ} (A : Type ℓ) : Type ℓ where
  go : A → Step A
  refused : String → Step A
  failed : Exception → Step A

infixl 5 ◌>>=◌ ◌>>◌
abbrev pub ◌>>=◌ {ℓ κ} : {A : Type ℓ} {B : Type κ} → Step A → (A → Step B) → Step B
go a >>= f = f a
refused s >>= f = refused s
failed e >>= f = failed e

abbrev pub ◌>>◌ {ℓ} : {B : Type ℓ} → Step (Unit {0}) → Step B → Step B
m >> k = m >>= λ _. k

-- `if (!b) return { success: false, payload }`
abbrev pub expect : Bool → String → Step (Unit {0})
expect true s = go tt
expect false s = refused s

abbrev pub expect_some {ℓ} : {A : Type ℓ} → Option A → String → Step A
expect_some none s = refused s
expect_some (some a) s = go a

-- the text of an error
abbrev pub message_of : Exception → String
message_of (ocpp e) = e.description
message_of (plain s) = s
message_of (retry s) = s

-- a call in a `try` whose `catch` answers with the text of the error
abbrev pub caught {ℓ} : {A : Type ℓ} → Result A → Step A
caught (ok a) = go a
caught (throw e) = refused (message_of e)

-- a call outside of one
abbrev pub awaited {ℓ} : {A : Type ℓ} → Result A → Step A
awaited (ok a) = go a
awaited (throw e) = failed e

module _ {ℓ κ} {A : Type ℓ} {B : Type κ} where
  pub >>=-eq-go :
      (m : Step A) (f : A → Step B) {b : B} → (m >>= f) ≡ go b → (a : A) × (m ≡ go a) × (f a ≡ go b)
  >>=-eq-go (go a) f h = (a, refl, h)
  >>=-eq-go (refused s) f h = cc
  >>=-eq-go (failed e) f h = cc

pub expect_holds : (b : Bool) (s : String) {u : Unit {0}} → expect b s ≡ go u → b ≡ true
expect_holds true s h = refl
expect_holds false s h = cc

module _ {ℓ} {A : Type ℓ} where
  pub expect-eq-go :
      (b : Bool) (s : String) (k : Step A) {a : A}
      → (expect b s >> k) ≡ go a
      → (b ≡ true) × (k ≡ go a)
  expect-eq-go true s k h = (refl, h)
  expect-eq-go false s k h = cc

  pub expect_some-eq-go :
      {B : Type 0} (o : Option B) (s : String) (f : B → Step A) {a : A}
      → (expect_some o s >>= f) ≡ go a
      → (b : B) × (o ≡ some b) × (f b ≡ go a)
  expect_some-eq-go (some b) s f h = (b, refl, h)
  expect_some-eq-go none s f h = cc
