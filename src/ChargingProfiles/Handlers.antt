-- ===== src/ChargingProfiles/Handlers.antt =====
-- The handlers of 03_Modules/SmartCharging/src/module/module.ts, and the next numbers of
-- 01_Data/src/layers/sequelize/repository/Base.ts. What they do outside of the tables is a list of
-- effects with the newest first. The service that calculates and checks, and the queries of
-- transactions, are given by what they answer.
use rexharge_citrineos_core.Prelude.{
  ℕ, suc, String, Option, none, some, Bool, true, false, not, List, [], ◌∷◌, ◌++◌, is_some, leb,
  if◌then◌else◌, str_eq, ◌&&◌, ◌||◌,
}
use rexharge_citrineos_core.Prelude.Int.{ℤ, pos, negsuc}
use rexharge_citrineos_core.Rpc.Message.{Result, ok, throw, Exception, plain}
use rexharge_citrineos_core.SmartCharging.{ChargingRateUnit}
use rexharge_citrineos_core.ChargingProfiles.{
  Period, Purpose, tx_profile, absolute, Source, ems, other, so, cso, Profile, Schedule, eq_purpose,
  eq_source,
}
use rexharge_citrineos_core.ChargingProfiles.Store.{
  Row, ScheduleRow, Tables, Place, Written, create_or_update, deactivate,
}
use rexharge_citrineos_core.ChargingProfiles.Setting.{is_at_key}

-- What a handler does outside: it answers, with a status that says whether the message is accepted, or
-- it sends one of two calls.
pub data Effect : Type 0 where
  answer : Bool → Effect
  answer_empty : Effect
  call_set_profile : ℤ → Profile → Effect
  call_get_profiles : List Source → Effect

-- The station that a message is from.
pub record Sender : Type 0 where
  pub tenant : ℕ
  pub station : String

-- CompositeScheduleType
pub record Composite : Type 0 where
  pub evse_id : ℤ
  pub duration : ℕ
  pub schedule_start : ℕ
  pub charging_rate_unit : ChargingRateUnit
  pub periods : List Period

-- The stored needs, by the keys of EVSE and transaction.
pub record World : Type 0 where
  pub tables : Tables
  pub needs : List (ℕ × ℕ)
  pub composites : List (Sender × Composite)
  pub effects : List Effect

abbrev pub emit : Effect → World → World
emit x w = record w { effects = x ∷ w.effects }

-- A field of a request, which may be absent or null.
pub data Field : Type 0 where
  absent null present : Field

abbrev pub is_not_null : Field → Bool
is_not_null absent = true
is_not_null null = false
is_not_null present = true

abbrev pub is_present : Field → Bool
is_present absent = false
is_present null = false
is_present present = true

-- NotifyEVChargingNeedsRequest
pub record NeedsRequest : Type 0 where
  pub evse_id : ℤ
  pub dc_parameters : Field
  pub ac_parameters : Field
  pub is_dc_transfer : Bool

-- An active transaction: its key, its number and the key of its EVSE.
pub record Active : Type 0 where
  pub id : ℕ
  pub transaction_id : String
  pub evse : ℕ

-- matchedChargingType
unfoldable pub matches_type : NeedsRequest → Bool
matches_type r =
    is_present r.dc_parameters && r.is_dc_transfer
    || is_present r.ac_parameters && not r.is_dc_transfer

unfoldable pub is_refused : Option Active → NeedsRequest → Bool
unfolding matches_type
is_refused active r =
    not (is_some active)
    || not (is_not_null r.dc_parameters || is_not_null r.ac_parameters)
    || not (matches_type r)

abbrev pub place_in : Sender → Option ℤ → Option Source → Option Bool → Place
place_in s evse source active = record {
  tenant = s.tenant;
  station = s.station;
  evse_id = evse;
  source = source;
  is_active = active;
}

-- What is left to do once a profile is stored, or could not be.
unfoldable pub after_storing : World → Written → (World → World) → Result (Unit {0}) × World
after_storing w (throw e, t) then_do = (throw e, record w { tables = t })
after_storing w (ok u, t) then_do = (ok u, then_do (record w { tables = t }))

-- The steps behind the calculation; the needs go to the transaction that is active at an EVSE with
-- the number, of whatever tenant.
unfoldable pub keep_needs :
    Sender → NeedsRequest → Option ℕ → Profile → Option Active → World → Result (Unit {0}) × World
unfolding create_or_update after_storing
keep_needs s r transaction p none w = (throw (plain "No active transaction found"), w)
keep_needs s r transaction p (some found) w =
    let answered =
      emit (answer true) (record w { needs = w.needs ++ (found.evse, found.id) ∷ [] }) in
    after_storing answered
      (create_or_update (place_in s (some r.evse_id) none none) p transaction w.tables)
      (emit (call_set_profile r.evse_id p))

-- _handleNotifyEVChargingNeeds
unfoldable pub handle_notify_ev_charging_needs :
    Sender
    → Option Active
    → Result Profile
    → Option Active
    → Option ℕ
    → NeedsRequest
    → World
    → Result (Unit {0}) × World
unfolding is_refused keep_needs
handle_notify_ev_charging_needs s active calculated found transaction r w =
    if is_refused active r then (ok tt, emit (answer false) w) else elim calculated [
      | throw e ↦ (ok tt, emit (answer false) w)
      | ok p ↦ keep_needs s r transaction p found w
    ]

abbrev pub greater : ℕ → Option ℕ → ℕ
greater n none = n
greater n (some m) = if leb m n then n else m

-- The greatest of some numbers.
unfoldable pub greatest : List ℕ → Option ℕ
greatest [] = none
greatest (n ∷ ns) = some (greater n (greatest ns))

-- readNextValue
abbrev pub next_value : ℕ → Option ℕ → ℕ
next_value start none = start
next_value start (some n) = suc n

unfoldable pub ids_at : String → List Row → List ℕ
ids_at station [] = []
ids_at station (r ∷ rs) =
    let rest = ids_at station rs in if str_eq r.station station then r.id ∷ rest else rest

unfoldable pub schedule_ids_at : String → List ScheduleRow → List ℕ
schedule_ids_at station [] = []
schedule_ids_at station (r ∷ rs) =
    let rest = schedule_ids_at station rs in
    if str_eq r.station station then r.schedule.id ∷ rest else rest

abbrev pub level_of : ℤ → ℕ
level_of (pos n) = n
level_of (negsuc n) = 0

-- The stack levels of the profiles of a transaction for a purpose, none of which is negative.
unfoldable pub levels_at : String → ℕ → Purpose → List Row → List ℕ
levels_at station transaction purpose [] = []
levels_at station transaction purpose (r ∷ rs) =
    let rest = levels_at station transaction purpose rs in
    if str_eq r.station station
      && is_at_key r.transaction_database_id transaction
      && eq_purpose r.purpose purpose
    then level_of r.stack_level ∷ rest
    else rest

-- getNextChargingProfileId, getNextChargingScheduleId and getNextStackLevel
unfoldable pub next_charging_profile_id : String → Tables → ℕ
unfolding greatest ids_at
next_charging_profile_id station t = next_value 1 (greatest (ids_at station t.profiles))

unfoldable pub next_charging_schedule_id : String → Tables → ℕ
unfolding greatest schedule_ids_at
next_charging_schedule_id station t = next_value 1 (greatest (schedule_ids_at station t.schedules))

unfoldable pub next_stack_level : String → ℕ → Purpose → Tables → ℕ
unfolding greatest levels_at
next_stack_level station transaction purpose t =
    next_value 0 (greatest (levels_at station transaction purpose t.profiles))

-- _generateSetChargingProfileRequest
unfoldable pub generated_profile : String → Active → Schedule → Tables → Profile
unfolding next_charging_profile_id next_charging_schedule_id next_stack_level
generated_profile station active s t = record {
  id = next_charging_profile_id station t;
  stack_level = pos (next_stack_level station active.id tx_profile t);
  purpose = tx_profile;
  kind = absolute;
  valid_from = none;
  valid_to = none;
  schedules = (record s { id = next_charging_schedule_id station t }) ∷ [];
  transaction_id = some active.transaction_id;
}

-- _handleNotifyEVChargingSchedule; the check is that of the service for an active transaction.
unfoldable pub handle_notify_ev_charging_schedule :
    Sender → Option Active → Option Exception → ℤ → Schedule → World → World
unfolding generated_profile
handle_notify_ev_charging_schedule s none check evse schedule w = emit (answer true) w
handle_notify_ev_charging_schedule s (some active) none evse schedule w = emit (answer true) w
handle_notify_ev_charging_schedule s (some active) (some e) evse schedule w =
    emit (call_set_profile evse (generated_profile s.station active schedule w.tables))
      (emit (answer true) w)

abbrev pub go_on : Written → (Tables → Written) → Written
go_on (throw e, t) next = (throw e, t)
go_on (ok u, t) next = next t

-- The loop of _handleReportChargingProfiles; of each profile the key of its transaction is given.
unfoldable pub store_reported : Sender → ℤ → Source → List (Profile × Option ℕ) → Tables → Written
unfolding create_or_update
store_reported s evse source [] t = (ok tt, t)
store_reported s evse source ((p, transaction) ∷ ps) t =
    go_on (create_or_update (place_in s (some evse) (some source) (some true)) p transaction t)
      (store_reported s evse source ps)

-- _handleReportChargingProfiles
unfoldable pub handle_report_charging_profiles :
    Sender → ℤ → Source → List (Profile × Option ℕ) → World → Result (Unit {0}) × World
unfolding store_reported
handle_report_charging_profiles s evse source ps w =
    let (result, t) = store_reported s evse source ps w.tables in
    let stored = record w { tables = t } in
    elim result [ throw e ↦ (throw e, stored) | ok u ↦ (ok u, emit answer_empty stored) ]

-- _handleNotifyChargingLimit
abbrev pub handle_notify_charging_limit : World → World
handle_notify_charging_limit w = emit answer_empty w

-- _handleClearChargingProfile, for an accepted answer and any other
unfoldable pub handle_clear_charging_profile : Sender → Bool → World → World
unfolding deactivate
handle_clear_charging_profile s accepted w =
    if accepted
    then emit (call_get_profiles (cso ∷ ems ∷ so ∷ other ∷ []))
        (record w { tables = deactivate s.tenant s.station (λ r. true) w.tables })
    else w

-- _handleSetChargingProfile, for a rejected answer and any other
unfoldable pub handle_set_charging_profile : Sender → Bool → World → World
unfolding deactivate
handle_set_charging_profile s rejected w =
    if rejected
    then w
    else emit (call_get_profiles (cso ∷ []))
        (record w { tables = deactivate s.tenant s.station (λ r. eq_source r.source cso) w.tables })

-- _handleGetCompositeSchedule
unfoldable pub handle_get_composite_schedule : Sender → Bool → Option Composite → World → World
handle_get_composite_schedule s false schedule w = w
handle_get_composite_schedule s true none w = w
handle_get_composite_schedule s true (some c) w = record w {
  composites = w.composites ++ (s, c) ∷ [];
}
