-- ===== src/ChargingProfiles/Store.antt =====
-- The stored charging profiles: 01_Data/src/layers/sequelize/repository/ChargingProfile.ts and
-- the model ChargingProfile.ts, over rows in the order of their creation. The columns of a row that
-- an update is given no value for keep theirs. A row is refused where there is one of the same station
-- name and number already, of whatever tenant; what was written before stays.
use rexharge_citrineos_core.Prelude.{
  ℕ, suc, String, Option, none, some, Bool, false, not, List, [], ◌∷◌, ◌++◌, map, any, ◌==◌, str_eq,
  ◌&&◌, if◌then◌else◌, get_or,
}
use rexharge_citrineos_core.Prelude.Int.{ℤ}
use rexharge_citrineos_core.Rpc.Message.{Result, ok, throw, plain}
use rexharge_citrineos_core.ChargingProfiles.{
  Purpose, Kind, Source, cso, Profile, Schedule, SalesTariff,
}

-- A row of ChargingProfiles.
pub record Row : Type 0 where
  pub database_id : ℕ
  pub tenant : ℕ
  pub station : String
  pub id : ℕ
  pub stack_level : ℤ
  pub purpose : Purpose
  pub kind : Kind
  pub valid_from : Option ℕ
  pub valid_to : Option ℕ
  pub evse_id : Option ℤ
  pub transaction_database_id : Option ℕ
  pub source : Source
  pub is_active : Bool

-- A row of ChargingSchedules, and one of SalesTariffs.
pub record ScheduleRow : Type 0 where
  pub database_id : ℕ
  pub tenant : ℕ
  pub station : String
  pub profile_database_id : ℕ
  pub schedule : Schedule

pub record TariffRow : Type 0 where
  pub tenant : ℕ
  pub schedule_database_id : ℕ
  pub tariff : SalesTariff

-- The tables, and the next keys that the database gives out.
pub record Tables : Type 0 where
  pub profiles : List Row
  pub schedules : List ScheduleRow
  pub tariffs : List TariffRow
  pub next_profile : ℕ
  pub next_schedule : ℕ

unfoldable pub filter {ℓ} : {A : Type ℓ} → (A → Bool) → List A → List A
filter p [] = []
filter p (x ∷ xs) = let rest = filter p xs in if p x then x ∷ rest else rest

abbrev pub is_row : ℕ → String → ℕ → Row → Bool
is_row tenant station id r = r.tenant == tenant && str_eq r.station station && r.id == id

abbrev pub is_numbered : String → ℕ → Row → Bool
is_numbered station id r = str_eq r.station station && r.id == id

unfoldable pub find_row : (Row → Bool) → List Row → Option Row
find_row p [] = none
find_row p (r ∷ rs) = let rest = find_row p rs in if p r then some r else rest

-- the new value of a column, if there is one
abbrev pub or_kept {ℓ} : {A : Type ℓ} → Option A → Option A → Option A
or_kept none old = old
or_kept (some a) old = some a

-- What createOrUpdateChargingProfile is given beside the profile.
pub record Place : Type 0 where
  pub tenant : ℕ
  pub station : String
  pub evse_id : Option ℤ
  pub source : Option Source
  pub is_active : Option Bool

abbrev pub new_row : ℕ → Place → Profile → Option ℕ → Row
new_row key place p transaction = record {
  database_id = key;
  tenant = place.tenant;
  station = place.station;
  id = p.id;
  stack_level = p.stack_level;
  purpose = p.purpose;
  kind = p.kind;
  valid_from = p.valid_from;
  valid_to = p.valid_to;
  evse_id = place.evse_id;
  transaction_database_id = transaction;
  source = get_or place.source cso;
  is_active = get_or place.is_active false;
}

abbrev pub updated_row : Place → Profile → Option ℕ → Row → Row
updated_row place p transaction r = record r {
  stack_level = p.stack_level;
  purpose = p.purpose;
  kind = p.kind;
  valid_from = or_kept p.valid_from r.valid_from;
  valid_to = or_kept p.valid_to r.valid_to;
  evse_id = or_kept place.evse_id r.evse_id;
  transaction_database_id = or_kept transaction r.transaction_database_id;
  source = get_or place.source cso;
  is_active = get_or place.is_active false;
}

-- updateByKey
unfoldable pub update_row : ℕ → (Row → Row) → List Row → List Row
update_row key f [] = []
update_row key f (r ∷ rs) = (if r.database_id == key then f r else r) ∷ update_row key f rs

abbrev pub has_profile : ℕ → ScheduleRow → Bool
has_profile key s = s.profile_database_id == key

abbrev pub has_schedule : List ScheduleRow → TariffRow → Bool
has_schedule deleted t = any (λ s. s.database_id == t.schedule_database_id) deleted

-- The schedules of a profile and their tariffs are deleted.
unfoldable pub delete_schedules : ℕ → Tables → Tables
unfolding filter
delete_schedules key t = record t {
  schedules = filter (λ s. not (has_profile key s)) t.schedules;
  tariffs = filter (λ x. not (has_schedule (filter (has_profile key) t.schedules) x)) t.tariffs;
}

abbrev pub tariff_rows : ℕ → ℕ → Option SalesTariff → List TariffRow
tariff_rows tenant key none = []
tariff_rows tenant key (some tariff) =
    record { tenant = tenant; schedule_database_id = key; tariff = tariff } ∷ []

-- What a sequence of writes leaves, and whether it came to its end.
abbrev pub Written : Type 0
Written = Result (Unit {0}) × Tables

abbrev pub is_scheduled : String → ℕ → ScheduleRow → Bool
is_scheduled station id s = str_eq s.station station && s.schedule.id == id

unfoldable pub create_schedule : Place → ℕ → Schedule → Tables → Tables
create_schedule place key s t = record t {
  schedules =
      t.schedules
      ++ record {
        database_id = t.next_schedule;
        tenant = place.tenant;
        station = place.station;
        profile_database_id = key;
        schedule = s;
      }
        ∷ [];
  tariffs = t.tariffs ++ tariff_rows place.tenant t.next_schedule s.sales_tariff;
  next_schedule = suc t.next_schedule;
}

-- the loop over the schedules
unfoldable pub create_schedules : Place → ℕ → List Schedule → Tables → Written
unfolding create_schedule
create_schedules place key [] t = (ok tt, t)
create_schedules place key (s ∷ ss) t =
    let rest = create_schedules place key ss (create_schedule place key s t) in
    if any (is_scheduled place.station s.id) t.schedules
    then (throw (plain "Validation error"), t)
    else rest

abbrev pub insert_row : Row → Tables → Tables
insert_row r t = record t { profiles = t.profiles ++ r ∷ []; next_profile = suc t.next_profile }

-- The row is there: it is updated, and its schedules are replaced.
unfoldable pub replace_profile : Place → Profile → Option ℕ → Row → Tables → Written
unfolding update_row delete_schedules create_schedules
replace_profile place p transaction r t = create_schedules place r.database_id p.schedules (
    delete_schedules r.database_id (record t {
      profiles = update_row r.database_id (updated_row place p transaction) t.profiles;
    }))

unfoldable pub create_profile : Place → Profile → Option ℕ → Tables → Written
unfolding create_schedules
create_profile place p transaction t =
    if any (is_numbered place.station p.id) t.profiles
    then (throw (plain "Validation error"), t)
    else create_schedules place t.next_profile p.schedules
        (insert_row (new_row t.next_profile place p transaction) t)

unfoldable pub create_or_replace : Place → Profile → Option ℕ → Option Row → Tables → Written
unfolding replace_profile create_profile
create_or_replace place p transaction none t = create_profile place p transaction t
create_or_replace place p transaction (some r) t = replace_profile place p transaction r t

-- createOrUpdateChargingProfile; the transaction is the first of the station, of whatever tenant,
-- with the number of the profile.
unfoldable pub create_or_update : Place → Profile → Option ℕ → Tables → Written
unfolding create_or_replace find_row
create_or_update place p transaction t =
    create_or_replace place p transaction
      (find_row (is_row place.tenant place.station p.id) t.profiles) t

-- updateAllByQuery with isActive false, over the active rows of a station that pass a test
unfoldable pub deactivate : ℕ → String → (Row → Bool) → Tables → Tables
deactivate tenant station p t = record t {
  profiles =
      map
        (λ r.
          if r.tenant == tenant && str_eq r.station station && r.is_active && p r
          then record r { is_active = false }
          else r)
        t.profiles;
}
