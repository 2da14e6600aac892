-- ===== src/LocalList.antt =====
-- The checks of a local authorization list before it is sent
-- (03_Modules/EVDriver/src/module/LocalAuthListService.ts). The list is stored before the last two
-- checks; what was stored is a log with the newest first. Of the messages of errors only fixed parts are
-- kept.
pub mod Sendable
pub mod Versions
pub mod Stations
mod Tests
use rexharge_citrineos_core.Prelude.{
  ℕ, zero, suc, String, Option, none, some, Bool, true, false, not, List, [], ◌∷◌, ◌++◌, map,
  length, any, str_eq, if◌then◌else◌, ◌==◌, ltb, leb, get_or, is_some, ◌&&◌,
}
use rexharge_citrineos_core.Prelude.Text.{concat}
use rexharge_citrineos_core.Rpc.Message.{Result, ok, throw, Exception, plain}

pub data UpdateType : Type 0 where
  full differential : UpdateType
  other : String → UpdateType

pub record AuthorizationData : Type 0 where
  pub id_token : String
  pub token_type : String

pub record SendLocalListRequest : Type 0 where
  pub version_number : ℕ
  pub update_type : UpdateType
  pub authorizations : Option (List AuthorizationData)

-- A stored list, by the identifiers of its authorizations.
pub record SendLocalList : Type 0 where
  pub update_type : UpdateType
  pub authorization_ids : List ℕ

pub record LocalListVersion : Type 0 where
  pub version_number : ℕ
  pub authorization_ids : List ℕ

-- A row of VariableCharacteristics with its variable, which belongs to no station.
pub record VariableCharacteristics : Type 0 where
  pub variable_name : String
  pub variable_instance : Option String
  pub max_limit : Option ℕ

-- What the repositories answer: the list that they store for a request, or what they throw; the rows
-- of characteristics, of all stations and tenants; and a variable of the station's device model.
pub record Repositories : Type 0 where
  pub create : SendLocalListRequest → Result SendLocalList
  pub characteristics : List VariableCharacteristics
  pub items_per_message : Option ℕ

abbrev pub is_of_variable : String → VariableCharacteristics → Bool
is_of_variable name c = str_eq c.variable_name name && not (is_some c.variable_instance)

-- findVariableCharacteristicsByVariableNameAndVariableInstance without an instance, and its maxLimit
pub find_limit : String → List VariableCharacteristics → Option ℕ
find_limit name [] = none
find_limit name (c ∷ cs) =
    let rest = find_limit name cs in if is_of_variable name c then c.max_limit else rest

-- getMaxLocalAuthListEntries
pub entries_limit : Repositories → Option ℕ
unfolding find_limit
entries_limit repositories = find_limit "Entries" repositories.characteristics

-- The elements of `new Set(xs)`.
pub distinct {ℓ} : {A : Type ℓ} → (A → A → Bool) → List A → List A
distinct eq [] = []
distinct eq (x ∷ xs) = let rest = distinct eq xs in if any (eq x) rest then rest else x ∷ rest

abbrev pub token_key : AuthorizationData → String
token_key auth = concat auth.id_token auth.token_type

pub has_duplicates : Option (List AuthorizationData) → Bool
has_duplicates none = false
has_duplicates (some auths) =
    ltb 1 (length auths)
    && not (length (distinct str_eq (map token_key auths)) == length (map token_key auths))

abbrev pub is_outdated : Option LocalListVersion → ℕ → Bool
is_outdated none version = false
is_outdated (some current) version = leb version current.version_number

-- createSendLocalListFromStationIdAndRequestAndCurrentVersion
pub create_send_local_list :
    Repositories → Option LocalListVersion → SendLocalListRequest → Result SendLocalList
unfolding has_duplicates
create_send_local_list repositories current request =
    if request.version_number == 0
    then throw (plain "Version number must be greater than 0, see D01.FR.18")
    else if is_outdated current request.version_number
    then throw (plain "version number must be higher")
    else if has_duplicates request.authorizations
    then throw (plain "Duplicated idToken in SendLocalList")
    else repositories.create request

abbrev pub ids_of : Option LocalListVersion → List ℕ
ids_of none = []
ids_of (some current) = current.authorization_ids

abbrev pub eq_number : ℕ → ℕ → Bool
eq_number a b = a == b

-- countUpdatedAuthListFromRequestAndCurrentVersion
pub count_for : UpdateType → List ℕ → List ℕ → Result ℕ
unfolding distinct
count_for full ids current = ok (length ids)
count_for differential ids current = ok (length (distinct eq_number (ids ++ current)))
count_for (other t) ids current = throw (plain (concat "Unknown update type " t))

-- The check of the number of entries; no limit, or a limit of zero, is an error.
pub check_entries : Option ℕ → ℕ → Option Exception
check_entries none n =
    some (plain "Could not get max local auth list entries, required by D01.FR.12")
check_entries (some zero) n =
    some (plain "Could not get max local auth list entries, required by D01.FR.12")
check_entries (some (suc max)) n =
    if ltb (suc max) n
    then some (plain "Updated local auth list length will exceed max local auth list entries")
    else none

-- The check of the items of one message; without a limit, or with a limit of zero, the list's own
-- length stands in.
abbrev pub items_limit : Option ℕ → ℕ → ℕ
items_limit none n = n
items_limit (some zero) n = n
items_limit (some (suc m)) n = suc m

pub check_items : Option ℕ → Option (List AuthorizationData) → Option Exception
check_items limit none = none
check_items limit (some auths) =
    if not (items_limit limit (length auths) == 0)
      && ltb (items_limit limit (length auths)) (length auths)
    then some (plain "Number of authorizations exceeds itemsPerMessageSendLocalList")
    else none

abbrev pub first_of : Option Exception → Option Exception → SendLocalList → Result SendLocalList
first_of (some e) later l = throw e
first_of none (some e) l = throw e
first_of none none l = ok l

pub check_stored :
    Repositories → SendLocalListRequest → SendLocalList → Result ℕ → Result SendLocalList
unfolding check_entries check_items entries_limit
check_stored repositories request l (throw e) = throw e
check_stored repositories request l (ok n) =
    first_of (check_entries (entries_limit repositories) n)
      (check_items repositories.items_per_message request.authorizations) l

pub persist_created :
    Repositories
    → Option LocalListVersion
    → SendLocalListRequest
    → Result SendLocalList
    → List SendLocalList
    → Result SendLocalList × List SendLocalList
unfolding check_stored count_for
persist_created repositories current request (throw e) stored = (throw e, stored)
persist_created repositories current request (ok l) stored = (
  check_stored repositories request l
      (count_for l.update_type l.authorization_ids (ids_of current)),
  l ∷ stored,
)

-- persistSendLocalListForStationIdAndCorrelationIdAndSendLocalListRequest
pub persist_send_local_list :
    Repositories
    → Option LocalListVersion
    → SendLocalListRequest
    → List SendLocalList
    → Result SendLocalList × List SendLocalList
unfolding create_send_local_list persist_created
persist_send_local_list repositories current request stored =
    persist_created repositories current request
      (create_send_local_list repositories current request) stored
