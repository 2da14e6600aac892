-- ===== src/LocalList/Versions.antt =====
-- The lists as the stations have them: 01_Data/src/layers/sequelize/repository/LocalAuthList.ts, and the
-- handlers of SendLocalList and GetLocalListVersion in
-- 03_Modules/EVDriver/src/module/module.ts. Rows are in the order of their creation. What runs in a
-- transaction of the database leaves nothing where it fails.
use rexharge_citrineos_core.Prelude.{
  ℕ, zero, suc, String, Option, none, some, Bool, true, false, not, List, [], ◌∷◌, ◌++◌, str_eq,
  ◌==◌, ◌&&◌, ◌||◌, if◌then◌else◌,
}
use rexharge_citrineos_core.Rpc.Message.{Result, ok, throw, Exception, plain}
use rexharge_citrineos_core.Authorization.Mapping.{IdTokenType, IdTokenEnum, to_id_token_enum_type}
use rexharge_citrineos_core.LocalList.{UpdateType, full, differential, other}

-- The group of a token as the request may hold it: a token of its own, a number, of which 0 counts as
-- none, or something else.
pub data GroupToken : Type 0 where
  token : String → IdTokenEnum → GroupToken
  number : ℕ → GroupToken
  neither : GroupToken

-- AuthorizationData
pub record ListEntry : Type 0 where
  pub id_token : String
  pub token_type : IdTokenEnum
  pub group : Option GroupToken

-- A stored Authorization.
pub record StoredToken : Type 0 where
  pub id : ℕ
  pub id_token : String
  pub token_type : Option IdTokenType
  pub group_authorization_id : Option ℕ

-- A row of LocalListAuthorizations: its own key, and that of the authorization it is a copy of.
pub record ListAuthorization : Type 0 where
  pub id : ℕ
  pub authorization_id : ℕ

-- A row of LocalListVersions, and one of the table that links it to its entries.
pub record Version : Type 0 where
  pub id : ℕ
  pub tenant : ℕ
  pub station : String
  pub version_number : ℕ

pub record Link : Type 0 where
  pub version_id : ℕ
  pub authorization_id : ℕ

pub record ListTables : Type 0 where
  pub entries : List ListAuthorization
  pub versions : List Version
  pub links : List Link
  pub next_entry : ℕ
  pub next_version : ℕ

abbrev pub eq_option : Option ℕ → Option ℕ → Bool
eq_option none none = true
eq_option (some a) (some b) = a == b
eq_option a b = false

abbrev pub wrong_group : Exception
wrong_group = plain "Authorization groupIdToken does not match groupAuthorizationId in database"

-- `!auth.groupAuthorizationId || group !== auth.groupAuthorizationId`
abbrev pub differs : Option ℕ → Option ℕ → Bool
differs group none = true
differs group (some zero) = true
differs group (some (suc n)) = not (eq_option group (some (suc n)))

abbrev pub key_of : Option StoredToken → Option ℕ
key_of none = none
key_of (some auth) = some auth.id

-- The check of the group: in the branch of a token a second variable of the same name is assigned, and
-- the one that is compared at the end stays undefined.
unfoldable pub check_group :
    (String → IdTokenEnum → Option StoredToken) → StoredToken → Option GroupToken → Option Exception
check_group find auth none = none
check_group find auth (some (token id type)) =
    let outer : Option ℕ = none in
    if differs (key_of (find id type)) auth.group_authorization_id
    then some wrong_group
    else if differs outer auth.group_authorization_id
    then some wrong_group
    else none
check_group find auth (some (number zero)) = none
check_group find auth (some (number (suc n))) =
    if differs (some (suc n)) auth.group_authorization_id then some wrong_group else none
check_group find auth (some neither) =
    if differs none auth.group_authorization_id then some wrong_group else none

abbrev pub type_text : IdTokenEnum → String
type_text IdTokenEnum.central = "Central"
type_text IdTokenEnum.e_maid = "eMAID"
type_text IdTokenEnum.iso14443 = "ISO14443"
type_text IdTokenEnum.iso15693 = "ISO15693"
type_text IdTokenEnum.key_code = "KeyCode"
type_text IdTokenEnum.local = "Local"
type_text IdTokenEnum.mac_address = "MacAddress"
type_text IdTokenEnum.no_authorization = "NoAuthorization"

abbrev pub type_differs : IdTokenEnum → Option IdTokenType → Bool
type_differs t none = false
type_differs t (some u) = not (str_eq (type_text t) (type_text (to_id_token_enum_type u)))

unfoldable pub check_found :
    (String → IdTokenEnum → Option StoredToken)
    → ListEntry
    → Option StoredToken
    → Result StoredToken
unfolding check_group
check_found find e none = throw (plain "Authorization not found, invalid SendLocalListRequest")
check_found find e (some auth) =
    if not (str_eq e.id_token auth.id_token) || type_differs e.token_type auth.token_type
    then throw (plain "Authorization idToken does not match idToken in database")
    else elim (check_group find auth e.group) [ none ↦ ok auth | some x ↦ throw x ]

-- The checks of one entry of a request.
unfoldable pub check_entry :
    (String → IdTokenEnum → Option StoredToken) → ListEntry → Result StoredToken
unfolding check_found
check_entry find e = check_found find e (find e.id_token e.token_type)

abbrev pub add_entry : StoredToken → ListTables → ListTables
add_entry auth t = record t {
  entries = t.entries ++ record { id = t.next_entry; authorization_id = auth.id } ∷ [];
  next_entry = suc t.next_entry;
}

abbrev pub prepended :
    ListAuthorization → Result (List ListAuthorization) → Result (List ListAuthorization)
prepended e (throw x) = throw x
prepended e (ok l) = ok (e ∷ l)

abbrev pub with_entry :
    Result StoredToken
    → ListTables
    → (ListTables → Result (List ListAuthorization) × ListTables)
    → Result (List ListAuthorization) × ListTables
with_entry (throw x) t next = (throw x, t)
with_entry (ok auth) t next =
    let (rest, t') = next (add_entry auth t) in
    (prepended (record { id = t.next_entry; authorization_id = auth.id }) rest, t')

-- The loop of createSendLocalListFromRequestData, with the entries of the list that is stored.
unfoldable pub create_entries :
    (String → IdTokenEnum → Option StoredToken)
    → List ListEntry
    → ListTables
    → Result (List ListAuthorization) × ListTables
unfolding check_entry
create_entries find [] t = (ok [], t)
create_entries find (e ∷ es) t = with_entry (check_entry find e) t (create_entries find es)

-- A stored list that was sent.
pub record SentList : Type 0 where
  pub version_number : ℕ
  pub update_type : UpdateType
  pub entries : Option (List ListAuthorization)

unfoldable pub find_version : String → List Version → Option Version
find_version station [] = none
find_version station (v ∷ vs) =
    let rest = find_version station vs in if str_eq v.station station then some v else rest

-- LocalListVersionAuthorization.destroy, over the links that pass a test
unfoldable pub destroy : (Link → Bool) → List Link → List Link
destroy p [] = []
destroy p (l ∷ ls) = let rest = destroy p ls in if p l then rest else l ∷ rest

abbrev pub is_of : ℕ → Link → Bool
is_of version l = l.version_id == version

unfoldable pub links_to : ℕ → List ListAuthorization → List Link
links_to version [] = []
links_to version (e ∷ es) =
    record { version_id = version; authorization_id = e.id } ∷ links_to version es

abbrev pub entries_of : Option (List ListAuthorization) → List ListAuthorization
entries_of none = []
entries_of (some l) = l

unfoldable pub without_station : String → List Version → List Version
without_station station [] = []
without_station station (v ∷ vs) =
    let rest = without_station station vs in if str_eq v.station station then rest else v ∷ rest

abbrev pub old_links : Option Version → List Link → List Link
old_links none links = links
old_links (some v) links = destroy (is_of v.id) links

-- replaceLocalListVersionFromStationIdAndSendLocalList
unfoldable pub replace_version : ℕ → String → SentList → ListTables → ListTables
unfolding find_version destroy without_station links_to
replace_version tenant station l t = record t {
  versions =
      without_station station t.versions
      ++ record {
        id = t.next_version;
        tenant = tenant;
        station = station;
        version_number = l.version_number;
      }
        ∷ [];
  links =
      old_links (find_version station t.versions) t.links
      ++ links_to t.next_version (entries_of l.entries);
  next_version = suc t.next_version;
}

unfoldable pub set_version : String → ℕ → List Version → List Version
set_version station n [] = []
set_version station n (v ∷ vs) =
    (if str_eq v.station station then record v { version_number = n } else v)
    ∷ set_version station n vs

-- The authorizations behind the links of a version.
unfoldable pub authorization_of : ℕ → List ListAuthorization → Option ℕ
authorization_of id [] = none
authorization_of id (e ∷ es) =
    let rest = authorization_of id es in if e.id == id then some e.authorization_id else rest

unfoldable pub has_authorization : ℕ → ℕ → List ListAuthorization → List Link → Bool
unfolding authorization_of
has_authorization version authorization entries [] = false
has_authorization version authorization entries (l ∷ ls) =
    is_of version l && eq_option (authorization_of l.authorization_id entries) (some authorization)
    || has_authorization version authorization entries ls

abbrev pub is_link : ℕ → ℕ → Link → Bool
is_link version id l = l.version_id == version && l.authorization_id == id

-- The loop of the differential update. Which entries the version had is read once, before it: `old`.
-- What is destroyed is the link with the key of the authorization, where links have keys of entries.
unfoldable pub merge_entries :
    ℕ → List ListAuthorization → List Link → List ListAuthorization → List Link → List Link
unfolding has_authorization destroy
merge_entries version entries old [] links = links
merge_entries version entries old (e ∷ es) links = merge_entries version entries old es (
    (if has_authorization version e.authorization_id entries old
      then destroy (is_link version e.authorization_id) links
      else links)
    ++ record { version_id = version; authorization_id = e.id } ∷ [])

unfoldable pub update_found : Option Version → String → SentList → ListTables → Result ListTables
unfolding merge_entries set_version
update_found none station l t = throw (plain "LocalListVersion not found for station")
update_found (some v) station l t = ok (record t {
  versions = set_version station l.version_number t.versions;
  links = elim l.entries [
    | none ↦ t.links
    | some es ↦ merge_entries v.id t.entries t.links es t.links
  ];
})

-- updateLocalListVersionFromStationIdAndSendLocalListRequest; a station has one version at most.
unfoldable pub update_version : String → SentList → ListTables → Result ListTables
unfolding update_found find_version
update_version station l t = update_found (find_version station t.versions) station l t

-- createOrUpdateLocalListVersionFromStationIdAndSendLocalList
unfoldable pub create_or_update_version :
    ℕ → String → SentList → UpdateType → ListTables → Result ListTables
unfolding replace_version update_version
create_or_update_version tenant station l full t = ok (replace_version tenant station l t)
create_or_update_version tenant station l differential t = update_version station l t
create_or_update_version tenant station l (other u) t = ok t

unfoldable pub validate_found : Option Version → ℕ → String → ℕ → ListTables → ListTables
unfolding set_version destroy
validate_found none tenant station n t = record t {
  versions =
      t.versions
      ++ record { id = t.next_version; tenant = tenant; station = station; version_number = n }
        ∷ [];
  next_version = suc t.next_version;
}
validate_found (some v) tenant station n t = if v.version_number == n then t else record t {
  versions = set_version station n t.versions;
  links = destroy (is_of v.id) t.links;
}

-- validateOrReplaceLocalListVersionForStation, the handler of GetLocalListVersion
unfoldable pub validate_or_replace : ℕ → String → ℕ → ListTables → ListTables
unfolding validate_found find_version
validate_or_replace tenant station n t =
    validate_found (find_version station t.versions) tenant station n t

-- SendLocalListStatusEnumType, and any other text
pub data SendStatus : Type 0 where
  accepted failed version_mismatch : SendStatus
  unknown : String → SendStatus

-- The row as getSendLocalListRequestByStationIdAndCorrelationId reads it: the query includes no other
-- table, so the entries are not loaded.
abbrev pub as_read : SentList → SentList
as_read l = record l { entries = none }

-- _handleSendLocalList for the list that was sent, if it is found; the flag says whether the version is
-- asked for.
unfoldable pub handle_send_local_list :
    ℕ → String → Option SentList → SendStatus → ListTables → Result ListTables × Bool
unfolding create_or_update_version
handle_send_local_list tenant station none status t = (ok t, false)
handle_send_local_list tenant station (some l) accepted t =
    (create_or_update_version tenant station (as_read l) l.update_type t, false)
handle_send_local_list tenant station (some l) failed t = (ok t, false)
handle_send_local_list tenant station (some l) version_mismatch t = (ok t, true)
handle_send_local_list tenant station (some l) (unknown s) t = (ok t, false)
