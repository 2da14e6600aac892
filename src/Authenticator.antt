-- ===== src/Authenticator.antt =====
-- The upgrade of a station's request to a websocket: 02_Util/src/networkconnection/authenticator (the
-- Authenticator and its four filters), and the cache entry of a connection that
-- 02_Util/src/networkconnection/WebsocketNetworkConnection.ts sets and removes.
pub mod Admission
pub mod Duplicates
mod Tests
use Prim.Native.Char.{Char, code}
use Prim.Native.String.{[], ◌∷◌}
use rexharge_citrineos_core.Prelude.{
  ℕ, ◌≤◌, String, Option, none, some, Bool, true, false, not, ◌&&◌, ◌||◌, List, str_eq,
  if◌then◌else◌, ◌==◌, leb, is_some,
}
use rexharge_citrineos_core.Prelude.Text.{concat, split}
use rexharge_citrineos_core.Identifier.{create_identifier, namespace_text, connections}
use rexharge_citrineos_core.Cache.Store.{Store, get_text, set, remove_key}

pub data UpgradeError : Type 0 where
  unknown_identifier unauthorized : UpgradeError
  already_connected missing_header : UpgradeError
  profile_not_allowed : ℕ → UpgradeError

pub record AuthenticationOptions : Type 0 where
  pub security_profile : ℕ
  pub allow_unknown_charging_stations : Bool

-- What the database and the libraries answer: whether a station is known, the slots that its network
-- configuration names (none if it has none that are numbers), the security profile of the server that
-- a slot stands for (none inside, if the server is not there), the stored password of a station, the
-- comparison of a password with a stored one, and the decoding of base64.
pub record Directory : Type 0 where
  pub is_known : ℕ → String → Bool
  pub slots : ℕ → String → List ℕ
  pub profile_of_slot : String → ℕ → Option (Option ℕ)
  pub stored_password : ℕ → String → Option String
  pub is_password_match : String → String → Bool
  pub decode : String → String

-- splitOnce, for a separator of one character
pub split_once : ℕ → String → String × Option String
split_once sep [] = ([], none)
split_once sep (c ∷ s) =
    let (first, rest) = split_once sep s in
    if code c == sep then ([], some s) else (c ∷ first, rest)

-- _getClientIdFromUrl
last_part : String → List String → String
last_part part List.[] = part
last_part part (List.◌∷◌ p parts) = last_part p parts

unfoldable pub get_client_id_from_url : String → String
unfolding last_part
get_client_id_from_url url = last_part "" (split b'/' url)

credentials_in : (String → String) → List String → Option (String × Option String)
credentials_in decode (List.◌∷◌ scheme (List.◌∷◌ encoded parts)) =
    if str_eq scheme "Basic" then some (split_once b':' (decode encoded)) else none
credentials_in decode parts = none

-- extractBasicCredentials
unfoldable pub extract_basic_credentials :
    (String → String) → Option String → Option (String × Option String)
unfolding credentials_in
extract_basic_credentials decode none = none
extract_basic_credentials decode (some header) = credentials_in decode (split b' ' header)

-- Every filter gives the error that it throws, if it throws one.
pub unknown_station_filter : Directory → ℕ → String → AuthenticationOptions → Option UpgradeError
unknown_station_filter d tenant identifier options =
    if options.allow_unknown_charging_stations || d.is_known tenant identifier
    then none
    else some unknown_identifier

unfoldable pub connected_station_filter : String → Store → Option UpgradeError
connected_station_filter identifier cache =
    if is_some (get_text identifier (some (namespace_text connections)) cache)
    then some already_connected
    else none

-- One slot: an unknown one lets the station pass, a known one compares the profiles.
abbrev pub allows_slot : ℕ → Option (Option ℕ) → Bool
allows_slot profile none = true
allows_slot profile (some none) = false
allows_slot profile (some (some server)) = leb server profile

pub allows_any : Directory → String → ℕ → List ℕ → Bool
allows_any d identifier profile List.[] = false
allows_any d identifier profile (List.◌∷◌ slot slots) =
    allows_slot profile (d.profile_of_slot identifier slot) || allows_any d identifier profile slots

-- _isConfigurationSlotAllowed
pub is_slot_allowed : Directory → String → ℕ → List ℕ → Bool
unfolding allows_any
is_slot_allowed d identifier profile List.[] = true
is_slot_allowed d identifier profile (List.◌∷◌ slot slots) =
    allows_any d identifier profile (List.◌∷◌ slot slots)

pub network_profile_filter : Directory → ℕ → String → AuthenticationOptions → Option UpgradeError
network_profile_filter d tenant identifier options =
    if is_slot_allowed d identifier options.security_profile (d.slots tenant identifier)
    then none
    else some (profile_not_allowed options.security_profile)

-- _isPasswordValid; an empty stored password counts as none
pub is_password_valid : Directory → Option String → String → Bool
is_password_valid d none password = false
is_password_valid d (some stored) password =
    not (str_eq stored "") && d.is_password_match stored password

pub check_credentials :
    Directory → ℕ → String → Option (String × Option String) → Option UpgradeError
unfolding is_password_valid
check_credentials d tenant identifier none = some missing_header
check_credentials d tenant identifier (some (username, none)) = some missing_header
check_credentials d tenant identifier (some (username, some password)) =
    if str_eq username "" || str_eq password ""
    then some missing_header
    else if str_eq username identifier
        && is_password_valid d (d.stored_password tenant username) password
    then none
    else some unauthorized

pub basic_authentication_filter :
    Directory → ℕ → String → Option String → AuthenticationOptions → Option UpgradeError
unfolding check_credentials
basic_authentication_filter d tenant identifier header options =
    if options.security_profile == 1 || options.security_profile == 2
    then check_credentials d tenant identifier (extract_basic_credentials d.decode header)
    else none

-- The first error of two.
abbrev pub or_else : Option UpgradeError → Option UpgradeError → Option UpgradeError
or_else none e = e
or_else (some e) e' = some e

-- authenticate: the error, if there is one; the identifier is that of the URL
unfoldable pub authenticate :
    Directory → ℕ → String → Option String → AuthenticationOptions → Store → Option UpgradeError
authenticate d tenant url header options cache =
    let identifier = get_client_id_from_url url in
    or_else (unknown_station_filter d tenant identifier options) (
      or_else (connected_station_filter identifier cache) (
        or_else (network_profile_filter d tenant identifier options)
          (basic_authentication_filter d tenant identifier header options)))

-- _onConnection: the entry of the new connection
unfoldable pub register_client : ℕ → String → String → Store → Store
register_client tenant station connection cache =
    set (create_identifier tenant station) connection (some (namespace_text connections)) cache

-- onclose: the entry of the connection
unfoldable pub unregister_client : ℕ → String → Store → Store
unregister_client tenant station cache =
    (remove_key (create_identifier tenant station) (some (namespace_text connections)) cache).1
