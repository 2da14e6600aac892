-- ===== src/Authenticator/Tests.antt =====
-- The upgrade of one station.
use rexharge_citrineos_core.Prelude.{refl, some, false, [], ◌∷◌, empty, str_eq, arith}
use rexharge_citrineos_core.Prelude.Text.{Lacks, split}
use rexharge_citrineos_core.Cache.Store.{get_text}
use rexharge_citrineos_core.Authenticator.{
  Directory, AuthenticationOptions, authenticate, get_client_id_from_url, unknown_station_filter,
  connected_station_filter, network_profile_filter, basic_authentication_filter, is_slot_allowed,
  allows_any, extract_basic_credentials, check_credentials, is_password_valid, split_once,
}
use rexharge_citrineos_core.Authenticator.Admission.{IsAdmitted, authenticate-IsAdmitted}

abbrev directory : Directory
directory = record {
  is_known = λ tenant station. str_eq station "cs1";
  slots = λ tenant station. 1 ∷ [];
  profile_of_slot = λ station slot. some (some 1);
  stored_password = λ tenant station. some "hash";
  is_password_match = λ stored password. str_eq password "secret";
  decode = λ encoded. "cs1:secret";
}

abbrev options : AuthenticationOptions
options = record { security_profile = 1; allow_unknown_charging_stations = false }

authenticate-IsAdmitted_example :
    IsAdmitted directory 1 (get_client_id_from_url "/ocpp/cs1") (some "Basic Y3Mx") options empty
unfolding authenticate get_client_id_from_url split unknown_station_filter connected_station_filter
    get_text network_profile_filter basic_authentication_filter is_slot_allowed allows_any
    extract_basic_credentials check_credentials is_password_valid split_once
authenticate-IsAdmitted_example =
    authenticate-IsAdmitted directory 1 "/ocpp/cs1" (some "Basic Y3Mx") options empty refl

Lacks-cs1 : Lacks b':' "cs1"
Lacks-cs1 = (λ e. ground arith, (λ e. ground arith, (λ e. ground arith, tt)))
