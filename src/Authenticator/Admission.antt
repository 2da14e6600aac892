-- ===== src/Authenticator/Admission.antt =====
-- Who is admitted.
use rexharge_citrineos_core.Prelude.{
  ℕ, String, ◌≡◌, refl, Option, none, some, true, false, arith, ◌||◌, ◌==◌, eq_iff, is_some, ap,
  subst, ◌∙◌, Bool-cases, inl, inr, ◌⊎◌,
}
use rexharge_citrineos_core.Cache.Store.{Store, get_text}
use rexharge_citrineos_core.Identifier.{namespace_text, connections}
use rexharge_citrineos_core.Authenticator.{
  Directory, AuthenticationOptions, authenticate, get_client_id_from_url, unknown_station_filter,
  connected_station_filter, network_profile_filter, basic_authentication_filter, is_slot_allowed,
  check_credentials, extract_basic_credentials, is_password_valid,
}

-- The credentials of the header name the station and fit its password.
pub record HasCredentials (d : Directory) (tenant : ℕ) (identifier : String)
    (header : Option String) : Type 0 where
  pub password : String
  pub given : extract_basic_credentials d.decode header ≡ some (identifier, some password)
  pub fits : is_password_valid d (d.stored_password tenant identifier) password ≡ true

check_credentials_sound :
    (d : Directory) (tenant : ℕ) (identifier : String) (header : Option String)
    (o : Option (String × Option String))
    → extract_basic_credentials d.decode header ≡ o
    → check_credentials d tenant identifier o ≡ none
    → HasCredentials d tenant identifier header
unfolding check_credentials
check_credentials_sound d tenant identifier header none e h = ground arith
check_credentials_sound d tenant identifier header (some (username, none)) e h = ground arith
check_credentials_sound d tenant identifier header (some (username, some password)) e h = record {
  password = password;
  given = e ∙ ap (λ u. some (u, some password)) same;
  fits = subst (λ u. is_password_valid d (d.stored_password tenant u) password ≡ true) same valid;
}
  where
    same : username ≡ identifier
    same = (eq_iff username identifier).0 (ground arith)

    valid : is_password_valid d (d.stored_password tenant username) password ≡ true
    valid = ground arith

-- What a station that is admitted has passed.
pub record IsAdmitted (d : Directory) (tenant : ℕ) (identifier : String) (header : Option String)
    (options : AuthenticationOptions) (cache : Store) : Type 0 where
  pub known : options.allow_unknown_charging_stations || d.is_known tenant identifier ≡ true
  pub no_entry : is_some (get_text identifier (some (namespace_text connections)) cache) ≡ false
  pub slot_allowed :
      is_slot_allowed d identifier options.security_profile (d.slots tenant identifier) ≡ true
  pub credentials :
      (options.security_profile == 1 || options.security_profile == 2 ≡ false)
      ⊎ HasCredentials d tenant identifier header

filters_pass :
    (d : Directory) (tenant : ℕ) (identifier : String) (header : Option String)
    (options : AuthenticationOptions) (cache : Store)
    → unknown_station_filter d tenant identifier options ≡ none
    → connected_station_filter identifier cache ≡ none
    → network_profile_filter d tenant identifier options ≡ none
    → basic_authentication_filter d tenant identifier header options ≡ none
    → IsAdmitted d tenant identifier header options cache
unfolding unknown_station_filter connected_station_filter network_profile_filter
    basic_authentication_filter
filters_pass d tenant identifier header options cache a b c e = record {
  known = ground arith;
  no_entry = ground arith;
  slot_allowed = ground arith;
  credentials = elim (Bool-cases (options.security_profile == 1 || options.security_profile == 2)) [
    | inl basic ↦ inr (check_credentials_sound d tenant identifier header _ refl (ground arith))
    | inr other ↦ inl other
  ];
}

-- A station is admitted only if it is known, or unknown ones are let in; if the cache has no connection
-- under its name; if one of its slots, where it has any, allows the security profile; and, with
-- profile 1 or 2, if the header names it and has a password that fits the stored one.
pub authenticate-IsAdmitted :
    (d : Directory) (tenant : ℕ) (url : String) (header : Option String)
    (options : AuthenticationOptions) (cache : Store)
    → authenticate d tenant url header options cache ≡ none
    → IsAdmitted d tenant (get_client_id_from_url url) header options cache
unfolding authenticate
authenticate-IsAdmitted d tenant url header options cache h =
    let identifier = get_client_id_from_url url in
    filters_pass d tenant identifier header options cache (ground arith) (ground arith)
      (ground arith) (ground arith)
