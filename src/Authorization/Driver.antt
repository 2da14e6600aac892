-- ===== src/Authorization/Driver.antt =====
-- Authorize of OCPP 2.0.1: _handleAuthorize in 03_Modules/EVDriver/src/module/module.ts, without the
-- message on the tariff. An EVSE is given by its number, which an attribute may lack.
pub mod Evses
pub mod Offers
pub mod Accepted
use rexharge_citrineos_core.Prelude.{
  ℕ, zero, suc, String, Option, none, some, Bool, true, false, not, ◌&&◌, ◌||◌, ◌==◌, List, [], ◌∷◌,
  ◌++◌, any, is_some, str_eq, if◌then◌else◌,
}
use text.Mathlib.Text.{starts_with}
use rexharge_citrineos_core.Cache.Store.{truthy}
use rexharge_citrineos_core.Rpc.Message.{Result, ok, throw}
use rexharge_citrineos_core.Authorization.{Authorization, is_past}
use rexharge_citrineos_core.Authorization.Mapping.{
  AuthorizationStatusEnum, IdTokenEnum, from_authorization_status_type,
}
use rexharge_citrineos_core.Authorization.Chain.{Authorizer}

-- Of VariableAttribute, its value and the number of its EVSE.
pub record VariableAttribute : Type 0 where
  pub value : String
  pub evse : Option ℕ

-- AuthorizeCertificateStatusEnumType: Accepted, and the others by their name
pub data CertificateStatus : Type 0 where
  accepted : CertificateStatus
  refused : String → CertificateStatus

-- Of AuthorizeRequest, what is read before the token is looked up.
pub record AuthorizeRequest : Type 0 where
  pub token_type : IdTokenEnum
  pub certificate_hash_data : Option (List String)
  pub certificate : Option String

-- What is outside: the certificate authority's answers, the device model's attributes for the types of
-- the connectors and the names of the EVSEs, and the authorizers.
pub record Station : Type 0 where
  pub validate_hash_data : List String → Result CertificateStatus
  pub validate_chain : String → Result CertificateStatus
  pub connector_types : List VariableAttribute
  pub evse_ids : List VariableAttribute
  pub authorizers : List Authorizer

-- Of AuthorizeResponse, the statuses and the EVSEs that are offered.
pub record AuthorizeResponse : Type 0 where
  pub status : AuthorizationStatusEnum
  pub certificate_status : Option CertificateStatus
  pub evse_id : List (Option ℕ)

-- A Set<number> in the order of its insertions.
unfoldable pub same_evse : Option ℕ → Option ℕ → Bool
same_evse none none = true
same_evse none (some j) = false
same_evse (some i) none = false
same_evse (some i) (some j) = i == j

abbrev pub has_evse : Option ℕ → List (Option ℕ) → Bool
has_evse e s = any (same_evse e) s

-- evseIds.add
unfoldable pub add_evse : Option ℕ → List (Option ℕ) → List (Option ℕ)
add_evse e s = if has_evse e s then s else s ++ (e ∷ [])

-- evseIds.delete
unfoldable pub delete_evse : Option ℕ → List (Option ℕ) → List (Option ℕ)
delete_evse e [] = []
delete_evse e (f ∷ s) = let rest = delete_evse e s in if same_evse e f then rest else f ∷ rest

-- types.indexOf(value), none for -1
unfoldable pub index_of : String → List String → Option ℕ
index_of s [] = none
index_of s (t ∷ ts) = let rest = index_of s ts in if str_eq t s then some 0 else shift rest
  where
    shift : Option ℕ → Option ℕ
    shift none = none
    shift (some i) = some (suc i)

-- types.indexOf(value) > 0
unfoldable pub is_allowed_type : List String → String → Bool
unfolding index_of
is_allowed_type types value = elim (index_of value types) [
  | none ↦ false
  | some zero ↦ false
  | some (suc i) ↦ true
]

-- The loop over the types of the connectors.
unfoldable pub collect_connectors :
    List String → List VariableAttribute → List (Option ℕ) → List (Option ℕ)
unfolding is_allowed_type add_evse
collect_connectors types [] s = s
collect_connectors types (v ∷ vs) s =
    collect_connectors types vs (if is_allowed_type types v.value then add_evse v.evse s else s)

-- The loop over the names of the EVSEs; `typed` says that there are allowed types.
unfoldable pub narrow_evses :
    Bool → List String → List VariableAttribute → List (Option ℕ) → List (Option ℕ)
unfolding add_evse delete_evse
narrow_evses typed prefixes [] s = s
narrow_evses typed prefixes (v ∷ vs) s =
    let hit = any (starts_with v.value) prefixes in
    narrow_evses typed prefixes vs (
      if hit && not typed
      then add_evse v.evse s
      else if not hit && typed
      then delete_evse v.evse s
      else s)

abbrev pub is_empty_set : Option (List (Option ℕ)) → Bool
is_empty_set none = false
is_empty_set (some []) = true
is_empty_set (some (e ∷ s)) = false

-- [evseId.pop(), ...evseId]
unfoldable pub last_first : List (Option ℕ) → List (Option ℕ)
last_first [] = []
last_first (e ∷ s) = elim (last_first s) [ [] ↦ e ∷ [] | f ∷ rest ↦ f ∷ e ∷ rest ]

abbrev pub authorize_response :
    AuthorizationStatusEnum → Option CertificateStatus → List (Option ℕ) → AuthorizeResponse
authorize_response s c evses = record { status = s; certificate_status = c; evse_id = evses }

-- evseIds after the allowed types, and after the disallowed prefixes
unfoldable pub typed_evses : Station → Option (List String) → Option (List (Option ℕ))
typed_evses station none = none
typed_evses station (some types) = some (collect_connectors types station.connector_types [])

unfoldable pub narrowed_evses :
    Station → Bool → Option (List String) → Option (List (Option ℕ)) → Option (List (Option ℕ))
narrowed_evses station typed none s = s
narrowed_evses station typed (some prefixes) none =
    some (narrow_evses typed prefixes station.evse_ids [])
narrowed_evses station typed (some prefixes) (some s) =
    some (narrow_evses typed prefixes station.evse_ids s)

unfoldable pub offer : Option (List (Option ℕ)) → Option CertificateStatus → AuthorizeResponse
unfolding last_first
offer none c = authorize_response AuthorizationStatusEnum.accepted c []
offer (some []) c = authorize_response AuthorizationStatusEnum.not_at_this_location c []
offer (some (e ∷ s)) c = authorize_response AuthorizationStatusEnum.accepted c (last_first (e ∷ s))

unfoldable pub check_evses : Station → Authorization → Option CertificateStatus → AuthorizeResponse
unfolding typed_evses narrowed_evses offer
check_evses station a c =
    let typed = typed_evses station a.allowed_connector_types in
    if is_empty_set typed
    then authorize_response AuthorizationStatusEnum.not_allowed_type_evse c []
    else offer
        (narrowed_evses station (is_some a.allowed_connector_types) a.disallowed_evse_id_prefixes
          typed)
        c

-- The loop over the authorizers.
unfoldable pub ask_authorizers :
    List Authorizer
    → Authorization
    → Result AuthorizationStatusEnum
    → Result AuthorizationStatusEnum
unfolding from_authorization_status_type
ask_authorizers [] a s = s
ask_authorizers (f ∷ fs) a (ok AuthorizationStatusEnum.accepted) =
    ask_authorizers fs a (from_authorization_status_type (f a))
ask_authorizers (f ∷ fs) a s = s

unfoldable pub with_status :
    AuthorizeResponse → Result AuthorizationStatusEnum → Result AuthorizeResponse
with_status r (throw e) = throw e
with_status r (ok s) = ok (authorize_response s r.certificate_status r.evse_id)

unfoldable pub check_authorizers :
    Station → Authorization → AuthorizeResponse → Result AuthorizeResponse
unfolding ask_authorizers with_status
check_authorizers station a r = with_status r (ask_authorizers station.authorizers a (ok r.status))

unfoldable pub answer_known :
    Station
    → ℕ
    → Authorization
    → Option CertificateStatus
    → Result AuthorizationStatusEnum
    → Result AuthorizeResponse
unfolding check_authorizers check_evses
answer_known station now a c (throw e) = throw e
answer_known station now a c (ok AuthorizationStatusEnum.accepted) = check_authorizers station a (
    if is_past a.cache_expiry now
    then authorize_response AuthorizationStatusEnum.invalid c []
    else check_evses station a c)
answer_known station now a c (ok s) = ok (authorize_response s c [])

unfoldable pub answer_token :
    Station
    → ℕ
    → Option CertificateStatus
    → Result (Option Authorization)
    → Result AuthorizeResponse
unfolding answer_known
answer_token station now c (throw e) = throw e
answer_token station now c (ok none) = ok (authorize_response AuthorizationStatusEnum.accepted c [])
answer_token station now c (ok (some a)) =
    answer_known station now a c (from_authorization_status_type a.status)

-- What the authority says of the hash data, if there is any, and then of the chain, if there is one.
unfoldable pub check_hash_data : Station → Option (List String) → Result (Option CertificateStatus)
check_hash_data station none = ok none
check_hash_data station (some []) = ok none
check_hash_data station (some (h ∷ hs)) = elim (station.validate_hash_data (h ∷ hs)) [
  | ok c ↦ ok (some c)
  | throw e ↦ throw e
]

unfoldable pub check_chain :
    Station → Option String → Result (Option CertificateStatus) → Result (Option CertificateStatus)
check_chain station chain (throw e) = throw e
check_chain station none (ok c) = ok c
check_chain station (some chain) (ok c) = elim (station.validate_chain chain) [
  | ok d ↦ ok (some d)
  | throw e ↦ throw e
]

abbrev pub needs_certificate : AuthorizeRequest → Bool
needs_certificate request =
    is_some request.certificate_hash_data || is_some (truthy request.certificate)

unfoldable pub certificate_status_of :
    Station → AuthorizeRequest → Result (Option CertificateStatus)
unfolding check_hash_data check_chain
certificate_status_of station request =
    check_chain station (truthy request.certificate)
      (check_hash_data station request.certificate_hash_data)

unfoldable pub after_certificate :
    Station
    → ℕ
    → Result (Option Authorization)
    → Result (Option CertificateStatus)
    → Result AuthorizeResponse
unfolding answer_token
after_certificate station now found (throw e) = throw e
after_certificate station now found (ok (some accepted)) =
    answer_token station now (some accepted) found
after_certificate station now found (ok c) =
    ok (authorize_response AuthorizationStatusEnum.unknown c [])

unfoldable pub answer_request :
    Station → ℕ → AuthorizeRequest → Result (Option Authorization) → Result AuthorizeResponse
unfolding after_certificate certificate_status_of
answer_request station now request found =
    if needs_certificate request
    then after_certificate station now found (certificate_status_of station request)
    else answer_token station now none found

-- _handleAuthorize: the answer that is sent, given the authorization of the token
unfoldable pub handle_authorize :
    Station → ℕ → AuthorizeRequest → Result (Option Authorization) → Result AuthorizeResponse
unfolding answer_request
handle_authorize station now request found = elim request.token_type [
  | IdTokenEnum.no_authorization ↦ ok (authorize_response AuthorizationStatusEnum.accepted none [])
  | _ ↦ answer_request station now request found
]
