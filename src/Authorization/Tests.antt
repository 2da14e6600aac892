-- ===== src/Authorization/Tests.antt =====
-- One token with the authorizers of two partners.
use rexharge_citrineos_core.Prelude.{◌≡◌, ◌↔◌, refl, none, some, true, ◌&&◌, [], ◌∷◌, arith}
use rexharge_citrineos_core.Rpc.Message.{ok}
use rexharge_citrineos_core.Authorization.{
  Authorization, to_start_transaction_status, AuthorizationStatus, IdTagStatus, allowed_offline,
}
use rexharge_citrineos_core.Authorization.Chain.{apply_authorizers}
use rexharge_citrineos_core.Authorization.Mapping.{AuthorizationStatusEnum}
use rexharge_citrineos_core.Authorization.RealTime.{
  Partner, ask, authorize_in_real_time, authorize_in_real_time_iff, KeepsAccepted,
}
use rexharge_citrineos_core.Authorization.Tokens.{
  Service, started, authorize_ocpp201_id_token, authorize_ocpp16_id_token, is_counted,
  has_concurrent_transactions,
}
use rexharge_citrineos_core.Authorization.Tokens.Accepted.{
  answered_status, Passes, accepted_ocpp201_iff, accepted_ocpp16→ocpp201,
}
use rexharge_citrineos_core.Authorization.IdTags.{handle_ocpp16_authorize, start→authorize}
use rexharge_citrineos_core.Authorization.Driver.{
  Station, accepted, authorize_response, answer_token,
}
use rexharge_citrineos_core.Authorization.Driver.Evses.{answer_token_unforbidden}
use rexharge_citrineos_core.Authorization.Driver.Accepted.{
  response_status, IsAuthorized, answer_token_iff,
}

abbrev token : Authorization
token = record {
  id = 7;
  id_token = "04A1B2";
  status = some AuthorizationStatus.accepted;
  cache_expiry = some 900;
  concurrent_transaction = some true;
  group_authorization_id = some 3;
  real_time_auth = some allowed_offline;
  real_time_auth_url = some "https://partner.example/token";
  allowed_connector_types = none;
  disallowed_evse_id_prefixes = some ("DE*ABC" ∷ []);
}

abbrev typed_token : Authorization
typed_token = record token { allowed_connector_types = some ("cType2" ∷ []) }

abbrev partner : Partner
partner = record { has_location = true; token = some true; answer = λ url. some "ALLOWED" }

abbrev service : Service
service = record {
  authorizers = authorize_in_real_time partner ∷ [];
  active = λ id. 0;
  token_of = λ id. ok (some "GROUP");
}

abbrev station : Station
station = record {
  validate_hash_data = λ hashes. ok accepted;
  validate_chain = λ chain. ok accepted;
  connector_types = record { value = "cType2"; evse = some 1 } ∷ [];
  evse_ids = record { value = "DE*XYZ*1"; evse = some 1 } ∷ [];
  authorizers = authorize_in_real_time partner ∷ [];
}

authorize_in_real_time_iff_example :
    (authorize_in_real_time partner token ≡ some AuthorizationStatus.accepted) ↔ (
      (token.status ≡ some AuthorizationStatus.accepted)
      × KeepsAccepted true (some true) (some "ALLOWED") allowed_offline)
authorize_in_real_time_iff_example =
    authorize_in_real_time_iff partner token allowed_offline "https://partner.example/token" refl
      refl (λ q. ground arith)

accepted_ocpp201_iff_example :
    (answered_status (authorize_ocpp201_id_token service 500 started (ok (token ∷ [])))
      ≡ some AuthorizationStatusEnum.accepted)
    ↔ ((a : Authorization) × (ok (token ∷ []) ≡ ok (a ∷ []))
        × Passes service 500
            (is_counted a.concurrent_transaction started
              && has_concurrent_transactions service a.id)
            a)
accepted_ocpp201_iff_example = accepted_ocpp201_iff service 500 started (ok (token ∷ []))

starts : (authorize_ocpp16_id_token service 500 (ok (token ∷ []))).status ≡ IdTagStatus.accepted
unfolding authorize_ocpp16_id_token authorize_in_real_time ask to_start_transaction_status
    apply_authorizers
starts = refl

accepted_ocpp16→ocpp201_example :
    answered_status (authorize_ocpp201_id_token service 500 started (ok (token ∷ [])))
    ≡ some AuthorizationStatusEnum.accepted
accepted_ocpp16→ocpp201_example =
    accepted_ocpp16→ocpp201 service 500 started (ok (token ∷ [])) starts

start→authorize_example :
    (handle_ocpp16_authorize service 500 (ok (token ∷ []))).status ≡ IdTagStatus.accepted
start→authorize_example = start→authorize service 500 (ok (token ∷ [])) starts

answer_token_iff_example :
    (response_status (answer_token station 500 none (ok (some token)))
      ≡ some AuthorizationStatusEnum.accepted)
    ↔ IsAuthorized station 500 none token
answer_token_iff_example = answer_token_iff station 500 none token

answer_token_unforbidden_example :
    answer_token station 500 none (ok (some token))
    ≡ ok (authorize_response AuthorizationStatusEnum.not_at_this_location none [])
answer_token_unforbidden_example =
    answer_token_unforbidden station 500 none token ("DE*ABC" ∷ []) refl refl refl refl (refl, tt)
