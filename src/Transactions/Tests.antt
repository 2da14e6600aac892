-- ===== src/Transactions/Tests.antt =====
-- Two stations, a token that may charge at one of them at a time, and a tariff.
use rexharge_citrineos_core.Prelude.{
  ◌≡◌, ◌≢◌, ◌≤◌, ℕ, refl, none, some, true, false, List, [], ◌∷◌, ◌++◌, ◌==◌, arith,
}
use rexharge_citrineos_core.Rpc.Message.{ok}
use rexharge_citrineos_core.Money.{
  Tariff, big, times, round_down, cost_at, of, currency_of, in_currency, multiply,
  round_to_currency_scale,
}
use rexharge_citrineos_core.Money.Rounding.{IsCut}
use rexharge_citrineos_core.Authorization.{
  Authorization, to_start_transaction_status, AuthorizationStatus, IdTagStatus,
}
use rexharge_citrineos_core.Authorization.Chain.{apply_authorizers}
use rexharge_citrineos_core.Authorization.Mapping.{
  AuthorizationStatusEnum, from_authorization_status_type, iso14443,
}
use rexharge_citrineos_core.Authorization.Tokens.{
  started, ended, id_token_info, authorize_ocpp201_id_token,
}
use rexharge_citrineos_core.Transactions.{Transaction, active_count, find_transaction}
use rexharge_citrineos_core.Transactions.Events.{EventRequest, IdToken, Tables, save_event}
use rexharge_citrineos_core.Transactions.Events.Last.{
  activity, authorization_in, last_activity, run, run-last_activity, run-authorization,
}
use rexharge_citrineos_core.Transactions.StartStop.{
  Backend, StartRequest, handle_start_transaction, handle_stop_transaction,
}
use rexharge_citrineos_core.Transactions.StartStop.Single.{start-single, stop-start}
use rexharge_citrineos_core.Transactions.Handling.{
  Module, event_service, event_response, sent, deactivation, handled, notification,
  handle_transaction_event,
}
use rexharge_citrineos_core.Transactions.Handling.Tokens.{
  handle_transaction_event_token, ended_cost, second_start, saved_transaction, with_cost,
}

abbrev token : IdToken
token = record { id_token = "04A1B2"; token_type = iso14443 }

abbrev authorization : Authorization
authorization = record {
  id = 7;
  id_token = "04A1B2";
  status = some AuthorizationStatus.accepted;
  cache_expiry = none;
  concurrent_transaction = some true;
  group_authorization_id = none;
  real_time_auth = none;
  real_time_auth_url = none;
  allowed_connector_types = none;
  disallowed_evse_id_prefixes = none;
}

abbrev tables : Tables
tables = record {
  evse_row = λ s e. 11;
  connector_row = λ s e c. record { id = 21; tariff_id = some 1 };
  authorization_of = λ t. some 7;
}

abbrev tariff : Tariff
tariff = record { price_per_kwh = big 255 3; currency = "EUR" }

abbrev transactions_module : Module
transactions_module = record {
  tables = tables;
  authorizations = λ t. ok (authorization ∷ []);
  authorizers = [];
  tariff = λ s. some tariff;
  energy = λ t. some (big 101 1);
  recalculated = λ t. ok (big 0 0);
  send_cost_updated_on_meter_value = true;
  cost_updated_interval = some 60;
}

abbrev start_event : EventRequest
start_event = record {
  event_type = started;
  transaction_id = "T1";
  evse = some (record { id = 1; connector_id = some 1 });
  id_token = some token;
  reservation_id = some 5;
}

abbrev end_event : EventRequest
end_event = record start_event { event_type = ended; id_token = none; reservation_id = none }

run-last_activity_example :
    activity
      (find_transaction "CS1" "T1" (run tables (("CS1", start_event) ∷ ("CS1", end_event) ∷ []) []))
    ≡ last_activity "CS1" "T1" (("CS1", start_event) ∷ ("CS1", end_event) ∷ []) none
run-last_activity_example =
    run-last_activity tables "CS1" "T1" (("CS1", start_event) ∷ ("CS1", end_event) ∷ []) []

abbrev stored : List Transaction
stored =
    record {
      station = "CS1";
      transaction_id = "T1";
      is_active = true;
      authorization_id = some 7;
      evse_id = none;
      connector_id = none;
      tariff_id = none;
      total_cost = none;
    }
    ∷ []

run-authorization_example :
    authorization_in (find_transaction "CS1" "T1" (run tables (("CS1", end_event) ∷ []) stored))
    ≡ some 7
run-authorization_example =
    run-authorization tables "CS1" "T1" (("CS1", end_event) ∷ []) stored 6 refl

accepts :
    authorize_ocpp201_id_token
      (event_service transactions_module [])
      500
      started
      (ok (authorization ∷ []))
    ≡ ok (id_token_info AuthorizationStatusEnum.accepted none)
unfolding authorize_ocpp201_id_token from_authorization_status_type apply_authorizers
accepts = refl

handle_transaction_event_token_example :
    handle_transaction_event transactions_module 500 "CS1" start_event []
    ≡ handled
        (save_event tables "CS1" start_event [])
        (deactivation "T1" (some 5)
          ++ (sent
                (event_response (some (id_token_info AuthorizationStatusEnum.accepted none)) none)
              ∷ notification transactions_module started "T1" AuthorizationStatusEnum.accepted))
        none
handle_transaction_event_token_example =
    handle_transaction_event_token transactions_module "CS1" start_event [] 500 token
      (id_token_info AuthorizationStatusEnum.accepted none) refl accepts

costs : cost_at (some tariff) (big 101 1) ≡ ok (big 257 2)
unfolding cost_at of currency_of in_currency multiply round_to_currency_scale times round_down
costs = refl

ended_cost_example :
    ((handle_transaction_event transactions_module 500 "CS1" end_event stored).effects
      ≡ sent (event_response none (some (big 257 2))) ∷ [])
    × IsCut (times (big 255 3) (big 101 1)) (big 257 2)
    × ((257 == 0) ≡ false
        → find_transaction "CS1" "T1"
            (handle_transaction_event transactions_module 500 "CS1" end_event stored).transactions
          ≡ some (
              with_cost (big 257 2) (saved_transaction transactions_module "CS1" end_event stored)))
ended_cost_example =
    ended_cost transactions_module "CS1" end_event stored 500 tariff (big 101 1) (big 257 2) refl
      refl refl refl costs

second_start_example :
    authorize_ocpp201_id_token
      (event_service transactions_module (save_event tables "CS1" start_event []))
      500
      started
      (ok (authorization ∷ []))
    ≡ ok (id_token_info AuthorizationStatusEnum.concurrent_tx none)
second_start_example =
    second_start transactions_module "CS1" start_event [] 500 token authorization refl refl refl
      refl refl refl refl refl

abbrev backend : Backend
backend = record {
  authorizations = λ tag. ok (authorization ∷ []);
  token_of = λ a. ok none;
  connector = λ c. ok (some (record { id = 21; evse_id = some 11; tariff_id = some 1 }));
  next_id = ok 42;
  authorizers = [];
}

abbrev start_request : StartRequest
start_request = record { connector_id = 1; id_tag = "04A1B2"; reservation_id = some 5 }

start-single_example :
    (active_count 7 (handle_start_transaction backend 500 "CS1" start_request []).transactions ≤ 1)
    × ((i : ℕ)
        → i ≢ 7
        → active_count i (handle_start_transaction backend 500 "CS1" start_request []).transactions
          ≡ 0)
start-single_example =
    start-single backend "CS1" start_request authorization 500 [] refl AuthorizationStatus.accepted
      refl (omega arith)

starts :
    (handle_start_transaction backend 500 "CS1" start_request []).response.id_tag_info.status
    ≡ IdTagStatus.accepted
unfolding handle_start_transaction to_start_transaction_status apply_authorizers
starts = refl

stop-start_example :
    active_count 7
      (handle_stop_transaction backend "CS1"
        (handle_start_transaction backend 500 "CS1" start_request []).response.transaction_id
        none
        none
        (handle_start_transaction backend 500 "CS1" start_request []).transactions).1
    ≡ 0
unfolding handle_stop_transaction
stop-start_example =
    stop-start backend "CS1" start_request authorization 500 [] refl none none none 7 starts refl
