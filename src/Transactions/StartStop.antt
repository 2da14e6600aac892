-- ===== src/Transactions/StartStop.antt =====
-- StartTransaction and StopTransaction of OCPP 1.6: the handlers of
-- 03_Modules/Transactions/src/module/module.ts, and createTransactionByStartTransaction and
-- createStopTransaction of 01_Data/src/layers/sequelize/repository/TransactionEvent.ts. Times, readings
-- and the energy are left out. A new transaction is put before the others.
pub mod Single
use rexharge_citrineos_core.Prelude.{
  ℕ, zero, suc, String, Option, none, some, Bool, true, false, List, [], ◌∷◌, get_or, is_some,
  if◌then◌else◌,
}
use rexharge_citrineos_core.Prelude.Text.{concat}
use rexharge_citrineos_core.Prelude.Decimal.{print, parse}
use rexharge_citrineos_core.Cache.Store.{truthy}
use rexharge_citrineos_core.Rpc.Message.{Result, ok, throw, plain}
use rexharge_citrineos_core.Authorization.{Authorization, AuthorizationStatus, IdTagStatus}
use rexharge_citrineos_core.Authorization.Chain.{Authorizer}
use rexharge_citrineos_core.Authorization.Tokens.{
  Service, IdTagInfo, id_tag_info, rejected, authorize_ocpp16_id_token,
}
use rexharge_citrineos_core.Transactions.{Transaction, is_at, active_count}

-- Of a row of the connectors, its number, its EVSE and its first tariff.
pub record Connector : Type 0 where
  pub id : ℕ
  pub evse_id : Option ℕ
  pub tariff_id : Option ℕ

-- The rest of the database and the authorizers; `next_id` is what the sequence of the station gives.
pub record Backend : Type 0 where
  pub authorizations : String → Result (List Authorization)
  pub token_of : ℕ → Result (Option String)
  pub connector : ℕ → Result (Option Connector)
  pub next_id : Result ℕ
  pub authorizers : List Authorizer

pub record StartRequest : Type 0 where
  pub connector_id : ℕ
  pub id_tag : String
  pub reservation_id : Option ℕ

pub record StartResponse : Type 0 where
  pub id_tag_info : IdTagInfo
  pub transaction_id : ℕ

-- What a start leaves: the answer, the transactions, and the reservation that is deactivated, with the
-- transaction that is entered in it.
pub record Started : Type 0 where
  pub response : StartResponse
  pub transactions : List Transaction
  pub deactivated : Option (String × ℕ)

abbrev pub service_of : Backend → List Transaction → Service
service_of backend ts = record {
  authorizers = backend.authorizers;
  active = λ a. active_count a ts;
  token_of = backend.token_of;
}

-- readOnlyOneByQuery
unfoldable pub only_one : Result (List Authorization) → Result (Option ℕ)
only_one (throw e) = throw e
only_one (ok []) = ok none
only_one (ok (a ∷ [])) = ok (some a.id)
only_one (ok (a ∷ b ∷ rest)) = throw (plain "More than one value found for query")

unfoldable pub build_transaction : String → Connector → Option ℕ → Result ℕ → Result Transaction
build_transaction station c authorization (throw e) = throw e
build_transaction station c authorization (ok n) = ok (record {
  station = station;
  transaction_id = print n;
  is_active = true;
  authorization_id = authorization;
  evse_id = c.evse_id;
  connector_id = some c.id;
  tariff_id = c.tariff_id;
  total_cost = none;
})

unfoldable pub with_authorization :
    Backend → String → Connector → Result (Option ℕ) → Result Transaction
unfolding build_transaction
with_authorization backend station c (throw e) = throw e
with_authorization backend station c (ok a) = build_transaction station c a backend.next_id

unfoldable pub with_connector :
    Backend → String → StartRequest → Result (Option Connector) → Result Transaction
unfolding with_authorization only_one
with_connector backend station r (throw e) = throw e
with_connector backend station r (ok none) =
    throw (plain (concat "Unable to find connector " (concat (print r.connector_id) ".")))
with_connector backend station r (ok (some c)) =
    with_authorization backend station c (only_one (backend.authorizations r.id_tag))

-- createTransactionByStartTransaction, as the transaction that it adds
unfoldable pub create_transaction_by_start_transaction :
    Backend → String → StartRequest → Result Transaction
unfolding with_connector
create_transaction_by_start_transaction backend station r =
    with_connector backend station r (backend.connector r.connector_id)

abbrev pub start_response : IdTagInfo → ℕ → StartResponse
start_response info n = record { id_tag_info = info; transaction_id = n }

-- the `try` around the creation
unfoldable pub after_creation :
    IdTagInfo → List Transaction → Result Transaction → StartResponse × List Transaction
after_creation info ts (ok t) = (start_response info (get_or (parse t.transaction_id) 0), t ∷ ts)
after_creation info ts (throw e) = (start_response (rejected IdTagStatus.invalid) 0, ts)

unfoldable pub after_authorization :
    Backend
    → String
    → StartRequest
    → List Transaction
    → IdTagInfo
    → IdTagStatus
    → StartResponse × List Transaction
unfolding after_creation create_transaction_by_start_transaction
after_authorization backend station r ts info IdTagStatus.accepted =
    after_creation info ts (create_transaction_by_start_transaction backend station r)
after_authorization backend station r ts info s = (start_response info 0, ts)

-- deactivateReservation, where the request names a reservation
abbrev pub deactivate : Option ℕ → ℕ → Option (String × ℕ)
deactivate none n = none
deactivate (some zero) n = none
deactivate (some (suc reservation)) n = some (print n, suc reservation)

-- _handleOcpp16StartTransaction
unfoldable pub handle_start_transaction :
    Backend → ℕ → String → StartRequest → List Transaction → Started
unfolding after_authorization authorize_ocpp16_id_token
handle_start_transaction backend now station r ts =
    let info =
      authorize_ocpp16_id_token (service_of backend ts) now (backend.authorizations r.id_tag) in
    let (response, ts') = after_authorization backend station r ts info info.status in
    record {
      response = response;
      transactions = ts';
      deactivated = deactivate r.reservation_id response.transaction_id;
    }

-- The status of a stopped token: those that OCPP 1.6 lacks, and a missing one, become Invalid.
unfoldable pub stop_status : Option AuthorizationStatus → IdTagStatus
stop_status (some AuthorizationStatus.accepted) = IdTagStatus.accepted
stop_status (some AuthorizationStatus.blocked) = IdTagStatus.blocked
stop_status (some AuthorizationStatus.expired) = IdTagStatus.expired
stop_status (some AuthorizationStatus.concurrent_tx) = IdTagStatus.concurrent_tx
stop_status o = IdTagStatus.invalid

-- The group of the authorization is looked up where it has one.
unfoldable pub parent_of : Backend → Option ℕ → Result (Option String)
parent_of backend none = ok none
parent_of backend (some zero) = ok none
parent_of backend (some (suc n)) = backend.token_of (suc n)

abbrev pub stop_info :
    Option AuthorizationStatus → Option ℕ → Result (Option String) → Result (Option IdTagInfo)
stop_info status expiry (throw e) = throw e
stop_info status expiry (ok parent) = ok (some (id_tag_info (stop_status status) expiry parent))

unfoldable pub answer_stop :
    Backend → Option String → Option Authorization → Result (Option IdTagInfo)
unfolding stop_status parent_of
answer_stop backend none a = ok none
answer_stop backend (some tag) none = stop_info none none (ok none)
answer_stop backend (some tag) (some a) =
    stop_info a.status a.cache_expiry (parent_of backend a.group_authorization_id)

-- createStopTransaction and the last lines of the handler, as what they leave of the transactions
unfoldable pub end_transaction : String → String → List Transaction → List Transaction
end_transaction station id [] = []
end_transaction station id (t ∷ ts) =
    let rest = end_transaction station id ts in
    if is_at station id t then record t { is_active = false } ∷ ts else t ∷ rest

unfoldable pub finish_stop :
    String
    → ℕ
    → List Transaction
    → Result (Option IdTagInfo)
    → Result (Option IdTagInfo) × List Transaction
unfolding end_transaction
finish_stop station n ts (ok info) = (ok info, end_transaction station (print n) ts)
finish_stop station n ts (throw e) = (throw e, ts)

-- _handleOcpp16StopTransaction, given the authorization that the token has; a lookup that throws ends
-- it before the answer.
unfoldable pub handle_stop_transaction :
    Backend
    → String
    → ℕ
    → Option String
    → Option Authorization
    → List Transaction
    → Result (Option IdTagInfo) × List Transaction
unfolding answer_stop finish_stop
handle_stop_transaction backend station n tag a ts =
    finish_stop station n ts (answer_stop backend (truthy tag) a)
