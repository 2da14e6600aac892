-- ===== src/Transactions/Handling.antt =====
-- TransactionEvent and MeterValues of OCPP 2.0.1: _handleTransactionEvent and _handleMeterValues in
-- 03_Modules/Transactions/src/module/module.ts, with createMeterValues of TransactionService.ts. The
-- check of the signatures in a TransactionEvent is left out: it only writes to the log.
pub mod Tokens
use rexharge_citrineos_core.Prelude.{
  ℕ, zero, suc, String, Option, none, some, Bool, true, false, not, ◌&&◌, ◌==◌, List, [], ◌∷◌, ◌++◌,
  map, any, if◌then◌else◌,
}
use rexharge_citrineos_core.Rpc.Message.{Result, ok, throw, Exception, ocpp, security_error}
use rexharge_citrineos_core.Rpc.Value.{obj, end}
use rexharge_citrineos_core.Money.{Big, Tariff, calculate_total_cost}
use rexharge_citrineos_core.Authorization.{Authorization}
use rexharge_citrineos_core.Authorization.Mapping.{AuthorizationStatusEnum}
use rexharge_citrineos_core.Authorization.Chain.{Authorizer}
use rexharge_citrineos_core.Authorization.Tokens.{
  TransactionEvent, started, updated, ended, IdTokenInfo, Service, authorize_ocpp201_id_token,
}
use rexharge_citrineos_core.Transactions.{Transaction, is_at, find_transaction, active_count}
use rexharge_citrineos_core.Transactions.Events.{EventRequest, IdToken, Tables, nonzero, save_event}

-- The rest of the database, the authorizers and the settings of the module. `energy` is the total that
-- is stored of a transaction, and `recalculated` the one that its readings give.
pub record Module : Type 0 where
  pub tables : Tables
  pub authorizations : IdToken → Result (List Authorization)
  pub authorizers : List Authorizer
  pub tariff : String → Option Tariff
  pub energy : Transaction → Option Big
  pub recalculated : Transaction → Result Big
  pub send_cost_updated_on_meter_value : Bool
  pub cost_updated_interval : Option ℕ

pub record EventResponse : Type 0 where
  pub id_token_info : Option IdTokenInfo
  pub total_cost : Option Big

-- What a handler does besides writing the transaction, in its order.
pub data Effect : Type 0 where
  deactivated : String → ℕ → Effect
  sent : EventResponse → Effect
  notifying : String → ℕ → Effect

-- What an event leaves: the transactions, the effects, and what is thrown at the end, if anything.
pub record Handled : Type 0 where
  pub transactions : List Transaction
  pub effects : List Effect
  pub failure : Option Exception

abbrev pub handled : List Transaction → List Effect → Option Exception → Handled
handled ts effects e = record { transactions = ts; effects = effects; failure = e }

abbrev pub event_response : Option IdTokenInfo → Option Big → EventResponse
event_response info cost = record { id_token_info = info; total_cost = cost }

abbrev pub event_service : Module → List Transaction → Service
event_service m ts = record {
  authorizers = m.authorizers;
  active = λ a. active_count a ts;
  token_of = λ a. ok none;
}

abbrev pub some_info : Result IdTokenInfo → Result (Option IdTokenInfo)
some_info (ok info) = ok (some info)
some_info (throw e) = throw e

-- the authorization of the event, where it carries a token
unfoldable pub authorize_event :
    Module → ℕ → TransactionEvent → Option IdToken → List Transaction → Result (Option IdTokenInfo)
authorize_event m now event none ts = ok none
authorize_event m now event (some token) ts =
    some_info (authorize_ocpp201_id_token (event_service m ts) now event (m.authorizations token))

abbrev pub deactivation : String → Option ℕ → List Effect
deactivation id none = []
deactivation id (some zero) = []
deactivation id (some (suc reservation)) = deactivated id (suc reservation) ∷ []

-- The costs are sent while the transaction runs.
abbrev pub notification : Module → TransactionEvent → String → AuthorizationStatusEnum → List Effect
notification m started id AuthorizationStatusEnum.accepted =
    elim (nonzero m.cost_updated_interval) [ none ↦ [] | some n ↦ notifying id n ∷ [] ]
notification m event id status = []

cost_of : Module → String → Transaction → Result Big
cost_of m station t = calculate_total_cost (m.tariff station) (m.recalculated t) (m.energy t)

abbrev pub some_cost : Result Big → Result (Option Big)
some_cost (ok c) = ok (some c)
some_cost (throw e) = throw e

-- the cost in the answer to an event without a token
unfoldable pub event_cost :
    Module → String → TransactionEvent → Option Transaction → Result (Option Big)
unfolding cost_of
event_cost m station event none = ok none
event_cost m station started (some t) = ok none
event_cost m station updated (some t) =
    if t.is_active && m.send_cost_updated_on_meter_value
    then some_cost (cost_of m station t)
    else ok none
event_cost m station ended (some t) = some_cost (cost_of m station t)

-- updateTransactionTotalCostById
unfoldable pub store_cost : String → String → Big → List Transaction → List Transaction
store_cost station id cost [] = []
store_cost station id cost (t ∷ ts) =
    let rest = store_cost station id cost ts in
    if is_at station id t then record t { total_cost = some cost } ∷ ts else t ∷ rest

-- a cost that is there and not zero
unfoldable pub keep_cost : String → String → Option Big → List Transaction → List Transaction
unfolding store_cost
keep_cost station id none ts = ts
keep_cost station id (some cost) ts = if cost.digits == 0 then ts else store_cost station id cost ts

unfoldable pub answer_without_token :
    String → String → List Effect → List Transaction → Result (Option Big) → Handled
unfolding keep_cost
answer_without_token station id effects ts (throw e) = handled ts effects (some e)
answer_without_token station id effects ts (ok cost) =
    handled (keep_cost station id cost ts) (effects ++ (sent (event_response none cost) ∷ [])) none

-- The handler once the token is authorized: the event is saved first.
unfoldable pub handle_authorized :
    Module → String → EventRequest → List Transaction → Option IdTokenInfo → Handled
unfolding event_cost answer_without_token
handle_authorized m station r ts (some info) =
    handled (save_event m.tables station r ts)
      (deactivation r.transaction_id r.reservation_id
        ++ (sent (event_response (some info) none)
            ∷ notification m r.event_type r.transaction_id info.status))
      none
handle_authorized m station r ts none =
    let ts' = save_event m.tables station r ts in
    answer_without_token station r.transaction_id (deactivation r.transaction_id r.reservation_id)
      ts' (event_cost m station r.event_type (find_transaction station r.transaction_id ts'))

unfoldable pub finish_event :
    Module → String → EventRequest → List Transaction → Result (Option IdTokenInfo) → Handled
unfolding handle_authorized
finish_event m station r ts (throw e) = handled ts [] (some e)
finish_event m station r ts (ok info) = handle_authorized m station r ts info

-- _handleTransactionEvent
unfoldable pub handle_transaction_event :
    Module → ℕ → String → EventRequest → List Transaction → Handled
unfolding finish_event authorize_event
handle_transaction_event m now station r ts =
    finish_event m station r ts (authorize_event m now r.event_type r.id_token ts)

-- What MeterValues does: a reading is stored, for a transaction or for none; the cost is sent; the answer.
pub data MeterEffect : Type 0 where
  stored : Option String → MeterEffect
  cost_notified : String → MeterEffect
  answered : MeterEffect

-- The contexts of the samples of a reading: a sample is periodic or not.
abbrev pub Reading : Type 0
Reading = List Bool

-- sampledValue.some(s => s.context === Sample_Periodic)
abbrev pub has_periodic : Reading → Bool
has_periodic samples = any (λ b. b) samples

-- createMeterValues, in the order of the readings
unfoldable pub create_meter_values : List Reading → Option String → List MeterEffect
create_meter_values readings none = map (λ r. stored none) readings
create_meter_values readings (some t) =
    map (λ r. if has_periodic r then stored (some t) else stored none) readings

-- with the active transaction of the EVSE, by its transactionId, if there is one
unfoldable pub store_meter_values : Bool → ℕ → List Reading → Option String → List MeterEffect
unfolding create_meter_values
store_meter_values sends_cost evse readings active =
    if sends_cost && not (evse == 0)
    then create_meter_values readings active
      ++ elim active [ none ↦ [] | some t ↦ cost_notified t ∷ [] ]
    else create_meter_values readings none

-- _handleMeterValues; `is_valid` is what the check of the signatures says
unfoldable pub handle_meter_values :
    Bool → String → ℕ → List Reading → Option String → Bool → List MeterEffect × Option Exception
unfolding store_meter_values
handle_meter_values sends_cost correlation_id evse readings active is_valid =
    let effects = store_meter_values sends_cost evse readings active in
    if is_valid then (effects ++ (answered ∷ []), none) else (
      effects,
      some (
          ocpp (record {
            message_id = correlation_id;
            code = security_error;
            description = "One or more MeterValues have an invalid signature.";
            details = obj end;
          })),
    )
