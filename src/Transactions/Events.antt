-- ===== src/Transactions/Events.antt =====
-- The transactions after an event of OCPP 2.0.1:
-- createOrUpdateTransactionByTransactionEventAndStationId in
-- 01_Data/src/layers/sequelize/repository/TransactionEvent.ts. The times, the energy, the location and
-- the charging state of a transaction are left out, and the rows for the event and its readings.
pub mod Last
use rexharge_citrineos_core.Prelude.{
  ℕ, zero, suc, String, Option, none, some, Bool, true, false, List, [], ◌∷◌, if◌then◌else◌,
}
use rexharge_citrineos_core.Authorization.Mapping.{IdTokenEnum}
use rexharge_citrineos_core.Authorization.Tokens.{TransactionEvent, started, updated, ended}
use rexharge_citrineos_core.Transactions.{Transaction, is_at}

pub record Evse : Type 0 where
  pub id : ℕ
  pub connector_id : Option ℕ

pub record IdToken : Type 0 where
  pub id_token : String
  pub token_type : IdTokenEnum

-- Of TransactionEventRequest.
pub record EventRequest : Type 0 where
  pub event_type : TransactionEvent
  pub transaction_id : String
  pub evse : Option Evse
  pub id_token : Option IdToken
  pub reservation_id : Option ℕ

-- A row of the connectors, with its first tariff.
pub record ConnectorRow : Type 0 where
  pub id : ℕ
  pub tariff_id : Option ℕ

-- The other tables: the rows that are read or created for an EVSE and a connector, and the
-- authorization of a token, if there is one.
pub record Tables : Type 0 where
  pub evse_row : String → ℕ → ℕ
  pub connector_row : String → ℕ → ℕ → ConnectorRow
  pub authorization_of : IdToken → Option ℕ

-- A number that counts as true.
abbrev pub nonzero : Option ℕ → Option ℕ
nonzero none = none
nonzero (some zero) = none
nonzero (some (suc n)) = some (suc n)

-- value.eventType !== Ended
abbrev pub goes_on : TransactionEvent → Bool
goes_on started = true
goes_on updated = true
goes_on ended = false

module _ (tables : Tables) (station : String) where
  find_evse : Option Evse → Option ℕ → Option ℕ
  find_evse none old = old
  find_evse (some e) (some (suc n)) = some (suc n)
  find_evse (some e) none = some (tables.evse_row station e.id)
  find_evse (some e) (some zero) = some (tables.evse_row station e.id)

  row_of : Evse → ℕ → ConnectorRow
  row_of e c = tables.connector_row station (tables.evse_row station e.id) c

  -- the connector and the tariff, which are read where the connector is missing and the event has one
  connect : Option Evse → Option ℕ → Option ℕ → Option ℕ × Option ℕ
  unfolding row_of
  connect none old tariff = (old, tariff)
  connect (some e) (some (suc n)) tariff = (some (suc n), tariff)
  connect (some e) none tariff = elim (nonzero e.connector_id) [
    | none ↦ (none, tariff)
    | some c ↦ (some (row_of e c).id, (row_of e c).tariff_id)
  ]
  connect (some e) (some zero) tariff = elim (nonzero e.connector_id) [
    | none ↦ (some zero, tariff)
    | some c ↦ (some (row_of e c).id, (row_of e c).tariff_id)
  ]

  or_old : Option ℕ → Option ℕ → Option ℕ
  or_old (some a) old = some a
  or_old none old = old

  unfoldable pub authorize : Option IdToken → Option ℕ → Option ℕ
  unfolding or_old
  authorize none old = old
  authorize (some token) (some (suc n)) = some (suc n)
  authorize (some token) none = or_old (tables.authorization_of token) none
  authorize (some token) (some zero) = or_old (tables.authorization_of token) (some zero)

  -- the transaction that an event leaves, given what is stored of it
  unfoldable pub update_transaction : EventRequest → Transaction → Transaction
  unfolding find_evse connect authorize
  update_transaction r t =
      let (connector, tariff) = connect r.evse t.connector_id t.tariff_id in
      record t {
        is_active = goes_on r.event_type;
        authorization_id = authorize r.id_token t.authorization_id;
        evse_id = find_evse r.evse t.evse_id;
        connector_id = connector;
        tariff_id = tariff;
      }

  abbrev new_transaction : EventRequest → Transaction
  new_transaction r = record {
    station = station;
    transaction_id = r.transaction_id;
    is_active = goes_on r.event_type;
    authorization_id = none;
    evse_id = none;
    connector_id = none;
    tariff_id = none;
    total_cost = none;
  }

  -- A new transaction is filled in as an empty one is updated.
  unfoldable pub create_transaction : EventRequest → Transaction
  unfolding update_transaction
  create_transaction r = update_transaction r (new_transaction r)

  unfoldable pub save_event : EventRequest → List Transaction → List Transaction
  unfolding update_transaction create_transaction
  save_event r [] = create_transaction r ∷ []
  save_event r (t ∷ ts) =
      let rest = save_event r ts in
      if is_at station r.transaction_id t then update_transaction r t ∷ ts else t ∷ rest
