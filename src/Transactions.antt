-- ===== src/Transactions.antt =====
-- Transactions: 01_Data/src/layers/sequelize/repository/TransactionEvent.ts, the part of a tenant's
-- database that holds them, and 03_Modules/Transactions/src/module, the handlers.
pub mod Events
pub mod Handling
pub mod StartStop
pub mod Notifier
mod Tests
use rexharge_citrineos_core.Prelude.{
  ℕ, zero, suc, String, Option, none, some, Bool, true, false, ◌&&◌, ◌==◌, List, [], ◌∷◌, str_eq,
  if◌then◌else◌,
}
use rexharge_citrineos_core.Money.{Big}

-- Of Transaction, what the code reads or decides by. The name of the station and the transactionId are
-- unique together.
pub record Transaction : Type 0 where
  pub station : String
  pub transaction_id : String
  pub is_active : Bool
  pub authorization_id : Option ℕ
  pub evse_id : Option ℕ
  pub connector_id : Option ℕ
  pub tariff_id : Option ℕ
  pub total_cost : Option Big

-- where: { stationId, transactionId }
abbrev pub is_at : String → String → Transaction → Bool
is_at station id t = str_eq t.station station && str_eq t.transaction_id id

-- readTransactionByStationIdAndTransactionId
abbrev pub find_transaction : String → String → List Transaction → Option Transaction
find_transaction station id [] = none
find_transaction station id (t ∷ ts) =
    let rest = find_transaction station id ts in if is_at station id t then some t else rest

-- where: { isActive: true, authorizationId }
abbrev pub is_active_with : ℕ → Option ℕ → Bool → Bool
is_active_with a (some b) true = a == b
is_active_with a (some b) false = false
is_active_with a none active = false

-- readAllActiveTransactionsByAuthorizationId, as their number
abbrev pub active_count : ℕ → List Transaction → ℕ
active_count a [] = 0
active_count a (t ∷ ts) =
    let rest = active_count a ts in
    if is_active_with a t.authorization_id t.is_active then suc rest else rest
