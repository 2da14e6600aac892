-- ===== src/Statuses.antt =====
-- The statuses of connectors: 03_Modules/Transactions/src/module/StatusNotificationService.ts, with the
-- tables that it writes (01_Data/src/layers/sequelize/repository/Location.ts), for one tenant. Error
-- codes and the vendor's fields are left out, and for OCPP 1.6 the row of the latest notification.
pub mod Latest
use rexharge_citrineos_core.Prelude.{
  ℕ, String, Option, none, some, Bool, true, false, not, ◌&&◌, ◌==◌, List, [], ◌∷◌, ◌++◌, get_or,
  str_eq, if◌then◌else◌,
}

-- ConnectorStatus; all but Unknown are statuses of OCPP 1.6 too
pub data ConnectorStatus : Type 0 where
  available preparing charging suspended_evse suspended_ev finishing : ConnectorStatus
  reserved unavailable faulted unknown : ConnectorStatus

-- ConnectorStatusEnumType
pub data ConnectorStatusEnum : Type 0 where
  available occupied reserved unavailable faulted : ConnectorStatusEnum

-- mapConnectorStatus
unfoldable pub map_connector_status : ConnectorStatusEnum → ConnectorStatus
map_connector_status ConnectorStatusEnum.available = ConnectorStatus.available
map_connector_status ConnectorStatusEnum.occupied = ConnectorStatus.charging
map_connector_status ConnectorStatusEnum.reserved = ConnectorStatus.reserved
map_connector_status ConnectorStatusEnum.unavailable = ConnectorStatus.unavailable
map_connector_status ConnectorStatusEnum.faulted = ConnectorStatus.faulted

-- StatusNotificationRequest
pub record StatusNotification : Type 0 where
  pub evse_id : ℕ
  pub connector_id : ℕ
  pub connector_status : ConnectorStatusEnum
  pub timestamp : Option String

-- The same of OCPP 1.6, which knows no EVSEs; its statuses are those of the same names.
pub record Ocpp16StatusNotification : Type 0 where
  pub connector_id : ℕ
  pub status : ConnectorStatus
  pub timestamp : Option String

pub record ConnectorRow : Type 0 where
  pub station : String
  pub connector_id : ℕ
  pub status : ConnectorStatus
  pub timestamp : String

-- A stored notification of a station.
pub record Notice : Type 0 where
  pub station : String
  pub notification : StatusNotification

-- The tables: the connectors, all notifications and the latest ones, and what is reported to the device
-- model.
pub record Tables : Type 0 where
  pub connectors : List ConnectorRow
  pub notices : List Notice
  pub latest : List Notice
  pub reported : List Notice

abbrev pub is_connector : String → ℕ → ConnectorRow → Bool
is_connector station c r = str_eq r.station station && (r.connector_id == c)

-- createOrUpdateConnector
unfoldable pub create_or_update_connector : ConnectorRow → List ConnectorRow → List ConnectorRow
create_or_update_connector new [] = new ∷ []
create_or_update_connector new (r ∷ rs) =
    let rest = create_or_update_connector new rs in
    if is_connector new.station new.connector_id r then new ∷ rs else r ∷ rest

abbrev pub is_notice : String → ℕ → ℕ → Notice → Bool
is_notice station evse c n =
    str_eq n.station station
    && (n.notification.evse_id == evse)
    && (n.notification.connector_id == c)

abbrev pub drop_notices : String → ℕ → ℕ → List Notice → List Notice
drop_notices station evse c [] = []
drop_notices station evse c (n ∷ ns) =
    let rest = drop_notices station evse c ns in
    if is_notice station evse c n then rest else n ∷ rest

-- updateLatestStatusNotification
unfoldable pub update_latest : Notice → List Notice → List Notice
update_latest n ns =
    drop_notices n.station n.notification.evse_id n.notification.connector_id ns ++ (n ∷ [])

abbrev pub notice : String → StatusNotification → Notice
notice station r = record { station = station; notification = r }

abbrev pub connector_row : String → String → StatusNotification → ConnectorRow
connector_row now station r = record {
  station = station;
  connector_id = r.connector_id;
  status = map_connector_status r.connector_status;
  timestamp = get_or r.timestamp now;
}

-- processStatusNotification: `is_known` says that the station is stored, and `has_component` that the
-- device model has the connector and its AvailabilityState
unfoldable pub process_status_notification :
    Bool → Bool → String → String → StatusNotification → Tables → Tables
unfolding create_or_update_connector update_latest map_connector_status
process_status_notification false has_component now station r t = t
process_status_notification true has_component now station r t = record {
  connectors = create_or_update_connector (connector_row now station r) t.connectors;
  notices = t.notices ++ (notice station r ∷ []);
  latest = update_latest (notice station r) t.latest;
  reported = if has_component then t.reported ++ (notice station r ∷ []) else t.reported;
}

abbrev pub ocpp16_connector_row : String → String → Ocpp16StatusNotification → ConnectorRow
ocpp16_connector_row now station r = record {
  station = station;
  connector_id = r.connector_id;
  status = r.status;
  timestamp = get_or r.timestamp now;
}

-- processOcpp16StatusNotification, as what it leaves of the connectors
unfoldable pub process_ocpp16_status_notification :
    Bool → String → String → Ocpp16StatusNotification → List ConnectorRow → List ConnectorRow
unfolding create_or_update_connector
process_ocpp16_status_notification false now station r rows = rows
process_ocpp16_status_notification true now station r rows =
    create_or_update_connector (ocpp16_connector_row now station r) rows
