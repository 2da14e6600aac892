-- ===== src/Boot.antt =====
-- Boot notifications (03_Modules/Configuration/src/module/BootNotificationService.ts, and the handlers
-- in module.ts beside it up to the update of the boot configuration, which the database keeps).
pub mod Status
pub mod Permissions
pub mod Namespaces
mod Tests
use rexharge_citrineos_core.Prelude.{
  ℕ, zero, suc, String, Option, none, some, Bool, true, false, not, ◌&&◌, ◌||◌, get_or, List, [],
  ◌∷◌, str_eq, if◌then◌else◌, is_some,
}
use rexharge_citrineos_core.Prelude.Text.{concat}
use rexharge_citrineos_core.Cache.Store.{Store, get_text, set, remove_key}
use rexharge_citrineos_core.Rpc.Actions.{ocpp1_6_call_schemas, ocpp2_0_1_call_schemas}
use rexharge_citrineos_core.Rpc.Message.{Result, ok, throw, plain}

-- RegistrationStatusEnumType, and BootNotificationResponseStatus of OCPP 1.6
pub data RegistrationStatus : Type 0 where
  accepted pending rejected : RegistrationStatus

abbrev pub status_text : RegistrationStatus → String
status_text accepted = "Accepted"
status_text pending = "Pending"
status_text rejected = "Rejected"

-- toRegistrationStatusEnumType, the same for both versions
unfoldable pub status_of : String → Result RegistrationStatus
status_of s =
    if str_eq s "Accepted"
    then ok accepted
    else if str_eq s "Pending"
    then ok pending
    else if str_eq s "Rejected"
    then ok rejected
    else throw (plain (concat "Invalid status: " s))

pub record BootConfig : Type 0 where
  pub status : String
  pub heartbeat_interval : Option ℕ
  pub boot_retry_interval : Option ℕ
  pub get_base_report_on_pending : Option Bool
  pub pending_boot_set_variables : ℕ
  pub get_configurations_on_pending : Option Bool
  pub change_configurations_on_pending : Option Bool

-- modules.configuration of the system's configuration
pub record Configuration : Type 0 where
  pub unknown_charger_status : RegistrationStatus
  pub unknown_charger_status_1_6 : RegistrationStatus
  pub get_base_report : Bool
  pub auto_accept : Bool
  pub heartbeat : ℕ
  pub boot_retry : ℕ

abbrev pub is_positive : ℕ → Bool
is_positive zero = false
is_positive (suc n) = true

abbrev pub needs_base_report : Configuration → Option BootConfig → Bool
needs_base_report config none = config.get_base_report
needs_base_report config (some boot) = get_or boot.get_base_report_on_pending config.get_base_report

abbrev pub needs_set_variables : Option BootConfig → Bool
needs_set_variables none = false
needs_set_variables (some boot) = is_positive boot.pending_boot_set_variables

-- A pending boot with nothing left to do may be accepted.
pub settle_status : Configuration → Option BootConfig → RegistrationStatus → RegistrationStatus
settle_status config boot pending =
    if not (needs_base_report config boot) && not (needs_set_variables boot) && config.auto_accept
    then accepted
    else pending
settle_status config boot status = status

pub map_status :
    (RegistrationStatus → RegistrationStatus)
    → Result RegistrationStatus
    → Result RegistrationStatus
map_status f (ok status) = ok (f status)
map_status f (throw e) = throw e

pub base_status : RegistrationStatus → Option BootConfig → Result RegistrationStatus
base_status default none = ok default
base_status default (some boot) = status_of boot.status

-- determineBootStatus
unfoldable pub determine_boot_status : Configuration → Option BootConfig → Result RegistrationStatus
unfolding settle_status map_status base_status
determine_boot_status config boot =
    map_status (settle_status config boot) (base_status config.unknown_charger_status boot)

-- A flag that is not set counts as true.
abbrev pub needs_configurations : (BootConfig → Option Bool) → Option BootConfig → Bool
needs_configurations flag none = true
needs_configurations flag (some boot) = get_or (flag boot) true

pub settle_ocpp1_6_status : Option BootConfig → RegistrationStatus → RegistrationStatus
settle_ocpp1_6_status boot pending =
    if not (needs_configurations (λ b. b.get_configurations_on_pending) boot)
      && not (needs_configurations (λ b. b.change_configurations_on_pending) boot)
    then accepted
    else pending
settle_ocpp1_6_status boot status = status

-- determineOcpp16BootStatus
unfoldable pub determine_ocpp1_6_boot_status :
    Configuration → Option BootConfig → Result RegistrationStatus
unfolding settle_ocpp1_6_status map_status base_status
determine_ocpp1_6_boot_status config boot =
    map_status (settle_ocpp1_6_status boot) (base_status config.unknown_charger_status_1_6 boot)

-- `a || b` on numbers
abbrev pub positive_or : Option ℕ → ℕ → ℕ
positive_or none d = d
positive_or (some zero) d = d
positive_or (some (suc n)) d = suc n

-- The interval of the response, from the boot configuration and from the system's.
pub interval_of : Configuration → Option BootConfig → RegistrationStatus → ℕ
interval_of config none accepted = config.heartbeat
interval_of config none status = config.boot_retry
interval_of config (some boot) accepted = positive_or boot.heartbeat_interval config.heartbeat
interval_of config (some boot) status = positive_or boot.boot_retry_interval config.boot_retry

-- Every action but BootNotification is removed from the station's list.
pub whitelist : String → List String → Store → Store
whitelist station [] cache = cache
whitelist station (action ∷ actions) cache =
    whitelist station actions (
      if str_eq action "BootNotification"
      then cache
      else (remove_key action (some station) cache).1)

-- Every action but BootNotification is put on the station's list.
pub blacklist : String → List String → Store → Store
blacklist station [] cache = cache
blacklist station (action ∷ actions) cache = blacklist station actions (
    if str_eq action "BootNotification"
    then cache
    else set action "blacklisted" (some station) cache)

-- The body of both methods, for the actions of the version's schemas.
pub cache_permissions : List String → String → Option String → RegistrationStatus → Store → Store
unfolding whitelist blacklist
cache_permissions actions station none accepted cache = cache
cache_permissions actions station (some cached) accepted cache =
    (remove_key "boot_status" (some station) (whitelist station actions cache)).1
cache_permissions actions station none status cache = blacklist station actions cache
cache_permissions actions station (some cached) status cache = cache

-- cacheChargerActionsPermissions
unfoldable pub cache_charger_actions_permissions :
    String → Option String → RegistrationStatus → Store → Store
unfolding cache_permissions
cache_charger_actions_permissions station cached status cache =
    cache_permissions ocpp2_0_1_call_schemas station cached status cache

-- cacheOcpp16ChargerActionsPermissions
unfoldable pub cache_ocpp1_6_charger_actions_permissions :
    String → Option String → RegistrationStatus → Store → Store
unfolding cache_permissions
cache_ocpp1_6_charger_actions_permissions station cached status cache =
    cache_permissions ocpp1_6_call_schemas station cached status cache

-- A status that is not accepted is noted, unless it is there already.
pub note_status : String → Option String → RegistrationStatus → Store → Store
note_status station cached accepted cache = cache
note_status station none status cache = set "boot_status" (status_text status) (some station) cache
note_status station (some old) status cache =
    if str_eq (status_text status) old
    then cache
    else set "boot_status" (status_text status) (some station) cache

-- What both handlers do with the cache, once the response has its status; an answer that is not
-- confirmed ends the handler before the status is noted.
pub handle_boot :
    (String → Option String → RegistrationStatus → Store → Store)
    → String
    → Bool
    → RegistrationStatus
    → Store
    → Store
unfolding note_status
handle_boot permissions station confirmed status cache =
    let cached = get_text "boot_status" (some station) cache in
    let permitted = permissions station cached status cache in
    if confirmed then note_status station cached status permitted else permitted
