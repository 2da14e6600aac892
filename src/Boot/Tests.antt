-- ===== src/Boot/Tests.antt =====
-- The boots of one station.
use rexharge_citrineos_core.Prelude.{◌≡◌, ◌≢◌, none, some, true, false, empty, arith}
use rexharge_citrineos_core.Prelude.Text.{Lacks}
use rexharge_citrineos_core.Identifier.{create_identifier}
use rexharge_citrineos_core.Rpc.Value.{null}
use rexharge_citrineos_core.Rpc.Message.{ocpp2_0_1, member}
use rexharge_citrineos_core.Router.Sending.{send_call_is_allowed}
use rexharge_citrineos_core.Router.Receiving.{on_call_is_allowed}
use rexharge_citrineos_core.Boot.{
  accepted, rejected, BootConfig, Configuration, cache_charger_actions_permissions, handle_boot,
}
use rexharge_citrineos_core.Boot.Namespaces.{handle_boot_invisible}

abbrev configuration : Configuration
configuration = record {
  unknown_charger_status = rejected;
  unknown_charger_status_1_6 = rejected;
  get_base_report = true;
  auto_accept = true;
  heartbeat = 60;
  boot_retry = 15;
}

abbrev waiting_boot : BootConfig
waiting_boot = record {
  status = "Pending";
  heartbeat_interval = none;
  boot_retry_interval = none;
  get_base_report_on_pending = some false;
  pending_boot_set_variables = 0;
  get_configurations_on_pending = some false;
  change_configurations_on_pending = none;
}

rejected_differs : rejected ≢ accepted
rejected_differs e = cc e

Lacks-cs1 : Lacks b':' "cs1"
Lacks-cs1 = (λ e. ground arith, (λ e. ground arith, (λ e. ground arith, tt)))

handle_boot_invisible_example :
    (on_call_is_allowed
        (member "Authorize")
        (create_identifier 1 "cs1")
        (handle_boot cache_charger_actions_permissions "cs1" true rejected empty)
      ≡ on_call_is_allowed (member "Authorize") (create_identifier 1 "cs1") empty)
    × (send_call_is_allowed
          (create_identifier 1 "cs1")
          ocpp2_0_1
          "Reset"
          null
          (handle_boot cache_charger_actions_permissions "cs1" true rejected empty)
        ≡ send_call_is_allowed (create_identifier 1 "cs1") ocpp2_0_1 "Reset" null empty)
handle_boot_invisible_example =
    handle_boot_invisible "cs1" true rejected empty 1 "cs1" (member "Authorize") ocpp2_0_1 "Reset"
      null Lacks-cs1
