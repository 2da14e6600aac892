-- ===== src/Dispatch/Tests.antt =====
-- A call with a URL and its answer.
use rexharge_citrineos_core.Prelude.{true, ◌≡◌, refl, some, [], ◌∷◌, ◌++◌, empty}
use rexharge_citrineos_core.Cache.Store.{Store}
use rexharge_citrineos_core.Rpc.Message.{member, ocpp2_0_1}
use rexharge_citrineos_core.Rpc.Value.{null}
use rexharge_citrineos_core.Router.{Message, request, response, charging_station, value}
use rexharge_citrineos_core.Dispatch.{
  Module, CallRequest, thrown, posted, ran, find_handler, handle, send_call,
}
use rexharge_citrineos_core.Dispatch.Answers.{handle-send_call}

abbrev call_message : Message
call_message = record {
  origin = charging_station;
  action = member "Reset";
  station_id = "cs1";
  correlation_id = "7";
  tenant_id = some 1;
  timestamp = "now";
  state = request;
  protocol = ocpp2_0_1;
  payload = value null;
}

abbrev answer_message : Message
answer_message = record call_message { state = response }

abbrev reset_module : Module
reset_module = record {
  handlers = record { protocol = ocpp2_0_1; action = "Reset"; method = λ m. thrown } ∷ [];
  event_group = "configuration";
  stringify = λ p. "{}";
}

abbrev reset_call : CallRequest
reset_call = record {
  message = call_message;
  tenant = 1;
  callback_url = some "https://hook.example";
}

abbrev stored : Store
stored = (send_call (λ c. ocpp2_0_1) true reset_call empty).1

handle-send_call_example :
    ((handle reset_module answer_message stored).0
      ≡ posted "https://hook.example" (value null)
        ∷ (ran answer_message (find_handler reset_module.handlers answer_message) ++ []))
    × ((handle reset_module answer_message empty).0
        ≡ ran answer_message (find_handler reset_module.handlers answer_message) ++ [])
handle-send_call_example =
    handle-send_call reset_module (λ c. ocpp2_0_1) reset_call answer_message "https://hook.example"
      empty stored empty refl refl refl refl refl refl refl
