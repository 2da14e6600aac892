-- ===== src/Webhooks/Tests.antt =====
-- One station with one subscription to its messages.
use rexharge_citrineos_core.Prelude.{
  ◌≡◌, refl, none, some, true, false, [], ◌∷◌, ◌++◌, empty, arith,
}
use rexharge_citrineos_core.Prelude.Text.{Lacks}
use rexharge_citrineos_core.Identifier.{create_identifier}
use rexharge_citrineos_core.Rpc.Message.{ok, member, ocpp2_0_1, map_to_call_action}
use rexharge_citrineos_core.Router.{charging_station}
use rexharge_citrineos_core.Webhooks.{
  World, Dispatcher, Subscription, call, message, post, register, deregister, dispatch_message,
  passes_filter,
}
use rexharge_citrineos_core.Webhooks.Posts.{dispatch_message_posts}

abbrev subscription : Subscription
subscription = record {
  station_id = "cs1";
  url = "https://hook.example";
  on_connect = true;
  on_close = false;
  on_message = true;
  sent_message = false;
  message_regex_filter = none;
}

abbrev world : World
world = record {
  subscriptions = λ tenant station. ok (subscription ∷ []);
  matches = λ filter text. some true;
  commits = true;
  uuid = "u1";
}

abbrev idle : Dispatcher
idle = record {
  identifiers = [];
  on_connection_callbacks = empty;
  on_close_callbacks = empty;
  on_message_callbacks = empty;
  sent_message_callbacks = empty;
  rows = [];
  posts = [];
}

dispatch_message_posts_example :
    ((dispatch_message world charging_station
        (create_identifier 1 "cs1")
        "m"
        "now"
        ocpp2_0_1
        (call "7" "Heartbeat")
        (register world 1 "cs1" idle)).posts
      ≡ (register world 1 "cs1" idle).posts
        ++ (post (message charging_station "m") subscription ∷ []))
    × ((dispatch_message world charging_station
          (create_identifier 1 "cs1")
          "m"
          "now"
          ocpp2_0_1
          (call "7" "Heartbeat")
          (deregister 1 "cs1" idle)).posts
        ≡ (deregister 1 "cs1" idle).posts ++ [])
unfolding passes_filter
dispatch_message_posts_example =
    dispatch_message_posts world 1 "cs1" idle "m" "now" ocpp2_0_1 (call "7" "Heartbeat")
      (subscription ∷ []) refl refl

Lacks-name : Lacks b':' "cs1"
Lacks-name = (λ e. ground arith, (λ e. ground arith, (λ e. ground arith, tt)))

is_known : map_to_call_action ocpp2_0_1 "Heartbeat" ≡ ok (member "Heartbeat")
unfolding map_to_call_action
is_known = refl
