-- ===== src/Router/Responses.antt =====
-- The answers that the router receives: _onCallResult and _onCallError, whose promise chains end in a
-- handler that only logs.
pub mod Late
pub mod Silence
use rexharge_citrineos_core.Prelude.{
  ℕ, String, Option, none, some, Bool, true, false, List, includes, str_eq, if◌then◌else◌,
}
use rexharge_citrineos_core.Prelude.Text.{concat}
use rexharge_citrineos_core.Cache.Store.{get_text, remove_key}
use rexharge_citrineos_core.Rpc.Value.{Value, undefined}
use rexharge_citrineos_core.Rpc.Actions.{ocpp1_6_call_result_schemas, ocpp2_0_1_call_result_schemas}
use rexharge_citrineos_core.Rpc.Message.{
  Protocol, ocpp1_6, ocpp2_0_1, unsupported, ErrorCode, OcppError, Result, ok, throw, CallAction,
  member, inherited, map_to_call_action,
}
use rexharge_citrineos_core.Router.{
  Message, response, value, error, Environment, RouterState, record_effect, routed, called_back,
}
use rexharge_citrineos_core.Router.Pending.{cut}
use rexharge_citrineos_core.Router.Sending.{tx, is_text}
use rexharge_citrineos_core.Router.Receiving.{
  Validation, is_valid, is_invalid, has_schema, validation_of, message_of,
}

-- The actions with a schema for a CallResult.
unfoldable pub call_result_schemas : Protocol → Option (List String)
call_result_schemas ocpp1_6 = some ocpp1_6_call_result_schemas
call_result_schemas ocpp2_0_1 = some ocpp2_0_1_call_result_schemas
call_result_schemas (unsupported version) = none

-- _validateCallResult; a map has no entry for an inherited member
unfoldable pub validate_call_result : Environment → Protocol → CallAction → Value → Validation
unfolding call_result_schemas has_schema
validate_call_result env protocol (member action) payload =
    if has_schema (call_result_schemas protocol) action
    then validation_of (env.check_call_result protocol action payload)
    else is_invalid undefined
validate_call_result env protocol (inherited key) payload = is_invalid undefined

-- The action of the pending call, if the entry is there and is of this identifier.
pending_action : Option String → String → Option String
pending_action none id = none
pending_action (some entry) id = if is_text (cut entry).1 id then some (cut entry).0 else none

-- A pending call is always removed.
abbrev pub take_pending : String → RouterState → RouterState
take_pending identifier s = record s { cache = (remove_key identifier tx s.cache).1 }

-- _routeCallResult
route_call_result :
    String → Protocol → String → CallAction → Validation → String → RouterState → RouterState
route_call_result identifier protocol id action (is_invalid errors) timestamp s = s
route_call_result identifier protocol id action (is_valid payload) timestamp s =
    record_effect
      (routed (message_of response identifier id action (value payload) timestamp protocol)) s

result_mapped :
    Environment
    → String
    → Protocol
    → String
    → Value
    → Result CallAction
    → String
    → RouterState
    → RouterState
unfolding route_call_result
result_mapped env identifier protocol id payload (throw e) timestamp s = s
result_mapped env identifier protocol id payload (ok action) timestamp s =
    route_call_result identifier protocol id action
      (validate_call_result env protocol action payload) timestamp s

result_for :
    Environment
    → String
    → Protocol
    → String
    → Value
    → Option String
    → String
    → RouterState
    → RouterState
unfolding result_mapped
result_for env identifier protocol id payload none timestamp s = s
result_for env identifier protocol id payload (some action) timestamp s =
    result_mapped env identifier protocol id payload (map_to_call_action protocol action) timestamp
      s

-- _onCallResult; what the sender answers to the routed message is only logged
unfoldable pub on_call_result :
    Environment → String → Protocol → String → Value → String → RouterState → RouterState
unfolding pending_action result_for
on_call_result env identifier protocol id payload timestamp s =
    result_for env identifier protocol id payload
      (pending_action (get_text identifier tx s.cache) id) timestamp (take_pending identifier s)

-- _handleMessageApiCallback: a POST, unless the configured token provider fails
api_callback : Option Bool → Option String → Message → RouterState → RouterState
api_callback token none m s = s
api_callback (some false) (some url) m s = s
api_callback token (some url) m s = record_effect (called_back url m) s

abbrev callback_url_prefix : String
callback_url_prefix = "CALLBACK_URL_"

-- _routeCallError: no routing, only the callback of the call
route_call_error :
    Environment
    → String
    → Protocol
    → OcppError
    → Result CallAction
    → String
    → RouterState
    → RouterState
unfolding api_callback
route_call_error env identifier protocol e (throw _) timestamp s = s
route_call_error env identifier protocol e (ok action) timestamp s =
    let m = message_of response identifier e.message_id action (error e) timestamp protocol in
    api_callback env.token
      (get_text m.correlation_id (some (concat callback_url_prefix m.station_id)) s.cache) m s

error_for :
    Environment → String → Protocol → OcppError → Option String → String → RouterState → RouterState
unfolding route_call_error
error_for env identifier protocol e none timestamp s = s
error_for env identifier protocol e (some action) timestamp s =
    route_call_error env identifier protocol e (map_to_call_action protocol action) timestamp s

-- _onCallError
unfoldable pub on_call_error :
    Environment → String → Protocol → OcppError → String → RouterState → RouterState
unfolding pending_action error_for
on_call_error env identifier protocol e timestamp s =
    error_for env identifier protocol e
      (pending_action (get_text identifier tx s.cache) e.message_id) timestamp
      (take_pending identifier s)
