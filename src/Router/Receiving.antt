-- ===== src/Router/Receiving.antt =====
-- The calls that the router receives: _onCall, with _validateCall and _routeCall.
pub mod Calls
pub mod Exchange
use rexharge_citrineos_core.Prelude.{
  ℕ, String, Option, none, some, Bool, true, false, ◌&&◌, not, List, includes, str_eq,
  if◌then◌else◌,
}
use rexharge_citrineos_core.Prelude.Text.{concat, colon_join}
use rexharge_citrineos_core.Identifier.{create_identifier, get_tenant_id, get_station_id}
use rexharge_citrineos_core.Cache.Store.{Store, get_text, exists, set_if_not_exist, remove_key}
use rexharge_citrineos_core.Rpc.Value.{Value, undefined, text, obj, end, field, num, remove_nulls}
use rexharge_citrineos_core.Rpc.Actions.{
  ocpp1_6_call_schemas, ocpp2_0_1_call_schemas, ocpp1_6_call_result_schemas,
  ocpp2_0_1_call_result_schemas,
}
use rexharge_citrineos_core.Rpc.Message.{
  Protocol, ocpp1_6, ocpp2_0_1, unsupported, ErrorCode, format_violation, formation_violation,
  internal_error, rpc_framework_error, security_error, OcppError, Exception, ocpp, plain, retry,
  Result, ok, throw, CallAction, member, inherited, action_text, map_to_call_action,
  call_error_frame, as_call_error,
}
use rexharge_citrineos_core.Router.{
  Message, MessageState, MessageOrigin, charging_station, request, response, Payload, value, error,
  Confirmation, Checked, Environment, RouterState, record_effect, routed, called_back, received,
  send_message,
}
use rexharge_citrineos_core.Router.Pending.{cut}
use rexharge_citrineos_core.Router.Sending.{tx, send_call_error_to}

abbrev pub with_error : String → ErrorCode → String → Value → Exception
with_error id code description details =
    ocpp (record { message_id = id; code = code; description = description; details = details })

abbrev pub details_of : String → Value → Value
details_of name v = obj (field name v end)

-- An error object has no properties of its own that JSON.stringify writes.
abbrev pub empty_object : Value
empty_object = obj end

-- The actions with a schema for a Call.
call_schemas : Protocol → Option (List String)
call_schemas ocpp1_6 = some ocpp1_6_call_schemas
call_schemas ocpp2_0_1 = some ocpp2_0_1_call_schemas
call_schemas (unsupported version) = none

unfoldable pub has_schema : Option (List String) → String → Bool
has_schema none action = false
has_schema (some actions) action = includes actions action

-- A payload that is valid, as the schema left it, or the errors, undefined where no schema is found.
pub data Validation : Type 0 where
  is_valid : Value → Validation
  is_invalid : Value → Validation

abbrev pub validation_of : Checked → Validation
validation_of c = if c.valid then is_valid c.payload else is_invalid c.errors

-- _validateCall
unfoldable pub validate_call : Environment → Protocol → String → Value → Validation
unfolding call_schemas has_schema
validate_call env protocol action payload =
    if has_schema (call_schemas protocol) action
    then validation_of (env.check_call protocol action payload)
    else is_invalid undefined

-- _onCallIsAllowed
unfoldable pub on_call_is_allowed : CallAction → String → Store → Bool
on_call_is_allowed action identifier cache =
    not (exists (action_text action) (some identifier) cache)

-- The call took the one place for a pending call; its payload is as the schema left it.
pub record Accepted : Type 0 where
  pub action : CallAction
  pub payload : Value
  pub cache : Store

claim : String → CallAction → Value → Bool × Store → Result Accepted
claim id action payload (true, cache) =
    ok (record { action = action; payload = payload; cache = cache })
claim id action payload (false, cache) =
    throw (with_error id rpc_framework_error "Call already in progress" empty_object)

accept_valid : String → String → CallAction → Validation → Store → Result Accepted
unfolding claim
accept_valid identifier id action (is_invalid errors) cache =
    throw (with_error id format_violation "Invalid message format" (details_of "errors" errors))
accept_valid identifier id action (is_valid payload) cache =
    claim id action payload
      (set_if_not_exist identifier (colon_join (action_text action) id) tx cache)

accept_mapped :
    Environment
    → String
    → Protocol
    → String
    → String
    → Value
    → Result CallAction
    → Store
    → Result Accepted
unfolding accept_valid
accept_mapped env identifier protocol id name payload (throw e) cache = throw e
accept_mapped env identifier protocol id name payload (ok action) cache =
    if on_call_is_allowed action identifier cache
    then accept_valid identifier id action (validate_call env protocol name payload) cache
    else throw (
        with_error id security_error (concat "Action " (concat (action_text action) " not allowed"))
          empty_object)

-- The first block of _onCall: the action is known, allowed and valid, and no call is pending.
accept : Environment → String → Protocol → String → String → Value → Store → Result Accepted
unfolding accept_mapped
accept env identifier protocol id name payload cache =
    accept_mapped env identifier protocol id name payload (map_to_call_action protocol name) cache

-- The error frame of that block's handler: an exception that is no OcppError is named in the details.
refusal : String → Exception → Value
refusal id (ocpp e) = as_call_error e
refusal id (plain m) =
    call_error_frame id internal_error "Unable to process message" (details_of "error" (text m))
refusal id (retry m) =
    call_error_frame id internal_error "Unable to process message" (details_of "error" (text m))

unfoldable pub message_of :
    MessageState → String → String → CallAction → Payload → String → Protocol → Message
message_of state identifier id action payload timestamp protocol = record {
  origin = charging_station;
  action = action;
  station_id = get_station_id identifier;
  correlation_id = id;
  tenant_id = get_tenant_id identifier;
  timestamp = timestamp;
  state = state;
  protocol = protocol;
  payload = payload;
}

-- What goes wrong with a routed call, if anything does.
unfoldable pub call_failure : String → Result Confirmation → Option OcppError
call_failure id (ok c) =
    if c.success
    then none
    else some (record {
      message_id = id;
      code = internal_error;
      description = "Call failed";
      details = details_of "details" c.payload;
    })
call_failure id (throw (ocpp e)) = some e
call_failure id (throw e) = some (record {
  message_id = id;
  code = internal_error;
  description = "Call failed";
  details = details_of "details" empty_object;
})

-- createIdentifier of the parts of an identifier; a tenant that is no number is printed as NaN
rebuild : Option ℕ → String → String
rebuild none station = colon_join "NaN" station
rebuild (some tenant) station = create_identifier tenant station

-- sendCallError, and then, however it ends, the pending call is removed.
abandon : Environment → String → Protocol → String → Option OcppError → RouterState → RouterState
unfolding rebuild
abandon env identifier protocol id none s = s
abandon env identifier protocol id (some e) s =
    let to = rebuild (get_tenant_id identifier) (get_station_id identifier) in
    let (_, s') = send_call_error_to env to id protocol e s in
    record s' { cache = (remove_key identifier tx s'.cache).1 }

-- _routeCall and the second block of _onCall
route_call :
    Environment → String → Protocol → String → String → Accepted → RouterState → RouterState
unfolding message_of call_failure abandon
route_call env identifier protocol id timestamp a s =
    let m = message_of request identifier id a.action (value a.payload) timestamp protocol in
    abandon env identifier protocol id (call_failure id (env.send m)) (record_effect (routed m) s)

on_call_for :
    Environment → String → Protocol → String → String → Result Accepted → RouterState → RouterState
unfolding refusal route_call
on_call_for env identifier protocol id timestamp (ok a) s =
    route_call env identifier protocol id timestamp a (record s { cache = a.cache })
on_call_for env identifier protocol id timestamp (throw e) s =
    (send_message env identifier protocol (remove_nulls (refusal id e)) s).1

-- _onCall. The entry of the pending call expires after maxCallLengthSeconds: a later state of the cache
-- may lack it.
unfoldable pub on_call :
    Environment → String → Protocol → String → String → Value → String → RouterState → RouterState
unfolding accept on_call_for
on_call env identifier protocol id name payload timestamp s =
    on_call_for env identifier protocol id timestamp
      (accept env identifier protocol id name payload s.cache) s
