-- ===== src/Rpc/Message.antt =====
-- Frames, errors and actions of the RPC framework (00_Base/src/ocpp/rpc/message.ts).
pub mod Known
use rexharge_citrineos_core.Prelude.{
  String, Option, none, some, Bool, true, false, List, [], ◌∷◌, str_eq, includes, if◌then◌else◌,
}
use rexharge_citrineos_core.Prelude.Text.{concat}
use rexharge_citrineos_core.Rpc.Value.{Value, num, text, arr, obj, Items, nil, cons, end}
use rexharge_citrineos_core.Rpc.Actions.{ocpp1_6_actions, ocpp2_0_1_actions}

-- OCPPVersionType, with any other text that a connection may carry.
pub data Protocol : Type 0 where
  ocpp1_6 ocpp2_0_1 : Protocol
  unsupported : String → Protocol

pub data ErrorCode : Type 0 where
  format_violation formation_violation not_implemented protocol_error generic_error : ErrorCode
  internal_error message_type_not_supported not_supported : ErrorCode
  occurrence_constraint_violation property_constraint_violation rpc_framework_error : ErrorCode
  security_error type_constraint_violation : ErrorCode

unfoldable pub error_code_text : ErrorCode → String
error_code_text format_violation = "FormatViolation"
error_code_text formation_violation = "FormationViolation"
error_code_text not_implemented = "NotImplemented"
error_code_text protocol_error = "ProtocolError"
error_code_text generic_error = "GenericError"
error_code_text internal_error = "InternalError"
error_code_text message_type_not_supported = "MessageTypeNotSupported"
error_code_text not_supported = "NotSupported"
error_code_text occurrence_constraint_violation = "OccurrenceConstraintViolation"
error_code_text property_constraint_violation = "PropertyConstraintViolation"
error_code_text rpc_framework_error = "RpcFrameworkError"
error_code_text security_error = "SecurityError"
error_code_text type_constraint_violation = "TypeConstraintViolation"

pub record OcppError : Type 0 where
  pub message_id : String
  pub code : ErrorCode
  pub description : String
  pub details : Value

-- What the code throws.
pub data Exception : Type 0 where
  ocpp : OcppError → Exception
  plain : String → Exception
  retry : String → Exception

pub data Result {ℓ} (A : Type ℓ) : Type ℓ where
  ok : A → Result A
  throw : Exception → Result A

-- The frames, as arrays.
unfoldable pub call_frame : String → String → Value → Value
call_frame id action payload =
    arr (cons (num 2) (cons (text id) (cons (text action) (cons payload nil))))

unfoldable pub call_result_frame : String → Value → Value
call_result_frame id payload = arr (cons (num 3) (cons (text id) (cons payload nil)))

unfoldable pub call_error_frame : String → ErrorCode → String → Value → Value
call_error_frame id code description details = arr (
    cons (num 4) (
      cons (text id)
        (cons (text (error_code_text code)) (cons (text description) (cons details nil)))))

-- OcppError.asCallError
unfoldable pub as_call_error : OcppError → Value
as_call_error e = call_error_frame e.message_id e.code e.description e.details

-- The value of an enum at a key: the text of a member, or, for a key that every object inherits, the
-- inherited member of that name.
pub data CallAction : Type 0 where
  member inherited : String → CallAction

-- The keys that an object inherits from Object.prototype.
abbrev pub inherited_keys : List String
inherited_keys =
    "constructor" ∷ "__defineGetter__" ∷ "__defineSetter__" ∷ "hasOwnProperty" ∷ "__lookupGetter__"
    ∷ "__lookupSetter__" ∷ "isPrototypeOf" ∷ "propertyIsEnumerable" ∷ "toString" ∷ "valueOf"
    ∷ "__proto__" ∷ "toLocaleString" ∷ []

-- An inherited member as text: of functions their source, of the prototype its tag.
inherited_text : String → String
inherited_text key =
    if str_eq key "__proto__"
    then "[object Object]"
    else if str_eq key "constructor"
    then "function Object() { [native code] }"
    else concat "function " (concat key "() { [native code] }")

-- An action in a template text, or as a key of the cache.
unfoldable pub action_text : CallAction → String
unfolding inherited_text
action_text (member s) = s
action_text (inherited key) = inherited_text key

-- `action in OCPP…_CallAction`, and the value there
look_up : List String → String → String → Result CallAction
look_up actions name action =
    if includes actions action
    then ok (member action)
    else if includes inherited_keys action
    then ok (inherited action)
    else throw (plain (concat "Invalid " (concat name (concat " action: " action))))

map_action : Protocol → String → Result CallAction
unfolding look_up
map_action ocpp1_6 action = look_up ocpp1_6_actions "OCPP 1.6" action
map_action ocpp2_0_1 action = look_up ocpp2_0_1_actions "OCPP 2.0.1" action
map_action (unsupported version) action =
    throw (plain (concat "Unsupported OCPP version: " version))

-- mapToCallAction
unfoldable pub map_to_call_action : Protocol → String → Result CallAction
unfolding map_action
map_to_call_action version action =
    if str_eq action ""
    then throw (plain "Action must be a non-empty string")
    else map_action version action
