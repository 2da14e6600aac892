-- ===== src/Dispatch.antt =====
-- What every module does with a message and how it sends a call: handle, handleMessageApiCallback and
-- sendCall of 00_Base/src/interfaces/modules/AbstractModule.ts. What a handler does is its outcome.
pub mod Answers
mod Tests
use rexharge_citrineos_core.Prelude.{
  ℕ, String, Option, none, some, Bool, true, false, ◌&&◌, List, [], ◌∷◌, ◌++◌, get_or, str_eq,
  if◌then◌else◌,
}
use rexharge_citrineos_core.Prelude.Text.{concat}
use rexharge_citrineos_core.Identifier.{create_identifier, connections, namespace_text}
use rexharge_citrineos_core.Cache.Store.{Store, get_text, set, truthy}
use rexharge_citrineos_core.Rpc.Value.{Value, obj, end}
use rexharge_citrineos_core.Rpc.Message.{
  Protocol, ocpp1_6, ocpp2_0_1, unsupported, OcppError, ErrorCode, not_supported, internal_error,
  CallAction, member, inherited, action_text,
}
use rexharge_citrineos_core.Router.{
  Message, MessageState, request, response, unknown, charging_station_management_system, Payload,
  value, error,
}

-- How a handler ends: it returns, or it throws an OcppError, another Error with its message, or
-- something else.
pub data Outcome : Type 0 where
  finished : Outcome
  raised : OcppError → Outcome
  failed : String → Outcome
  thrown : Outcome

-- IHandlerDefinition
pub record Handler : Type 0 where
  pub protocol : Protocol
  pub action : String
  pub method : Message → Outcome

-- The handlers of a module, its event group, and JSON.stringify of a payload.
pub record Module : Type 0 where
  pub handlers : List Handler
  pub event_group : String
  pub stringify : Payload → String

-- What a module does to the world, the last one last.
pub data Effect : Type 0 where
  handled : Message → Effect
  responded : Message → Payload → Effect
  posted : String → Payload → Effect

abbrev pub same_protocol : Protocol → Protocol → Bool
same_protocol ocpp1_6 ocpp1_6 = true
same_protocol ocpp2_0_1 ocpp2_0_1 = true
same_protocol (unsupported s) (unsupported t) = str_eq s t
same_protocol p q = false

abbrev pub same_action : String → CallAction → Bool
same_action s (member t) = str_eq s t
same_action s (inherited key) = false

-- the last handler that fits the message
unfoldable pub find_handler : List Handler → Message → Option Handler
find_handler [] m = none
find_handler (h ∷ hs) m =
    let rest = find_handler hs m in
    elim rest [
      | some later ↦ some later
      | none ↦
          if same_protocol h.protocol m.protocol && same_action h.action m.action
          then some h
          else none
    ]

abbrev pub callback_namespace : String → String
callback_namespace station = concat "CALLBACK_URL_" station

abbrev pub post_to : Option String → Payload → List Effect
post_to none p = []
post_to (some url) p = posted url p ∷ []

-- handleMessageApiCallback; whether the URL answers makes no difference
unfoldable pub handle_message_api_callback : Message → Store → List Effect
handle_message_api_callback m s =
    post_to (get_text m.correlation_id (some (callback_namespace m.station_id)) s) m.payload

abbrev pub ocpp_error : String → ErrorCode → String → OcppError
ocpp_error id code description = record {
  message_id = id;
  code = code;
  description = description;
  details = obj end;
}

unfoldable pub no_handler : Module → Message → OcppError
no_handler self m = ocpp_error m.correlation_id not_supported (
    concat "No handler found for action: "
      (concat (action_text m.action) (concat " at module " self.event_group)))

-- What is thrown while the message is handled.
unfoldable pub outcome_of : Module → Message → Option Handler → Outcome
unfolding no_handler
outcome_of self m none = raised (no_handler self m)
outcome_of self m (some h) = h.method m

-- the message as it is sent back
abbrev pub from_csms : Message → Message
from_csms m = record m { origin = charging_station_management_system }

unfoldable pub answer_request : Message → Outcome → List Effect
answer_request m finished = []
answer_request m (raised e) = responded (from_csms m) (error e) ∷ []
answer_request m (failed s) =
    responded (from_csms m)
      (error (ocpp_error m.correlation_id internal_error (concat "Failed handling message: " s)))
    ∷ []
answer_request m thrown = []

-- the `catch`: errors are sent for requests only
unfoldable pub answer_outcome : MessageState → Message → Outcome → List Effect
unfolding answer_request
answer_outcome request m o = answer_request m o
answer_outcome response m o = []
answer_outcome unknown m o = []

abbrev pub ran : Message → Option Handler → List Effect
ran m none = []
ran m (some h) = handled m ∷ []

-- the first lines, for a response
unfoldable pub before_handling : Module → MessageState → Message → Store → List Effect × Store
unfolding handle_message_api_callback
before_handling self response m s = (
  handle_message_api_callback m s,
  set m.correlation_id (self.stringify m.payload) (some m.station_id) s,
)
before_handling self request m s = ([], s)
before_handling self unknown m s = ([], s)

unfoldable pub handle_in : Module → MessageState → Message → Store → List Effect × Store
unfolding before_handling answer_outcome outcome_of find_handler
handle_in self state m s =
    let (before, s') = before_handling self state m s in
    let h = find_handler self.handlers m in
    (before ++ (ran m h ++ answer_outcome state m (outcome_of self m h)), s')

-- handle
unfoldable pub handle : Module → Message → Store → List Effect × Store
unfolding handle_in
handle self m s = handle_in self m.state m s

-- What sendCall gives back: a refusal, whose text lacks the two protocols here, or a message for the
-- sender.
pub data Call : Type 0 where
  refused : String → Call
  requested : Message → Call

-- a call as RequestBuilder.buildCall makes it
pub record CallRequest : Type 0 where
  pub message : Message
  pub tenant : ℕ
  pub callback_url : Option String

unfoldable pub call_on_connection :
    (String → Protocol) → CallRequest → String → Option String → Call
call_on_connection protocol_of r identifier none =
    refused (concat "No connection found for identifier: " identifier)
call_on_connection protocol_of r identifier (some connection) =
    if same_protocol (protocol_of connection) r.message.protocol
    then requested r.message
    else refused
        (concat "Requested protocol and connection protocol differ for identifier: " identifier)

-- The URL for the answer is written, where there is one. The write is not awaited and may fail, which is
-- only logged; `written` says whether it takes place. The entry expires after maxCachingSeconds, so that
-- it may be gone from a later state of the cache.
unfoldable pub store_callback : Bool → CallRequest → Option String → Store → Store
store_callback written r none s = s
store_callback false r (some url) s = s
store_callback true r (some url) s =
    set r.message.correlation_id url (some (callback_namespace r.message.station_id)) s

-- sendCall; `protocol_of` reads the protocol of a stored connection
unfoldable pub send_call : (String → Protocol) → Bool → CallRequest → Store → Call × Store
unfolding call_on_connection store_callback
send_call protocol_of written r s =
    let identifier = create_identifier r.tenant r.message.station_id in
    let s' = store_callback written r (truthy r.callback_url) s in
    (
      call_on_connection protocol_of r identifier
          (get_text identifier (some (namespace_text connections)) s'),
      s',
    )
