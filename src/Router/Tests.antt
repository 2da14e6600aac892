-- ===== src/Router/Tests.antt =====
-- One station's exchanges with the router.
use rexharge_citrineos_core.Prelude.{
  arith, ◌∷◌, remove, false, String, ◌≡◌, ◌≢◌, refl, Option, none, some, Bool, true, [], empty,
  insert, subst, ap, get_or, eq_iff, false≢true,
}
use rexharge_citrineos_core.Identifier.{create_identifier}
use rexharge_citrineos_core.Cache.Store.{Store, full_key, get_text, exists, set_if_not_exist}
use rexharge_citrineos_core.Rpc.Value.{null, undefined, remove_nulls}
use rexharge_citrineos_core.Rpc.Message.{
  member, ocpp2_0_1, OcppError, internal_error, Result, ok, action_text, call_result_frame,
  map_to_call_action,
}
use rexharge_citrineos_core.Router.{
  Message, routed, request, value, Environment, RouterState, send_message,
}
use rexharge_citrineos_core.Router.Pending.{cut}
use rexharge_citrineos_core.Router.Sending.{
  tx, boot_status, send_call_is_allowed, send_call, send_call_result,
}
use rexharge_citrineos_core.Router.Sending.Calls.{IsStarted, send_call_writes}
use rexharge_citrineos_core.Router.Receiving.{
  message_of, on_call, on_call_is_allowed, validate_call, call_failure, empty_object,
}
use rexharge_citrineos_core.Router.Receiving.Calls.{Outcome, on_call-Outcome}
use rexharge_citrineos_core.Router.Receiving.Exchange.{on_call_answered}
use rexharge_citrineos_core.Router.Responses.{on_call_result}
use rexharge_citrineos_core.Router.Responses.Late.{IsLate, on_call_result_late}
use rexharge_citrineos_core.Router.Responses.Silence.{frames}
use rexharge_citrineos_core.Router.Incoming.{call_result, on_message}
use rexharge_citrineos_core.Router.Incoming.Answers.{IsReply, on_message_reply}

-- A network that takes every frame, a sender that confirms, schemas that accept.
abbrev calm : Environment
calm = record {
  deliver = λ to frame. true;
  send = λ m. ok (record { success = true; payload = null });
  check_call =
      λ protocol action payload. record { valid = true; payload = payload; errors = undefined };
  check_call_result =
      λ protocol action payload. record { valid = true; payload = payload; errors = undefined };
  token = none;
}

abbrev station : String
station = "1:cs1"

-- Nothing is pending, or one call is.
abbrev idle : RouterState
idle = record { cache = empty; log = [] }

abbrev pending_with : String → RouterState
pending_with entry = record { cache = insert (full_key station tx) entry empty; log = [] }

abbrev heartbeat_pending : RouterState
heartbeat_pending = pending_with "Heartbeat:7"

on_call-Outcome_example :
    Outcome calm station ocpp2_0_1 "8" "Heartbeat" empty_object "t" idle
      (on_call calm station ocpp2_0_1 "8" "Heartbeat" empty_object "t" idle)
on_call-Outcome_example =
    on_call-Outcome calm station ocpp2_0_1 "8" "Heartbeat" empty_object "t" idle

-- The station's list in the cache has the key Heartbeat.
abbrev listed : RouterState
listed = record {
  cache = insert (full_key "Heartbeat" (some station)) "blacklisted" empty;
  log = [];
}

-- The message that is routed.
abbrev heartbeat : Message
heartbeat =
    message_of request (create_identifier 1 "cs1") "8" (member "Heartbeat") (value empty_object) "t"
      ocpp2_0_1

abbrev accepted : RouterState
accepted = on_call calm (create_identifier 1 "cs1") ocpp2_0_1 "8" "Heartbeat" empty_object "t" idle

-- What the network and the modules did in between does not matter.
abbrev resumed : RouterState
resumed = record { cache = accepted.cache; log = [] }

on_call_answered_example :
    (accepted.log ≡ routed heartbeat ∷ idle.log)
    × (heartbeat.tenant_id ≡ some 1)
    × ((send_call_result calm heartbeat.correlation_id heartbeat.station_id 1 heartbeat.protocol
          "Heartbeat" null resumed).0
        ≡ calm.deliver (create_identifier 1 "cs1") (remove_nulls (call_result_frame "8" null)))
    × (send_call_result calm heartbeat.correlation_id heartbeat.station_id 1 heartbeat.protocol
          "Heartbeat" null idle
        ≡ (false, idle))
unfolding map_to_call_action on_call_is_allowed validate_call exists call_failure action_text
on_call_answered_example =
    on_call_answered calm "cs1" 1 ocpp2_0_1 "8" "Heartbeat" "Heartbeat" empty_object empty_object
      null "t" idle resumed idle (ground arith, (ground arith, (ground arith, tt))) (refl, tt) refl
      refl refl refl refl refl refl

abbrev call : RouterState → Result Bool × RouterState
call s = send_call calm "cs1" 1 ocpp2_0_1 "Reset" empty_object "9" s

send_call_writes_example :
    (send_call_is_allowed (create_identifier 1 "cs1") ocpp2_0_1 "Reset" empty_object idle.cache
      ≡ ok true)
    × IsStarted (create_identifier 1 "cs1") ocpp2_0_1 "Reset" "9" empty_object idle (call idle).1
unfolding send_call send_call_is_allowed get_text set_if_not_exist send_message
send_call_writes_example =
    send_call_writes calm "cs1" 1 ocpp2_0_1 "Reset" empty_object "9" idle (λ e. cc)

-- A call of the station made from the parts of its identifier.
abbrev reset_pending : RouterState
reset_pending = record {
  cache = insert (full_key (create_identifier 1 "cs1") tx) "Reset:9" empty;
  log = [];
}

abbrev rejected : Store
rejected = insert (full_key boot_status (some station)) "Rejected" empty

abbrev broken : OcppError
broken = record { message_id = "9"; code = internal_error; description = "Failed"; details = null }

other_id : (◌≢◌ {A = Option String} (some "7") (some "6"))
other_id e = false≢true ((eq_iff "7" "6").1 (ap (λ o. get_or o "") e))

late : IsLate station "6" heartbeat_pending.cache
unfolding IsLate get_text cut
late entry e k = other_id (subst (λ t. (cut t).1 ≡ some "6") same k)
  where
    same : entry ≡ "Heartbeat:7"
    same = cc e

on_call_result_late_example :
    ((on_call_result calm station ocpp2_0_1 "6" null "t" heartbeat_pending).log ≡ [])
    × (exists station tx
          (on_call_result calm station ocpp2_0_1 "6" null "t" heartbeat_pending).cache
        ≡ false)
    × ((on_call_result calm station ocpp2_0_1 "6" null "t" heartbeat_pending).cache
        ≡ remove (full_key station tx) heartbeat_pending.cache)
on_call_result_late_example =
    on_call_result_late calm station ocpp2_0_1 "t" heartbeat_pending "6" null late

abbrev late_error : OcppError
late_error = record {
  message_id = "6";
  code = internal_error;
  description = "Failed";
  details = null;
}

abbrev display_pending : RouterState
display_pending = pending_with "GetDisplayMessages:7"

on_message_reply_example :
    (frames (on_message calm station ocpp2_0_1 (call_result "6" null) "t" heartbeat_pending).1.log
      ≡ [])
    × ((on_message calm station ocpp2_0_1 (call_result "6" null) "t" heartbeat_pending).0 ≡ true)
unfolding frames IsReply
on_message_reply_example =
    on_message_reply calm station ocpp2_0_1 "t" heartbeat_pending (call_result "6" null) tt
