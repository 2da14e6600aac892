-- ===== src/Router/Incoming.antt =====
-- onMessage: what the router makes of a text from the network.
pub mod Answers
use rexharge_citrineos_core.Prelude.{ℕ, String, Bool, true, false}
use rexharge_citrineos_core.Prelude.Text.{concat}
use rexharge_citrineos_core.Rpc.Value.{Value, remove_nulls}
use rexharge_citrineos_core.Rpc.Message.{
  Protocol, ocpp1_6, ocpp2_0_1, unsupported, ErrorCode, format_violation, formation_violation,
  internal_error, OcppError, call_error_frame, as_call_error,
}
use rexharge_citrineos_core.Router.{Environment, RouterState, record_effect, received, send_message}
use rexharge_citrineos_core.Router.Receiving.{on_call, details_of, empty_object}
use rexharge_citrineos_core.Router.Responses.{on_call_result, on_call_error}

-- What JSON.parse makes of the text: nothing with parts, or an array by the number that it begins
-- with. The parts have the types that the frames of rpc/message.ts give them.
pub data Frame : Type 0 where
  unreadable : Frame
  call : String → String → Value → Frame
  call_result : String → Value → Frame
  call_error : OcppError → Frame
  other : String → String → Frame

-- The answer to what is no frame: "-1" stands for an identifier that cannot be read.
pub unreadable_answer : Value
unreadable_answer =
    call_error_frame "-1" internal_error "Unable to process message"
      (details_of "error" empty_object)

-- The answer to an unknown type of message.
unknown_answer : Protocol → String → String → Value
unknown_answer ocpp1_6 id type_id =
    call_error_frame id formation_violation (concat "Unknown message type id: " type_id)
      empty_object
unknown_answer ocpp2_0_1 id type_id =
    call_error_frame id format_violation (concat "Unknown message type id: " type_id) empty_object
unknown_answer (unsupported version) id type_id =
    call_error_frame id internal_error "Unable to process message" (details_of "error" empty_object)

answer : Environment → String → Protocol → Value → RouterState → RouterState
answer env identifier protocol frame s =
    (send_message env identifier protocol (remove_nulls frame) s).1

process : Environment → String → Protocol → Frame → String → RouterState → Bool × RouterState
unfolding unreadable_answer unknown_answer answer
process env identifier protocol unreadable timestamp s =
    (false, answer env identifier protocol unreadable_answer s)
process env identifier protocol (call id action payload) timestamp s =
    (true, on_call env identifier protocol id action payload timestamp s)
process env identifier protocol (call_result id payload) timestamp s =
    (true, on_call_result env identifier protocol id payload timestamp s)
process env identifier protocol (call_error e) timestamp s =
    (true, on_call_error env identifier protocol e timestamp s)
process env identifier protocol (other id type_id) timestamp s =
    (false, answer env identifier protocol (unknown_answer protocol id type_id) s)

-- onMessage; the webhooks get the frame in the end
unfoldable pub on_message :
    Environment → String → Protocol → Frame → String → RouterState → Bool × RouterState
unfolding process
on_message env identifier protocol frame timestamp s =
    let (success, s') = process env identifier protocol frame timestamp s in
    (success, record_effect (received identifier protocol) s')
