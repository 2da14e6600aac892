-- ===== src/Router/Incoming/Answers.antt =====
-- What onMessage says to a station, and to its caller.
use rexharge_citrineos_core.Prelude.{String, ◌≡◌, refl, true, false, ◌∷◌}
use rexharge_citrineos_core.Rpc.Value.{remove_nulls}
use rexharge_citrineos_core.Rpc.Message.{Protocol}
use rexharge_citrineos_core.Router.{Environment, RouterState, sent, received, send_message}
use rexharge_citrineos_core.Router.Responses.Silence.{
  frames, on_call_result_silent, on_call_error_silent,
}
use rexharge_citrineos_core.Router.Incoming.{
  Frame, unreadable, call, call_result, call_error, other, process, on_message, answer,
  unreadable_answer,
}

-- A frame that is an answer of the station.
unfoldable pub IsReply : Frame → Type 0
IsReply (call_result id payload) = Unit
IsReply (call_error e) = Unit
IsReply f = ⊥

module _ (env : Environment) (identifier : String) (protocol : Protocol) (timestamp : String)
    (s : RouterState) where
  -- An answer of a station, a CallResult or a CallError, is never answered: onMessage sends no frame to
  -- anyone, whatever the answer holds, and reports it as processed.
  pub on_message_reply :
      (frame : Frame)
      → IsReply frame
      → (frames (on_message env identifier protocol frame timestamp s).1.log ≡ frames s.log)
        × ((on_message env identifier protocol frame timestamp s).0 ≡ true)
  unfolding on_message process frames IsReply
  on_message_reply unreadable h = elim h [ ]
  on_message_reply (call _ _ _) h = elim h [ ]
  on_message_reply (other _ _) h = elim h [ ]
  on_message_reply (call_result id payload) h =
      (on_call_result_silent env identifier protocol timestamp id payload s, refl)
  on_message_reply (call_error e) h =
      (on_call_error_silent env identifier protocol timestamp e s, refl)

  -- A text that is no frame is answered with one CallError for the identifier "-1", where the network
  -- takes it, changes nothing in the cache, and is reported as not processed.
  on_message_unreadable :
      env.deliver identifier (remove_nulls unreadable_answer) ≡ true
      → on_message env identifier protocol unreadable timestamp s ≡ (
        false,
        record s {
          log =
              received identifier protocol
              ∷ sent identifier protocol (remove_nulls unreadable_answer)
              ∷ s.log;
        },
      )
  unfolding on_message process answer send_message
  on_message_unreadable taken = rw taken refl
