-- ===== src/Router/Responses/Silence.antt =====
-- The handlers of answers send no frame.
use rexharge_citrineos_core.Prelude.{
  String, ◌≡◌, refl, Option, none, some, Bool, true, false, List, [], ◌∷◌,
}
use rexharge_citrineos_core.Rpc.Value.{Value}
use rexharge_citrineos_core.Rpc.Message.{Protocol, OcppError, Result, ok, throw, CallAction}
use rexharge_citrineos_core.Router.{
  Environment, RouterState, Effect, sent, routed, called_back, received, Message,
}
use rexharge_citrineos_core.Router.Receiving.{Validation, is_valid, is_invalid}
use rexharge_citrineos_core.Router.Responses.{
  on_call_result, on_call_error, result_for, result_mapped, route_call_result, error_for,
  route_call_error, api_callback,
}

-- The frames that were sent, the newest first.
unfoldable pub frames : List Effect → List (String × Value)
frames [] = []
frames (sent to protocol frame ∷ log) = (to, frame) ∷ frames log
frames (routed m ∷ log) = frames log
frames (called_back url m ∷ log) = frames log
frames (received from protocol ∷ log) = frames log

module _ (env : Environment) (identifier : String) (protocol : Protocol) (timestamp : String) where
  route_result_silent :
      (id : String) (action : CallAction) (v : Validation) (s : RouterState)
      → frames (route_call_result identifier protocol id action v timestamp s).log ≡ frames s.log
  unfolding route_call_result frames
  route_result_silent id action (is_valid payload) s = refl
  route_result_silent id action (is_invalid errors) s = refl

  result_mapped_silent :
      (id : String) (payload : Value) (r : Result CallAction) (s : RouterState)
      → frames (result_mapped env identifier protocol id payload r timestamp s).log ≡ frames s.log
  unfolding result_mapped
  result_mapped_silent id payload (throw e) s = refl
  result_mapped_silent id payload (ok action) s = route_result_silent id action _ s

  result_for_silent :
      (id : String) (payload : Value) (o : Option String) (s : RouterState)
      → frames (result_for env identifier protocol id payload o timestamp s).log ≡ frames s.log
  unfolding result_for
  result_for_silent id payload none s = refl
  result_for_silent id payload (some action) s = result_mapped_silent id payload _ s

  pub on_call_result_silent :
      (id : String) (payload : Value) (s : RouterState)
      → frames (on_call_result env identifier protocol id payload timestamp s).log ≡ frames s.log
  unfolding on_call_result
  on_call_result_silent id payload s = result_for_silent id payload _ _

  api_callback_silent :
      (token : Option Bool) (url : Option String) (m : Message) (s : RouterState)
      → frames (api_callback token url m s).log ≡ frames s.log
  unfolding api_callback frames
  api_callback_silent token none m s = refl
  api_callback_silent none (some url) m s = refl
  api_callback_silent (some true) (some url) m s = refl
  api_callback_silent (some false) (some url) m s = refl

  route_error_silent :
      (e : OcppError) (r : Result CallAction) (s : RouterState)
      → frames (route_call_error env identifier protocol e r timestamp s).log ≡ frames s.log
  unfolding route_call_error
  route_error_silent e (throw _) s = refl
  route_error_silent e (ok action) s = api_callback_silent env.token _ _ s

  error_for_silent :
      (e : OcppError) (o : Option String) (s : RouterState)
      → frames (error_for env identifier protocol e o timestamp s).log ≡ frames s.log
  unfolding error_for
  error_for_silent e none s = refl
  error_for_silent e (some action) s = route_error_silent e _ s

  pub on_call_error_silent :
      (e : OcppError) (s : RouterState)
      → frames (on_call_error env identifier protocol e timestamp s).log ≡ frames s.log
  unfolding on_call_error
  on_call_error_silent e s = error_for_silent e _ _
