-- ===== src/Router/Responses/Late.antt =====
-- What an answer does that belongs to no pending call.
use text.Mathlib.TextPositions.{eq_refl}
use rexharge_citrineos_core.Prelude.{
  String, ◌≡◌, ◌≢◌, refl, Option, none, some, false, ◌∷◌, arith, Bool-cases, inl, inr, remove,
}
use rexharge_citrineos_core.Cache.Store.{Store, full_key, get_text, exists, remove_key}
use rexharge_citrineos_core.Rpc.Value.{Value}
use rexharge_citrineos_core.Rpc.Message.{
  Protocol, ocpp2_0_1, OcppError, ok, CallAction, member, map_to_call_action,
}
use rexharge_citrineos_core.Router.{Environment, RouterState, response, value, routed}
use rexharge_citrineos_core.Router.Pending.{cut}
use rexharge_citrineos_core.Router.Sending.{tx, is_text, is_text_iff}
use rexharge_citrineos_core.Router.Receiving.{is_valid, has_schema, message_of}
use rexharge_citrineos_core.Router.Responses.{
  pending_action, take_pending, result_for, result_mapped, route_call_result, validate_call_result,
  on_call_result, error_for, on_call_error, call_result_schemas,
}

-- No pending call of the connection has this identifier.
unfoldable pub IsLate : String → String → Store → Type 0
IsLate identifier id cache =
    (entry : String) → get_text identifier tx cache ≡ some entry → (cut entry).1 ≢ some id

pending_action-none :
    (o : Option String) (id : String)
    → ((entry : String) → o ≡ some entry → (cut entry).1 ≢ some id)
    → pending_action o id ≡ none
unfolding pending_action
pending_action-none none id h = refl
pending_action-none (some entry) id h = elim (Bool-cases (is_text (cut entry).1 id)) [
  | inl same ↦ absurd (h entry refl ((is_text_iff (cut entry).1 id).0 same))
  | inr other ↦ rw other refl
]

module _ (env : Environment) (identifier : String) (protocol : Protocol) (timestamp : String)
    (s : RouterState) where
  -- A result that belongs to no pending call is dropped, and takes the pending call with it: nothing is
  -- routed or sent, no call of the connection is pending any more, and the rest of the cache is as it was.
  pub on_call_result_late :
      (id : String) (payload : Value)
      → IsLate identifier id s.cache
      → ((on_call_result env identifier protocol id payload timestamp s).log ≡ s.log)
        × (exists identifier tx
              (on_call_result env identifier protocol id payload timestamp s).cache
            ≡ false)
        × ((on_call_result env identifier protocol id payload timestamp s).cache
            ≡ remove (full_key identifier tx) s.cache)
  unfolding on_call_result result_for IsLate exists remove_key
  on_call_result_late id payload h =
      rw (pending_action-none _ id h) (refl, ground (arith, eq_refl (full_key identifier tx)), refl)

  -- An error that belongs to no pending call is dropped as well, and takes the pending call with it:
  -- no callback is called, and the connection's pending call is removed.
  on_call_error_late :
      (e : OcppError)
      → IsLate identifier e.message_id s.cache
      → on_call_error env identifier protocol e timestamp s ≡ take_pending identifier s
  unfolding on_call_error error_for IsLate
  on_call_error_late e h = rw (pending_action-none _ e.message_id h) refl

  -- A result of the pending call whose payload is valid is routed, once, and the call is no longer
  -- pending.
  on_call_result_routes :
      (id entry : String) (action : CallAction) (payload left : Value)
      → get_text identifier tx s.cache ≡ some entry
      → (cut entry).1 ≡ some id
      → map_to_call_action protocol (cut entry).0 ≡ ok action
      → validate_call_result env protocol action payload ≡ is_valid left
      → ((on_call_result env identifier protocol id payload timestamp s).log
          ≡ routed (message_of response identifier id action (value left) timestamp protocol)
            ∷ s.log)
        × (exists identifier tx
              (on_call_result env identifier protocol id payload timestamp s).cache
            ≡ false)
  unfolding on_call_result result_for result_mapped pending_action route_call_result exists
      remove_key
  on_call_result_routes id entry action payload left found same known valid =
      rw (found, (is_text_iff (cut entry).1 id).1 same, known, valid)
        (refl, ground (arith, eq_refl (full_key identifier tx)))

  result_for_lacks :
      (id action : String) (payload : Value) (s' : RouterState)
      → map_to_call_action protocol action ≡ ok (member action)
      → has_schema (call_result_schemas protocol) action ≡ false
      → result_for env identifier protocol id payload (some action) timestamp s' ≡ s'
  unfolding result_for result_mapped validate_call_result route_call_result
  result_for_lacks id action payload s' known lacks = rw (known, lacks) refl

  -- The result of a call with an action that has no schema for results is never routed, although the
  -- call is pending and is removed.
  on_call_result_lacks :
      (id entry : String) (payload : Value)
      → get_text identifier tx s.cache ≡ some entry
      → (cut entry).1 ≡ some id
      → map_to_call_action protocol (cut entry).0 ≡ ok (member (cut entry).0)
      → has_schema (call_result_schemas protocol) (cut entry).0 ≡ false
      → on_call_result env identifier protocol id payload timestamp s ≡ take_pending identifier s
  unfolding on_call_result pending_action
  on_call_result_lacks id entry payload found same known lacks =
      rw (found, (is_text_iff (cut entry).1 id).1 same)
        (result_for_lacks id (cut entry).0 payload (take_pending identifier s) known lacks)

-- Two actions of OCPP 2.0.1 that the router sends calls of have no schema for results.
pub get_display_messages_lacks :
    (has_schema (call_result_schemas ocpp2_0_1) "GetDisplayMessages" ≡ false)
    × (has_schema (call_result_schemas ocpp2_0_1) "PublishFirmware" ≡ false)
unfolding call_result_schemas has_schema
get_display_messages_lacks = (refl, refl)
