-- ===== src/Router/Receiving/Calls.antt =====
-- What _onCall does with a call, on each of its ways.
use rexharge_citrineos_core.Prelude.{
  String, ◌≡◌, refl, Option, none, some, true, false, ◌∷◌, arith, eq_refl, is_some, Bool-cases,
  Option-cases, inl, inr, ◌⊎◌,
}
use rexharge_citrineos_core.Prelude.Text.{concat, colon_join}
use rexharge_citrineos_core.Identifier.{get_tenant_id, get_station_id}
use rexharge_citrineos_core.Cache.Store.{Store, full_key, exists, set_if_not_exist, remove_key}
use rexharge_citrineos_core.Rpc.Value.{Value, remove_nulls}
use rexharge_citrineos_core.Rpc.Message.{
  Protocol, OcppError, Exception, Result, ok, throw, CallAction, action_text, map_to_call_action,
  as_call_error, rpc_framework_error, security_error, call_error_frame,
}
use rexharge_citrineos_core.Router.{
  Environment, RouterState, Message, request, value, sent, routed, send_message,
}
use rexharge_citrineos_core.Router.Sending.{
  tx, is_text, finish_call, send_call_error_for, send_call_error_to,
}
use rexharge_citrineos_core.Router.Pending.{cut}
use rexharge_citrineos_core.Router.Receiving.{
  Accepted, Validation, is_valid, is_invalid, accept, accept_valid, accept_mapped, claim,
  validate_call, on_call_is_allowed, on_call, on_call_for, refusal, empty_object, message_of,
  call_failure, route_call, abandon, rebuild,
}

-- Why a call is let in, and how: it is known, allowed and valid, and no other is pending; then it is
-- the one that is pending.
pub record IsLetIn (env : Environment) (identifier : String) (protocol : Protocol)
    (id name : String) (payload : Value) (cache : Store) (a : Accepted) : Type 0 where
  pub is_known : map_to_call_action protocol name ≡ ok a.action
  pub is_allowed : on_call_is_allowed a.action identifier cache ≡ true
  pub has_valid : validate_call env protocol name payload ≡ is_valid a.payload
  pub was_free : exists identifier tx cache ≡ false
  pub is_pending : a.cache (full_key identifier tx) ≡ some (colon_join (action_text a.action) id)

module _ (env : Environment) (identifier : String) (protocol : Protocol) (id name : String)
    (payload : Value) (cache : Store) where
  data Clearance : Result Accepted → Type 0 where
    let_in :
        (a : Accepted) → IsLetIn env identifier protocol id name payload cache a → Clearance (ok a)
    kept_out : (e : Exception) → Clearance (throw e)

  accept_valid_cases :
      (action : CallAction) (v : Validation)
      → map_to_call_action protocol name ≡ ok action
      → on_call_is_allowed action identifier cache ≡ true
      → validate_call env protocol name payload ≡ v
      → Clearance (accept_valid identifier id action v cache)
  unfolding accept_valid claim set_if_not_exist exists
  accept_valid_cases action (is_invalid errors) known allowed valid = kept_out _
  accept_valid_cases action (is_valid left) known allowed valid =
      elim (Bool-cases (is_some (cache (full_key identifier tx)))) [
        | inl busy ↦ rw busy (kept_out _)
        | inr free ↦ rw free (
            let_in _ (record {
              is_known = known;
              is_allowed = allowed;
              has_valid = valid;
              was_free = free;
              is_pending = ground (arith, eq_refl (full_key identifier tx));
            }))
      ]

  accept_mapped_cases :
      (r : Result CallAction)
      → map_to_call_action protocol name ≡ r
      → Clearance (accept_mapped env identifier protocol id name payload r cache)
  unfolding accept_mapped
  accept_mapped_cases (throw e) known = kept_out e
  accept_mapped_cases (ok action) known =
      elim (Bool-cases (on_call_is_allowed action identifier cache)) [
        | inl allowed ↦ rw allowed (accept_valid_cases action _ known allowed refl)
        | inr forbidden ↦ rw forbidden (kept_out _)
      ]

  accept_cases : Clearance (accept env identifier protocol id name payload cache)
  unfolding accept
  accept_cases = accept_mapped_cases _ refl

-- The message that a call is routed as.
abbrev pub routed_as : String → Protocol → String → String → Accepted → Message
routed_as identifier protocol id timestamp a =
    message_of request identifier id a.action (value a.payload) timestamp protocol

module _ (env : Environment) (identifier : String) (protocol : Protocol) (id name : String)
    (payload : Value) (timestamp : String) where
  -- The three ways of a call: refused, and nothing but an error frame leaves; routed and confirmed, and
  -- pending from then on; or routed and failed, and not pending, with at most an error frame after it.
  pub data Outcome (s s' : RouterState) : Type 0 where
    refused :
        s'.cache ≡ s.cache
        → (s'.log ≡ s.log) ⊎ ((frame : Value) × (s'.log ≡ sent identifier protocol frame ∷ s.log))
        → Outcome s s'
    confirmed :
        (a : Accepted)
        → IsLetIn env identifier protocol id name payload s.cache a
        → call_failure id (env.send (routed_as identifier protocol id timestamp a)) ≡ none
        → s'.cache ≡ a.cache
        → s'.log ≡ routed (routed_as identifier protocol id timestamp a) ∷ s.log
        → Outcome s s'
    failed :
        (a : Accepted) (e : OcppError)
        → IsLetIn env identifier protocol id name payload s.cache a
        → call_failure id (env.send (routed_as identifier protocol id timestamp a)) ≡ some e
        → exists identifier tx s'.cache ≡ false
        → (s'.log ≡ routed (routed_as identifier protocol id timestamp a) ∷ s.log)
          ⊎ ((to : String) × ((frame : Value) × (s'.log
                  ≡ sent to protocol frame
                    ∷ routed (routed_as identifier protocol id timestamp a)
                    ∷ s.log)))
        → Outcome s s'

module _ (env : Environment) (protocol : Protocol) where
  frame_of_error :
      (to : String) (frame : Value) (s : RouterState)
      → ((send_message env to protocol frame s).1.log ≡ s.log)
        ⊎ ((send_message env to protocol frame s).1.log ≡ sent to protocol frame ∷ s.log)
  unfolding send_message
  frame_of_error to frame s = elim (Bool-cases (env.deliver to frame)) [
    | inl taken ↦ inr (rw taken refl)
    | inr lost ↦ inl (rw lost refl)
  ]

  send_message_cache :
      (to : String) (frame : Value) (s : RouterState)
      → (send_message env to protocol frame s).1.cache ≡ s.cache
  unfolding send_message
  send_message_cache to frame s = ground arith

  Quiet : RouterState → RouterState → Type 0
  Quiet s s' =
      (s'.log ≡ s.log)
      ⊎ ((to : String) × ((frame : Value) × (s'.log ≡ sent to protocol frame ∷ s.log)))

  finish_call-Quiet :
      (to : String) (frame : Value) (s : RouterState)
      → Quiet s (finish_call env to protocol frame s).1
  unfolding finish_call Quiet
  finish_call-Quiet to frame s = elim (frame_of_error to (remove_nulls frame) s) [
    | inl quiet ↦ inl quiet
    | inr told ↦ inr (to, (remove_nulls frame, told))
  ]

  error_for-Quiet :
      (to id : String) (e : OcppError) (o : Option String) (s : RouterState)
      → Quiet s (send_call_error_for env to protocol e id o s).1
  unfolding send_call_error_for Quiet
  error_for-Quiet to id e none s = inl refl
  error_for-Quiet to id e (some entry) s = elim (Bool-cases (is_text (cut entry).1 id)) [
    | inl same ↦ rw same (finish_call-Quiet to (as_call_error e) s)
    | inr other ↦ rw other (inl refl)
  ]

  abandon-Quiet :
      (identifier id : String) (e : OcppError) (s : RouterState)
      → Quiet s (abandon env identifier protocol id (some e) s)
  unfolding abandon send_call_error_to Quiet
  abandon-Quiet identifier id e s =
      error_for-Quiet (rebuild (get_tenant_id identifier) (get_station_id identifier)) id e _ s

  abandon_frees :
      (identifier id : String) (e : OcppError) (s : RouterState)
      → exists identifier tx (abandon env identifier protocol id (some e) s).cache ≡ false
  unfolding abandon exists remove_key
  abandon_frees identifier id e s = ground (arith, eq_refl (full_key identifier tx))

module _ (env : Environment) (identifier : String) (protocol : Protocol) (id name : String)
    (payload : Value) (timestamp : String) (s : RouterState) where
  kept_out-Outcome :
      (frame : Value)
      → Outcome env identifier protocol id name payload timestamp s
          (send_message env identifier protocol frame s).1
  kept_out-Outcome frame =
      refused (send_message_cache env protocol identifier frame s)
        (elim (frame_of_error env protocol identifier frame s) [
          | inl quiet ↦ inl quiet
          | inr told ↦ inr (frame, told)
        ])

  on_call_for-Outcome :
      {r : Result Accepted}
      → Clearance env identifier protocol id name payload s.cache r
      → Outcome env identifier protocol id name payload timestamp s
          (on_call_for env identifier protocol id timestamp r s)
  unfolding on_call_for route_call abandon
  on_call_for-Outcome (kept_out e) = kept_out-Outcome _
  on_call_for-Outcome (let_in a h) =
      elim (Option-cases
        (call_failure id (env.send (routed_as identifier protocol id timestamp a)))) [
          | inl fine ↦ confirmed a h fine (rw fine refl) (rw fine refl)
          | inr (e, bad) ↦
              failed a e h bad (rw bad (abandon_frees env protocol identifier id e _))
                (rw bad (unfold Quiet in abandon-Quiet env protocol identifier id e _))
        ]

  -- _onCall ends in one of these ways. Refused: the cache is as it was, and at most one frame was sent.
  -- Confirmed: the call was known, allowed and valid and no other was pending; it was routed once, and
  -- it is the one that is pending. Failed: the same, but the sender did not confirm it; then no call is
  -- pending, and at most one frame was sent after it.
  pub on_call-Outcome :
      Outcome env identifier protocol id name payload timestamp s
        (on_call env identifier protocol id name payload timestamp s)
  unfolding on_call
  on_call-Outcome =
      on_call_for-Outcome (accept_cases env identifier protocol id name payload s.cache)

  -- A call that is known, allowed and valid, while another is pending: one CallError with the code
  -- RpcFrameworkError is sent, if the network takes it, and nothing is routed; the other stays pending.
  on_call_busy :
      (action : CallAction) (left : Value)
      → map_to_call_action protocol name ≡ ok action
      → on_call_is_allowed action identifier s.cache ≡ true
      → validate_call env protocol name payload ≡ is_valid left
      → exists identifier tx s.cache ≡ true
      → on_call env identifier protocol id name payload timestamp s
        ≡ (send_message env identifier protocol
            (remove_nulls
              (call_error_frame id rpc_framework_error "Call already in progress" empty_object))
            s).1
  unfolding on_call accept accept_mapped accept_valid set_if_not_exist claim on_call_for refusal
      as_call_error exists
  on_call_busy action left known allowed valid busy = rw (known, allowed, valid, busy) refl

  -- A call of a known action that is on the connection's list in the cache is refused: one CallError
  -- with the code SecurityError is sent, if the network takes it, and nothing else happens.
  on_call_forbidden :
      (action : CallAction)
      → map_to_call_action protocol name ≡ ok action
      → exists (action_text action) (some identifier) s.cache ≡ true
      → on_call env identifier protocol id name payload timestamp s
        ≡ (send_message env identifier protocol
            (remove_nulls (
              call_error_frame id security_error
                (concat "Action " (concat (action_text action) " not allowed"))
                empty_object))
            s).1
  unfolding on_call accept accept_mapped on_call_is_allowed on_call_for refusal as_call_error
  on_call_forbidden action known listed = rw (known, listed) refl

  -- A call that is known, allowed and valid, while none is pending, and that the sender confirms, is
  -- the one that is pending, and it is routed.
  pub on_call_confirmed :
      (action : CallAction) (left : Value)
      → map_to_call_action protocol name ≡ ok action
      → on_call_is_allowed action identifier s.cache ≡ true
      → validate_call env protocol name payload ≡ is_valid left
      → exists identifier tx s.cache ≡ false
      → call_failure id
          (env.send (message_of request identifier id action (value left) timestamp protocol))
        ≡ none
      → ((on_call env identifier protocol id name payload timestamp s).log
          ≡ routed (message_of request identifier id action (value left) timestamp protocol)
            ∷ s.log)
        × ((on_call env identifier protocol id name payload timestamp s).cache
              (full_key identifier tx)
            ≡ some (colon_join (action_text action) id))
  unfolding on_call accept accept_mapped accept_valid set_if_not_exist claim on_call_for route_call
      abandon exists
  on_call_confirmed action left known allowed valid free sure =
      rw (known, allowed, valid, free, sure)
        (refl, ground (arith, eq_refl (full_key identifier tx)))
