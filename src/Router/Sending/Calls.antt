-- ===== src/Router/Sending/Calls.antt =====
-- What sendCall does: at most one call at a time for a connection, and none that the boot forbids.
use text.Mathlib.TextPositions.{eq_refl}
use rexharge_citrineos_core.Prelude.{
  ℕ, String, ◌≡◌, ◌≢◌, refl, some, Bool, true, false, ◌∷◌, arith, eq_iff, is_some, Bool-cases, inl,
  inr, ◌↔◌,
}
use rexharge_citrineos_core.Prelude.Text.{colon_join}
use rexharge_citrineos_core.Identifier.{create_identifier}
use rexharge_citrineos_core.Cache.Store.{Store, full_key, get_text, exists, set_if_not_exist}
use rexharge_citrineos_core.Rpc.Value.{Value, remove_nulls}
use rexharge_citrineos_core.Rpc.Message.{
  Protocol, ocpp2_0_1, retry, Result, ok, throw, member, map_to_call_action, call_frame,
}
use rexharge_citrineos_core.Router.{Environment, RouterState, sent, send_message}
use rexharge_citrineos_core.Router.Sending.{
  tx, is_text, is_text_iff, boot_status, send_call_is_allowed, send_call, send_call_if,
  requested_message,
}

-- What holds after a call was written to the network.
pub record IsStarted (identifier : String) (protocol : Protocol) (action id : String)
    (payload : Value) (s s' : RouterState) : Type 0 where
  pub was_free : exists identifier tx s.cache ≡ false
  pub is_pending : s'.cache (full_key identifier tx) ≡ some (colon_join action id)
  pub logged :
      s'.log ≡ sent identifier protocol (remove_nulls (call_frame id action payload)) ∷ s.log

module _ (env : Environment) (protocol : Protocol) (action : String) (payload : Value) (id : String)
    (s : RouterState) where
  send_call_if_writes :
      (identifier : String) (allowed : Result Bool)
      → (send_call_if env identifier protocol action payload id allowed s).1.log ≢ s.log
      → (allowed ≡ ok true)
        × IsStarted identifier protocol action id payload s
            (send_call_if env identifier protocol action payload id allowed s).1
  unfolding send_call_if exists set_if_not_exist send_message
  send_call_if_writes identifier (ok true) h =
      elim (Bool-cases (is_some (s.cache (full_key identifier tx)))) [
        | inl busy ↦ ground (arith, eq_refl (full_key identifier tx))
        | inr free ↦ ground (arith, eq_refl (full_key identifier tx))
      ]
  send_call_if_writes identifier (ok false) h = absurd (h refl)
  send_call_if_writes identifier (throw e) h = absurd (h refl)

  -- A call that is allowed while another is pending.
  send_call_if_busy :
      (identifier : String)
      → exists identifier tx s.cache ≡ true
      → send_call_if env identifier protocol action payload id (ok true) s
        ≡ (throw (retry "Call already in progress"), s)
  unfolding send_call_if exists set_if_not_exist
  send_call_if_busy identifier h = ground arith

module _ (env : Environment) (station : String) (tenant : ℕ) (protocol : Protocol) (action : String)
    (payload : Value) (id : String) (s : RouterState) where
  -- A frame reaches the network, or anything else happens outside, only if the call is allowed and no
  -- call of the connection was pending; then it is this call's frame, without nulls, and nothing
  -- else, and this call is the one that is pending afterwards.
  pub send_call_writes :
      (send_call env station tenant protocol action payload id s).1.log ≢ s.log
      → (send_call_is_allowed (create_identifier tenant station) protocol action payload s.cache
          ≡ ok true)
        × IsStarted
            (create_identifier tenant station)
            protocol
            action
            id
            payload
            s
            (send_call env station tenant protocol action payload id s).1
  unfolding send_call
  send_call_writes h =
      send_call_if_writes env protocol action payload id s (create_identifier tenant station) _ h

  -- While a call of the connection is pending an allowed call is put off: sendCall throws the error
  -- that asks for another try, sends nothing and leaves the pending call as it is.
  send_call_busy :
      send_call_is_allowed (create_identifier tenant station) protocol action payload s.cache
        ≡ ok true
      → exists (create_identifier tenant station) tx s.cache ≡ true
      → send_call env station tenant protocol action payload id s
        ≡ (throw (retry "Call already in progress"), s)
  unfolding send_call
  send_call_busy allowed busy =
      rw allowed
        (send_call_if_busy env protocol action payload id s (create_identifier tenant station) busy)

  -- A call that is not allowed is answered with `success` false, and changes nothing.
  pub send_call_refused :
      send_call_is_allowed (create_identifier tenant station) protocol action payload s.cache
        ≡ ok false
      → send_call env station tenant protocol action payload id s ≡ (ok false, s)
  unfolding send_call send_call_if
  send_call_refused h = rw h refl

-- While the boot of a station with OCPP 2.0.1 is rejected, a call of a known action is allowed exactly
-- if it is a TriggerMessage that asks for BootNotification.
rejected_boot_iff :
    (identifier action : String) (payload : Value) (cache : Store)
    → is_text (get_text boot_status (some identifier) cache) "Rejected" ≡ true
    → map_to_call_action ocpp2_0_1 action ≡ ok (member action)
    → (send_call_is_allowed identifier ocpp2_0_1 action payload cache ≡ ok true)
      ↔ ((action ≡ "TriggerMessage") × (requested_message payload ≡ some "BootNotification"))
unfolding send_call_is_allowed
rejected_boot_iff identifier action payload cache rejected known =
    rw (rejected, known)
      (ground (
        arith,
        eq_iff action "TriggerMessage",
        is_text_iff (requested_message payload) "BootNotification",
      ))
