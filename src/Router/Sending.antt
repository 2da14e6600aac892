-- ===== src/Router/Sending.antt =====
-- The frames that the router sends: sendCall, sendCallResult, sendCallError.
pub mod Calls
pub mod Replies
use rexharge_citrineos_core.Prelude.{
  ℕ, String, Option, none, some, Bool, true, false, ◌&&◌, not, str_eq, if◌then◌else◌, ◌≡◌, ◌↔◌,
  arith, eq_iff,
}
use rexharge_citrineos_core.Prelude.Text.{colon_join}
use rexharge_citrineos_core.Identifier.{create_identifier, namespace_text, transactions}
use rexharge_citrineos_core.Cache.Store.{Store, get_text, set_if_not_exist, remove_key}
use rexharge_citrineos_core.Rpc.Value.{Value, text, obj, Fields, end, field, remove_nulls}
use rexharge_citrineos_core.Rpc.Message.{
  Protocol, OcppError, Exception, retry, Result, ok, throw, CallAction, member, map_to_call_action,
  call_frame, call_result_frame, as_call_error,
}
use rexharge_citrineos_core.Router.{Environment, RouterState, send_message}
use rexharge_citrineos_core.Router.Pending.{cut}

-- The namespace of the pending calls.
abbrev pub tx : Option String
tx = some (namespace_text transactions)

abbrev pub boot_status : String
boot_status = "boot_status"

-- A text that is given, and is the one expected.
abbrev pub is_text : Option String → String → Bool
is_text none t = false
is_text (some s) t = str_eq s t

pub is_text_iff : (o : Option String) (t : String) → (is_text o t ≡ true) ↔ (o ≡ some t)
is_text_iff none t = ground arith
is_text_iff (some s) t = ground (arith, eq_iff s t)

-- payload.requestedMessage, where it is a text
requested_in : Fields → Option String
requested_in end = none
requested_in (field k (text t) fs) =
    let rest = requested_in fs in if str_eq k "requestedMessage" then some t else rest
requested_in (field k v fs) =
    let rest = requested_in fs in if str_eq k "requestedMessage" then none else rest

pub requested_message : Value → Option String
unfolding requested_in
requested_message (obj fs) = requested_in fs
requested_message v = none

is_trigger_of_boot : CallAction → Value → Bool
unfolding requested_message
is_trigger_of_boot (member action) payload =
    str_eq action "TriggerMessage" && is_text (requested_message payload) "BootNotification"
is_trigger_of_boot action payload = false

allowed_of : Result CallAction → Value → Result Bool
unfolding is_trigger_of_boot
allowed_of (ok action) payload = ok (is_trigger_of_boot action payload)
allowed_of (throw e) payload = throw e

-- _sendCallIsAllowed: while the boot is rejected, only a trigger of BootNotification is
unfoldable pub send_call_is_allowed : String → Protocol → String → Value → Store → Result Bool
unfolding allowed_of
send_call_is_allowed identifier protocol action payload cache =
    if is_text (get_text boot_status (some identifier) cache) "Rejected"
    then allowed_of (map_to_call_action protocol action) payload
    else ok true

abbrev with_result {ℓ κ} : {A : Type ℓ} {S : Type κ} → A × S → Result A × S
with_result (a, s) = (ok a, s)

-- The rest of sendCall, after setIfNotExist.
start_call :
    Environment → String → Protocol → Value → Bool × Store → RouterState → Result Bool × RouterState
start_call env identifier protocol frame (true, cache) s =
    with_result
      (send_message env identifier protocol (remove_nulls frame) (record s { cache = cache }))
start_call env identifier protocol frame (false, cache) s =
    (throw (retry "Call already in progress"), s)

send_call_if :
    Environment
    → String
    → Protocol
    → String
    → Value
    → String
    → Result Bool
    → RouterState
    → Result Bool × RouterState
unfolding start_call
send_call_if env identifier protocol action payload correlation_id (ok true) s =
    start_call env identifier protocol (call_frame correlation_id action payload)
      (set_if_not_exist identifier (colon_join action correlation_id) tx s.cache) s
send_call_if env identifier protocol action payload correlation_id (ok false) s = (ok false, s)
send_call_if env identifier protocol action payload correlation_id (throw e) s = (throw e, s)

-- sendCall, whose entry of the pending call expires after maxCallLengthSeconds as well; the result is the
-- confirmation's `success`, or what is thrown
unfoldable pub send_call :
    Environment
    → String
    → ℕ
    → Protocol
    → String
    → Value
    → String
    → RouterState
    → Result Bool × RouterState
unfolding send_call_if
send_call env station_id tenant_id protocol action payload correlation_id s =
    let identifier = create_identifier tenant_id station_id in
    send_call_if env identifier protocol action payload correlation_id
      (send_call_is_allowed identifier protocol action payload s.cache) s

-- The frame is sent and the pending call removed; `success` is the conjunction.
unfoldable pub finish_call :
    Environment → String → Protocol → Value → RouterState → Bool × RouterState
finish_call env identifier protocol frame s =
    let (done, s') = send_message env identifier protocol (remove_nulls frame) s in
    let (removed, cache) = remove_key identifier tx s'.cache in
    (done && removed, record s' { cache = cache })

send_call_result_for :
    Environment
    → String
    → Protocol
    → String
    → Value
    → String
    → Option String
    → RouterState
    → Bool × RouterState
unfolding finish_call
send_call_result_for env identifier protocol action payload correlation_id none s = (false, s)
send_call_result_for env identifier protocol action payload correlation_id (some entry) s =
    if str_eq (cut entry).0 action && is_text (cut entry).1 correlation_id
    then finish_call env identifier protocol (call_result_frame correlation_id payload) s
    else (false, s)

unfoldable pub send_call_result :
    Environment → String → String → ℕ → Protocol → String → Value → RouterState → Bool × RouterState
unfolding send_call_result_for
send_call_result env correlation_id station_id tenant_id protocol action payload s =
    let identifier = create_identifier tenant_id station_id in
    send_call_result_for env identifier protocol action payload correlation_id
      (get_text identifier tx s.cache) s

unfoldable pub send_call_error_for :
    Environment
    → String
    → Protocol
    → OcppError
    → String
    → Option String
    → RouterState
    → Bool × RouterState
unfolding finish_call
send_call_error_for env identifier protocol e correlation_id none s = (false, s)
send_call_error_for env identifier protocol e correlation_id (some entry) s =
    if is_text (cut entry).1 correlation_id
    then finish_call env identifier protocol (as_call_error e) s
    else (false, s)

-- sendCallError, for the identifier that it makes
unfoldable pub send_call_error_to :
    Environment → String → String → Protocol → OcppError → RouterState → Bool × RouterState
unfolding send_call_error_for
send_call_error_to env identifier correlation_id protocol e s =
    send_call_error_for env identifier protocol e correlation_id (get_text identifier tx s.cache) s

unfoldable pub send_call_error :
    Environment → String → String → ℕ → Protocol → OcppError → RouterState → Bool × RouterState
send_call_error env correlation_id station_id tenant_id protocol e s =
    send_call_error_to env (create_identifier tenant_id station_id) correlation_id protocol e s
