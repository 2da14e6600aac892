-- ===== src/Router/Sending/Replies.antt =====
-- What sendCallResult and sendCallError do: they answer the pending call, and only that one.
use text.Mathlib.TextPositions.{eq_refl}
use rexharge_citrineos_core.Prelude.{
  ℕ, String, ◌≡◌, ◌≢◌, refl, Option, none, some, true, false, ◌∷◌, arith, eq_iff, is_some,
  Bool-cases, inl, inr, str_eq, ◌&&◌,
}
use rexharge_citrineos_core.Identifier.{create_identifier}
use rexharge_citrineos_core.Cache.Store.{get, Store, full_key, get_text, exists, remove_key}
use rexharge_citrineos_core.Rpc.Value.{Value, remove_nulls}
use rexharge_citrineos_core.Rpc.Message.{Protocol, OcppError, call_result_frame, as_call_error}
use rexharge_citrineos_core.Router.{Environment, RouterState, sent, send_message}
use rexharge_citrineos_core.Router.Pending.{cut}
use rexharge_citrineos_core.Router.Sending.{
  tx, is_text, is_text_iff, finish_call, send_call_result, send_call_result_for, send_call_error,
  send_call_error_to, send_call_error_for,
}

-- What holds after the frame was written to the network and the pending call removed.
pub record IsAnswered (identifier : String) (protocol : Protocol) (frame : Value)
    (s s' : RouterState) : Type 0 where
  pub is_free : exists identifier tx s'.cache ≡ false
  pub logged : s'.log ≡ sent identifier protocol (remove_nulls frame) ∷ s.log

-- The pending call of the connection has the identifier, and the action.
pub record IsPending (identifier action id : String) (s : RouterState) : Type 0 where
  pub entry : String
  pub found : get_text identifier tx s.cache ≡ some entry
  pub same_action : (cut entry).0 ≡ action
  pub same_id : (cut entry).1 ≡ some id

found_exists :
    (identifier entry : String) (cache : Store)
    → get_text identifier tx cache ≡ some entry
    → is_some (cache (full_key identifier tx)) ≡ true
unfolding get_text
found_exists identifier entry cache h = ground arith

module _ (env : Environment) (identifier : String) (protocol : Protocol) (frame : Value)
    (s : RouterState) where
  finish_call_writes :
      (finish_call env identifier protocol frame s).1.log ≢ s.log
      → IsAnswered identifier protocol frame s (finish_call env identifier protocol frame s).1
  unfolding finish_call send_message exists remove_key
  finish_call_writes h = ground (arith, eq_refl (full_key identifier tx))

  -- Where a call is pending, the answer succeeds exactly if the network takes it.
  pub finish_call_iff :
      is_some (s.cache (full_key identifier tx)) ≡ true
      → (finish_call env identifier protocol frame s).0
        ≡ env.deliver identifier (remove_nulls frame)
  unfolding finish_call send_message remove_key
  finish_call_iff h = ground arith

module _ (env : Environment) (identifier : String) (protocol : Protocol) (action : String)
    (payload : Value) (id : String) (s : RouterState) where
  result_for_writes :
      (o : Option String)
      → get_text identifier tx s.cache ≡ o
      → (send_call_result_for env identifier protocol action payload id o s).1.log ≢ s.log
      → IsPending identifier action id s
        × IsAnswered identifier protocol
            (call_result_frame id payload)
            s
            (send_call_result_for env identifier protocol action payload id o s).1
  unfolding send_call_result_for
  result_for_writes none e h = absurd (h refl)
  result_for_writes (some entry) e h =
      elim (Bool-cases (str_eq (cut entry).0 action && is_text (cut entry).1 id)) [
        | inl same ↦ ground (
          arith,
          eq_iff (cut entry).0 action,
          is_text_iff (cut entry).1 id,
          finish_call_writes env identifier protocol (call_result_frame id payload) s,
        )
        | inr other ↦ ground arith
      ]

  result_for_iff :
      (p : IsPending identifier action id s)
      → (send_call_result_for env identifier protocol action payload id
          (get_text identifier tx s.cache)
          s).0
        ≡ env.deliver identifier (remove_nulls (call_result_frame id payload))
  unfolding send_call_result_for
  result_for_iff p = ground (
    arith,
    eq_iff (cut p.entry).0 action,
    is_text_iff (cut p.entry).1 id,
    found_exists identifier p.entry s.cache,
    finish_call_iff env identifier protocol (call_result_frame id payload) s,
    p.found,
    p.same_action,
    p.same_id,
  )

module _ (env : Environment) (identifier : String) (protocol : Protocol) (e : OcppError)
    (id : String) (s : RouterState) where
  error_for_writes :
      (o : Option String)
      → get_text identifier tx s.cache ≡ o
      → (send_call_error_for env identifier protocol e id o s).1.log ≢ s.log
      → ((entry : String) × (get_text identifier tx s.cache ≡ some entry)
          × ((cut entry).1 ≡ some id))
        × IsAnswered identifier protocol
            (as_call_error e)
            s
            (send_call_error_for env identifier protocol e id o s).1
  unfolding send_call_error_for
  error_for_writes none q h = absurd (h refl)
  error_for_writes (some entry) q h = elim (Bool-cases (is_text (cut entry).1 id)) [
    | inl same ↦ ground (
      arith,
      is_text_iff (cut entry).1 id,
      finish_call_writes env identifier protocol (as_call_error e) s,
    )
    | inr other ↦ ground arith
  ]

module _ (env : Environment) (id station : String) (tenant : ℕ) (protocol : Protocol) where
  -- sendCallResult writes something only if the pending call of the connection has this identifier and
  -- this action; then it writes the result's frame, without nulls, and nothing else, and no call is
  -- pending afterwards.
  send_call_result_writes :
      (action : String) (payload : Value) (s : RouterState)
      → (send_call_result env id station tenant protocol action payload s).1.log ≢ s.log
      → IsPending (create_identifier tenant station) action id s
        × IsAnswered
            (create_identifier tenant station)
            protocol
            (call_result_frame id payload)
            s
            (send_call_result env id station tenant protocol action payload s).1
  unfolding send_call_result
  send_call_result_writes action payload s h =
      result_for_writes env (create_identifier tenant station) protocol action payload id s _ refl h

  -- A result for the pending call, by identifier and action, succeeds exactly if the network takes its
  -- frame.
  pub send_call_result_iff :
      (action : String) (payload : Value) (s : RouterState)
      → IsPending (create_identifier tenant station) action id s
      → (send_call_result env id station tenant protocol action payload s).0
        ≡ env.deliver
            (create_identifier tenant station)
            (remove_nulls (call_result_frame id payload))
  unfolding send_call_result
  send_call_result_iff action payload s p =
      result_for_iff env (create_identifier tenant station) protocol action payload id s p

  -- sendCallError writes something only if the pending call of the connection has this identifier,
  -- whatever its action; then it writes the error's frame, without nulls, and nothing else, and no call
  -- is pending afterwards.
  send_call_error_writes :
      (e : OcppError) (s : RouterState)
      → (send_call_error env id station tenant protocol e s).1.log ≢ s.log
      → ((entry : String) × (get_text (create_identifier tenant station) tx s.cache ≡ some entry)
          × ((cut entry).1 ≡ some id))
        × IsAnswered
            (create_identifier tenant station)
            protocol
            (as_call_error e)
            s
            (send_call_error env id station tenant protocol e s).1
  unfolding send_call_error send_call_error_to
  send_call_error_writes e s h =
      error_for_writes env (create_identifier tenant station) protocol e id s _ refl h

-- Where no call is pending any more, a result is not sent.
pub send_call_result_gone :
    (env : Environment) (id station : String) (tenant : ℕ) (protocol : Protocol) (action : String)
    (payload : Value) (s : RouterState)
    → s.cache (full_key (create_identifier tenant station) tx) ≡ none
    → send_call_result env id station tenant protocol action payload s ≡ (false, s)
unfolding send_call_result send_call_result_for get_text get
send_call_result_gone env id station tenant protocol action payload s h = rw h refl
