-- ===== src/Router/Receiving/Exchange.antt =====
-- A call of a station and the answer that the modules give to it.
use Prim.Native.Char.{Char}
use text.Mathlib.TextLemmas.{nil-append, cons-append, cons≢nil}
use rexharge_citrineos_core.Prelude.{
  ◌∷◌, ℕ, String, ◌≡◌, refl, none, some, true, false, eq_iff, str_eq, ◌∙◌, ap, Bool-cases, inl, inr,
}
use rexharge_citrineos_core.Prelude.Text.{concat, colon_join, Lacks}
use rexharge_citrineos_core.Identifier.{create_identifier}
use rexharge_citrineos_core.Identifier.Parts.{
  get_tenant_id-create_identifier, get_station_id-create_identifier,
}
use rexharge_citrineos_core.Cache.Store.{Store, full_key, get_text, exists}
use rexharge_citrineos_core.Rpc.Value.{Value, remove_nulls}
use rexharge_citrineos_core.Rpc.Message.Known.{Lacks-map_to_call_action}
use rexharge_citrineos_core.Rpc.Message.{
  Protocol, ok, member, action_text, map_to_call_action, call_result_frame,
}
use rexharge_citrineos_core.Router.{Environment, RouterState, Message, request, value, routed}
use rexharge_citrineos_core.Router.Pending.{IsLine, cut-colon_join}
use rexharge_citrineos_core.Router.Sending.{tx, send_call_result}
use rexharge_citrineos_core.Router.Sending.Replies.{send_call_result_iff, send_call_result_gone}
use rexharge_citrineos_core.Router.Receiving.{
  on_call, on_call_is_allowed, validate_call, is_valid, call_failure, message_of,
}
use rexharge_citrineos_core.Router.Receiving.Calls.{on_call_confirmed}

str_eq-cons : (c : Char) (s : String) → str_eq (String.◌∷◌ c s) "" ≡ false
str_eq-cons c s = elim (Bool-cases (str_eq (String.◌∷◌ c s) "")) [
  | inl same ↦ absurd (cons≢nil ((eq_iff (String.◌∷◌ c s) "").0 same))
  | inr other ↦ other
]

colon_join-ne-nil : (s t : String) → str_eq (colon_join s t) "" ≡ false
colon_join-ne-nil String.[] t =
    ap (λ u. str_eq u "") (nil-append (concat ":" t) ∙ cons-append ":" "" t)
    ∙ str_eq-cons ":" (concat "" t)
colon_join-ne-nil (String.◌∷◌ c s) t =
    ap (λ u. str_eq u "") (cons-append c s (concat ":" t)) ∙ str_eq-cons c (concat s (concat ":" t))

-- An entry is never the empty text, so `get` finds it.
get-entry :
    (identifier action id : String) (cache : Store)
    → cache (full_key identifier tx) ≡ some (colon_join (action_text (member action)) id)
    → get_text identifier tx cache ≡ some (colon_join action id)
unfolding get_text action_text
get-entry identifier action id cache h = rw (h, colon_join-ne-nil action id) refl

module _ (env : Environment) (station : String) (tenant : ℕ) (protocol : Protocol)
    (id name action : String) (payload left reply : Value) (timestamp : String)
    (s later gone : RouterState) where
  -- the call as it is routed to the modules
  abbrev pub routed_call : Message
  routed_call =
      message_of request (create_identifier tenant station) id (member action) (value left)
        timestamp protocol

  -- Where a station, whose name holds no colon, sends a call of a known action that is allowed and valid,
  -- none is pending, the sender confirms it and its identifier is one line: the call is routed; and an
  -- answer with the identifier, the station, the tenant, the protocol and the action of the routed
  -- message, as long as the entry of the call has not expired in the cache or been changed, succeeds
  -- exactly if the network takes it. Once the entry is gone, the answer fails, and nothing is sent.
  pub on_call_answered :
      Lacks b':' station
      → IsLine id
      → map_to_call_action protocol name ≡ ok (member action)
      → on_call_is_allowed (member action) (create_identifier tenant station) s.cache ≡ true
      → validate_call env protocol name payload ≡ is_valid left
      → exists (create_identifier tenant station) tx s.cache ≡ false
      → call_failure id (env.send routed_call) ≡ none
      → later.cache (full_key (create_identifier tenant station) tx)
        ≡ (on_call env
              (create_identifier tenant station)
              protocol
              id
              name
              payload
              timestamp
              s).cache
            (full_key (create_identifier tenant station) tx)
      → gone.cache (full_key (create_identifier tenant station) tx) ≡ none
      → ((on_call env (create_identifier tenant station) protocol id name payload timestamp s).log
          ≡ routed routed_call ∷ s.log)
        × (routed_call.tenant_id ≡ some tenant)
        × ((send_call_result env routed_call.correlation_id routed_call.station_id tenant
              routed_call.protocol action reply later).0
            ≡ env.deliver
                (create_identifier tenant station)
                (remove_nulls (call_result_frame id reply)))
        × (send_call_result env routed_call.correlation_id routed_call.station_id tenant
              routed_call.protocol action reply gone
            ≡ (false, gone))
  unfolding message_of
  on_call_answered away one known allowed valid free sure kept expired =
      let (logged, pending) =
        on_call_confirmed env (create_identifier tenant station) protocol id name payload timestamp
          s (member action) left known allowed valid free sure in
      let cut_entry =
        cut-colon_join action id (Lacks-map_to_call_action protocol name action known) one in
      (
        logged,
        get_tenant_id-create_identifier tenant station,
        ap (λ st. (send_call_result env id st tenant protocol action reply later).0)
              (get_station_id-create_identifier tenant station away)
            ∙ send_call_result_iff env id station tenant protocol action reply later (record {
              entry = colon_join action id;
              found = get-entry (create_identifier tenant station) action id _ (kept ∙ pending);
              same_action = ap (λ c. c.0) cut_entry;
              same_id = ap (λ c. c.1) cut_entry;
            }),
        ap (λ st. send_call_result env id st tenant protocol action reply gone)
              (get_station_id-create_identifier tenant station away)
            ∙ send_call_result_gone env id station tenant protocol action reply gone expired,
      )
