-- ===== src/Dispatch/Answers.antt =====
-- What becomes of the answer to a call.
use rexharge_citrineos_core.Prelude.{
  String, ◌≡◌, ◌∙◌, refl, ap, ap₂, some, none, true, [], ◌∷◌, ◌++◌, eq_refl,
}
use rexharge_citrineos_core.Cache.Store.{Store, get, get_text, set, truthy, full_key}
use rexharge_citrineos_core.Rpc.Message.{Protocol}
use rexharge_citrineos_core.Router.{Message, response}
use rexharge_citrineos_core.Dispatch.{
  Module, CallRequest, posted, callback_namespace, find_handler, ran, before_handling,
  handle_message_api_callback, answer_outcome, handle, handle_in, post_to, store_callback,
  send_call,
}

-- where the answer to a call looks for the URL
abbrev pub callback_key : CallRequest → String
callback_key r = full_key r.message.correlation_id (some (callback_namespace r.message.station_id))

-- A call is sent with a URL, and its answer comes in a later state of the cache. If the write of the URL
-- took place, and the entry has not expired or been changed since, the answer is posted to that URL,
-- before its handler runs, whether the call went out or not, and no error is sent for it, whatever the
-- handler throws. Where the entry is gone, the handler runs as well, and nothing is posted.
pub handle-send_call :
    (self : Module) (protocol_of : String → Protocol) (r : CallRequest) (m : Message) (url : String)
    (s kept gone : Store)
    → truthy r.callback_url ≡ some url
    → truthy (some url) ≡ some url
    → m.state ≡ response
    → m.correlation_id ≡ r.message.correlation_id
    → m.station_id ≡ r.message.station_id
    → kept (callback_key r) ≡ (send_call protocol_of true r s).1 (callback_key r)
    → gone (callback_key r) ≡ none
    → ((handle self m kept).0 ≡ posted url m.payload ∷ (ran m (find_handler self.handlers m) ++ []))
      × ((handle self m gone).0 ≡ ran m (find_handler self.handlers m) ++ [])
unfolding handle handle_in before_handling handle_message_api_callback answer_outcome send_call
    store_callback get_text get set
handle-send_call self protocol_of r m url s kept gone given whole state id station same absent =
    let later : (t : Store)
        → (handle self m t).0
          ≡ post_to (truthy (t (callback_key r))) m.payload
            ++ (ran m (find_handler self.handlers m) ++ []) =
      λ t.
        ap (λ st. (handle_in self st m t).0) state
        ∙ ap (λ o. post_to o m.payload ++ (ran m (find_handler self.handlers m) ++ []))
            (ap₂ (λ i n. get_text i (some (callback_namespace n)) t) id station) in
    let found : (send_call protocol_of true r s).1 (callback_key r) ≡ some url =
      rw given (rw (eq_refl (callback_key r)) refl) in
    (
      later kept
          ∙ ap (λ o. post_to (truthy o) m.payload ++ (ran m (find_handler self.handlers m) ++ []))
              (same ∙ found)
          ∙ ap (λ o. post_to o m.payload ++ (ran m (find_handler self.handlers m) ++ [])) whole,
      later gone
          ∙ ap (λ o. post_to (truthy o) m.payload ++ (ran m (find_handler self.handlers m) ++ []))
              absent,
    )
