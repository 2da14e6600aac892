-- ===== src/Webhooks/Posts.antt =====
-- To whom the frames of a station are posted.
use rexharge_citrineos_core.Prelude.{
  ℕ, String, ◌≡◌, refl, ap, ◌∙◌, Option, none, some, true, List, [], ◌++◌, map, insert, remove,
  eq_refl,
}
use rexharge_citrineos_core.Identifier.{create_identifier}
use rexharge_citrineos_core.Rpc.Message.{Protocol, ok}
use rexharge_citrineos_core.Router.{charging_station}
use rexharge_citrineos_core.Webhooks.{
  World, Dispatcher, Subscription, Frame, message, chosen, load_subscriptions, post,
  register_loaded, after_load, register, deregister, passes_filter, message_posts, dispatch_message,
}

insert_found : {V : Type 0} (k : String) (v : V) (m : String → Option V) → insert k v m k ≡ some v
insert_found k v m = rw (eq_refl k) refl

remove_found : {V : Type 0} (k : String) (m : String → Option V) → remove k m k ≡ none
remove_found k m = rw (eq_refl k) refl

module _ (w : World) (tenant : ℕ) (station : String) where
  dispatched :
      (text timestamp : String) (protocol : Protocol) (frame : Frame) (e : Dispatcher)
      (o : Option (List Subscription))
      → w.commits ≡ true
      → e.on_message_callbacks (create_identifier tenant station) ≡ o
      → (dispatch_message w charging_station
          (create_identifier tenant station)
          text
          timestamp
          protocol
          frame
          e).posts
        ≡ e.posts ++ message_posts w charging_station text o
  unfolding dispatch_message
  dispatched text timestamp protocol frame e o c q =
      rw c (ap (λ x. e.posts ++ message_posts w charging_station text x) q)

  -- Once a station is registered, a frame from it that is stored is posted to those of its subscriptions
  -- that want messages and whose filter it passes, and to no others; once it is deregistered, to none.
  pub dispatch_message_posts :
      (d : Dispatcher) (text timestamp : String) (protocol : Protocol) (frame : Frame)
      (ss : List Subscription)
      → w.subscriptions tenant station ≡ ok ss
      → w.commits ≡ true
      → ((dispatch_message w charging_station
            (create_identifier tenant station)
            text
            timestamp
            protocol
            frame
            (register w tenant station d)).posts
          ≡ (register w tenant station d).posts
            ++ map (post (message charging_station text)) (
                chosen
                  (λ s. passes_filter w text s.message_regex_filter)
                  (chosen (λ s. s.on_message) ss)))
        × ((dispatch_message w charging_station
              (create_identifier tenant station)
              text
              timestamp
              protocol
              frame
              (deregister tenant station d)).posts
            ≡ (deregister tenant station d).posts ++ [])
  unfolding register after_load register_loaded load_subscriptions message_posts deregister
  dispatch_message_posts d text timestamp protocol frame ss h c = (
    dispatched text timestamp protocol frame (register w tenant station d)
        (some (chosen (λ s. s.on_message) ss)) c
        (ap
            (λ r.
              (after_load tenant station d r).on_message_callbacks
                (create_identifier tenant station))
            h
          ∙ insert_found (create_identifier tenant station) (chosen (λ s. s.on_message) ss)
              d.on_message_callbacks),
    dispatched text timestamp protocol frame (deregister tenant station d) none c
        (remove_found (create_identifier tenant station) d.on_message_callbacks),
  )
