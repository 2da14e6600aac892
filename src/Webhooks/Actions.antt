-- ===== src/Webhooks/Actions.antt =====
-- The action that an answer is stored with.
use rexharge_citrineos_core.Prelude.{
  ℕ, String, ◌≡◌, ◌∙◌, refl, ap, Option, none, some, true, false, ◌&&◌, ◌==◌, List, [], ◌∷◌, ◌++◌,
  All, arith, eq_refl, str_eq,
}
use rexharge_citrineos_core.Prelude.Text.{Lacks}
use rexharge_citrineos_core.Identifier.{create_identifier}
use rexharge_citrineos_core.Identifier.Parts.{
  get_tenant_id-create_identifier, get_station_id-create_identifier,
}
use rexharge_citrineos_core.Rpc.Message.{Protocol, ok, CallAction, map_to_call_action}
use rexharge_citrineos_core.Router.{MessageOrigin}
use rexharge_citrineos_core.Webhooks.{
  World, Dispatcher, Row, call, call_result, is_row, related_action, complete_row, action_of,
  save_frame, dispatch_message, known_action,
}

-- No row is one of the message.
abbrev pub IsFresh : Option ℕ → String → String → List Row → Type 0
IsFresh tenant station id rows = All (λ r. is_row tenant station id r ≡ false) rows

complete_fresh :
    (tenant : Option ℕ) (station id : String) (a : Option CallAction) (rows : List Row)
    → IsFresh tenant station id rows
    → complete_row tenant station id a rows ≡ rows
unfolding complete_row
complete_fresh tenant station id a [] h = refl
complete_fresh tenant station id a (r ∷ rs) (h, k) =
    rw h (ap (◌∷◌ r) (complete_fresh tenant station id a rs k))

related_fresh :
    (tenant : Option ℕ) (station id : String) (rows : List Row) (r : Row)
    → IsFresh tenant station id rows
    → is_row tenant station id r ≡ true
    → related_action tenant station id (rows ++ (r ∷ [])) ≡ r.action
related_fresh tenant station id [] r h k = rw k refl
related_fresh tenant station id (q ∷ qs) r (h, rest) k =
    rw h (related_fresh tenant station id qs r rest k)

-- the action of the last row
abbrev pub last_action : List Row → Option CallAction
last_action [] = none
last_action (r ∷ []) = r.action
last_action (r ∷ s ∷ rs) = last_action (s ∷ rs)

last_action-append : (rows : List Row) (r : Row) → last_action (rows ++ (r ∷ [])) ≡ r.action
last_action-append [] r = refl
last_action-append (q ∷ []) r = refl
last_action-append (q ∷ s ∷ rs) r = last_action-append (s ∷ rs) r

module _ (tenant : ℕ) (station id : String) (h : Lacks b':' station) where
  saved_call :
      (origin : MessageOrigin) (text timestamp action : String) (protocol : Protocol)
      (a : CallAction) (rows : List Row)
      → IsFresh (some tenant) station id rows
      → map_to_call_action protocol action ≡ ok a
      → related_action (some tenant) station id (
          save_frame origin
            (create_identifier tenant station)
            text
            timestamp
            protocol
            (call id action)
            rows)
        ≡ some a
  unfolding save_frame action_of
  saved_call origin text timestamp action protocol a rows fresh known =
      rw
        (
          get_tenant_id-create_identifier tenant station,
          get_station_id-create_identifier tenant station h,
          complete_fresh (some tenant) station id
              (known_action (map_to_call_action protocol action)) rows fresh,
        )
        (related_fresh (some tenant) station id rows _ fresh own_row ∙ ap known_action known)
    where
      own_row : (tenant == tenant && str_eq station station && str_eq id id) ≡ true
      own_row = rw (eq_refl station, eq_refl id) (ground arith)

  answered_action :
      (origin : MessageOrigin) (text timestamp : String) (protocol : Protocol) (rows : List Row)
      → last_action (
          save_frame origin
            (create_identifier tenant station)
            text
            timestamp
            protocol
            (call_result id)
            rows)
        ≡ related_action (some tenant) station id rows
  unfolding save_frame action_of
  answered_action origin text timestamp protocol rows =
      rw
        (
          get_tenant_id-create_identifier tenant station,
          get_station_id-create_identifier tenant station h,
        )
        (last_action-append rows _)

  -- Where a call with a known action is stored under an identifier that no row has, of the station or to
  -- it, its result is stored next with the action of the call.
  dispatch_message_action :
      (w : World) (d : Dispatcher) (origin origin' : MessageOrigin)
      (text text' timestamp timestamp' action : String) (protocol protocol' : Protocol)
      (a : CallAction)
      → w.commits ≡ true
      → IsFresh (some tenant) station id d.rows
      → map_to_call_action protocol action ≡ ok a
      → last_action
          (dispatch_message w origin'
            (create_identifier tenant station)
            text'
            timestamp'
            protocol'
            (call_result id)
            (dispatch_message w origin
              (create_identifier tenant station)
              text
              timestamp
              protocol
              (call id action)
              d)).rows
        ≡ some a
  unfolding dispatch_message
  dispatch_message_action w d origin origin' text text' timestamp timestamp' action protocol
        protocol' a c fresh known =
      rw c (
        answered_action origin' text' timestamp' protocol' (
          save_frame origin (create_identifier tenant station) text timestamp protocol
            (call id action) d.rows)
        ∙ saved_call origin text timestamp action protocol a d.rows fresh known)
