-- ===== src/Webhooks.antt =====
-- The subscriptions to the frames of a station: 03_Modules/OcppRouter/src/module/webhook.dispatcher.ts.
-- A callback is the subscription that it is made from, and a post is a request to its URL.
pub mod Posts
pub mod Actions
mod Tests
use rexharge_citrineos_core.Prelude.{
  ℕ, String, Option, none, some, Bool, true, false, not, map, ◌&&◌, ◌==◌, List, [], ◌∷◌, ◌++◌, Dict,
  empty, insert, remove, get_or, includes, is_some, str_eq, if◌then◌else◌,
}
use rexharge_citrineos_core.Identifier.{create_identifier, get_tenant_id, get_station_id}
use rexharge_citrineos_core.Rpc.Message.{
  Protocol, Result, ok, throw, CallAction, map_to_call_action,
}
use rexharge_citrineos_core.Router.{
  MessageOrigin, charging_station, charging_station_management_system,
}

-- Subscription
pub record Subscription : Type 0 where
  pub station_id : String
  pub url : String
  pub on_connect : Bool
  pub on_close : Bool
  pub on_message : Bool
  pub sent_message : Bool
  pub message_regex_filter : Option String

-- The event of a post, with the message where there is one.
pub data Event : Type 0 where
  connected closed : Event
  message : MessageOrigin → String → Event

pub record Post : Type 0 where
  pub url : String
  pub station_id : String
  pub event : Event

-- OCPPMessage, a row of the messages that went through; the tenant may be NaN.
pub record Row : Type 0 where
  pub tenant_id : Option ℕ
  pub station_id : String
  pub correlation_id : String
  pub origin : MessageOrigin
  pub protocol : Protocol
  pub action : Option CallAction
  pub text : String
  pub timestamp : String

-- What is read of a frame: its type, its identifier and the action of a call.
pub data Frame : Type 0 where
  call : String → String → Frame
  call_result call_error : String → Frame
  other_frame : String → Frame

-- Outside: the stored subscriptions, the regular expressions, none for one that is refused, and whether
-- a transaction of the database commits.
pub record World : Type 0 where
  pub subscriptions : ℕ → String → Result (List Subscription)
  pub matches : String → String → Option Bool
  pub commits : Bool
  pub uuid : String

-- The dispatcher with the rows of the database and the posts, the last one last.
pub record Dispatcher : Type 0 where
  pub identifiers : List String
  pub on_connection_callbacks : Dict (List Subscription)
  pub on_close_callbacks : Dict (List Subscription)
  pub on_message_callbacks : Dict (List Subscription)
  pub sent_message_callbacks : Dict (List Subscription)
  pub rows : List Row
  pub posts : List Post

abbrev pub chosen : (Subscription → Bool) → List Subscription → List Subscription
chosen p [] = []
chosen p (s ∷ ss) = let rest = chosen p ss in if p s then s ∷ rest else rest

-- _loadSubscriptionsForConnection, once the subscriptions are read
unfoldable pub load_subscriptions : ℕ → String → List Subscription → Dispatcher → Dispatcher
load_subscriptions tenant station ss d =
    let identifier = create_identifier tenant station in
    record d {
      on_connection_callbacks =
          insert identifier (chosen (λ s. s.on_connect) ss) d.on_connection_callbacks;
      on_close_callbacks = insert identifier (chosen (λ s. s.on_close) ss) d.on_close_callbacks;
      on_message_callbacks =
          insert identifier (chosen (λ s. s.on_message) ss) d.on_message_callbacks;
      sent_message_callbacks =
          insert identifier (chosen (λ s. s.sent_message) ss) d.sent_message_callbacks;
    }

abbrev pub post : Event → Subscription → Post
post event s = record { url = s.url; station_id = s.station_id; event = event }

-- the posts of the callbacks that a map has for an identifier
abbrev pub posts_to : Event → Option (List Subscription) → List Post
posts_to event none = []
posts_to event (some ss) = map (post event) ss

-- this._identifiers.add
abbrev pub add_identifier : String → List String → List String
add_identifier i is = if includes is i then is else is ++ (i ∷ [])

unfoldable pub register_loaded : String → Dispatcher → Dispatcher
register_loaded identifier d = record d {
  identifiers = add_identifier identifier d.identifiers;
  posts = d.posts ++ posts_to connected (d.on_connection_callbacks identifier);
}

unfoldable pub after_load : ℕ → String → Dispatcher → Result (List Subscription) → Dispatcher
unfolding load_subscriptions register_loaded
after_load tenant station d (throw e) = d
after_load tenant station d (ok ss) =
    register_loaded (create_identifier tenant station) (load_subscriptions tenant station ss d)

-- register
unfoldable pub register : World → ℕ → String → Dispatcher → Dispatcher
unfolding after_load
register w tenant station d = after_load tenant station d (w.subscriptions tenant station)

abbrev pub without : String → List String → List String
without i [] = []
without i (j ∷ is) = let rest = without i is in if str_eq i j then rest else j ∷ rest

-- deregister
unfoldable pub deregister : ℕ → String → Dispatcher → Dispatcher
deregister tenant station d =
    let identifier = create_identifier tenant station in
    record d {
      identifiers = without identifier d.identifiers;
      on_connection_callbacks = remove identifier d.on_connection_callbacks;
      on_close_callbacks = remove identifier d.on_close_callbacks;
      on_message_callbacks = remove identifier d.on_message_callbacks;
      sent_message_callbacks = remove identifier d.sent_message_callbacks;
      posts = d.posts ++ posts_to closed (d.on_close_callbacks identifier);
    }

-- !messageRegexFilter || new RegExp(messageRegexFilter).test(message)
unfoldable pub passes_filter : World → String → Option String → Bool
passes_filter w text none = true
passes_filter w text (some filter) =
    if str_eq filter "" then true else get_or (w.matches filter text) false

-- The posts of a message: a subscription whose filter is refused is left out.
unfoldable pub message_posts :
    World → MessageOrigin → String → Option (List Subscription) → List Post
unfolding passes_filter
message_posts w origin text none = []
message_posts w origin text (some ss) =
    map (post (message origin text)) (chosen (λ s. passes_filter w text s.message_regex_filter) ss)

-- where: { tenantId, stationId, correlationId }
abbrev pub same_tenant : Option ℕ → Option ℕ → Bool
same_tenant (some m) (some n) = m == n
same_tenant (some m) none = false
same_tenant none o = false

abbrev pub is_row : Option ℕ → String → String → Row → Bool
is_row tenant station id r =
    same_tenant tenant r.tenant_id && str_eq r.station_id station && str_eq r.correlation_id id

-- OCPPMessage.findOne, as the action of the row that it gives
abbrev pub related_action : Option ℕ → String → String → List Row → Option CallAction
related_action tenant station id [] = none
related_action tenant station id (r ∷ rs) =
    let rest = related_action tenant station id rs in
    if is_row tenant station id r then r.action else rest

-- relatedMessage.update, where the action was missing
unfoldable pub complete_row : Option ℕ → String → String → Option CallAction → List Row → List Row
complete_row tenant station id action [] = []
complete_row tenant station id action (r ∷ rs) =
    let rest = complete_row tenant station id action rs in
    if is_row tenant station id r
    then (if is_some r.action then r else record r { action = action }) ∷ rs
    else r ∷ rest

abbrev pub frame_id : Frame → String
frame_id (call id action) = id
frame_id (call_result id) = id
frame_id (call_error id) = id
frame_id (other_frame id) = id

abbrev pub known_action : Result CallAction → Option CallAction
known_action (ok a) = some a
known_action (throw e) = none

-- the action that a frame is stored with
unfoldable pub action_of : Protocol → Option ℕ → String → Frame → List Row → Option CallAction
action_of protocol tenant station (call id action) rows =
    known_action (map_to_call_action protocol action)
action_of protocol tenant station (call_result id) rows = related_action tenant station id rows
action_of protocol tenant station (call_error id) rows = related_action tenant station id rows
action_of protocol tenant station (other_frame id) rows = none

abbrev pub completed : Option ℕ → String → Frame → Option CallAction → List Row → List Row
completed tenant station (call id text) action rows = complete_row tenant station id action rows
completed tenant station (call_result id) action rows = rows
completed tenant station (call_error id) action rows = rows
completed tenant station (other_frame id) action rows = rows

-- What a frame leaves of the rows; the new one is the last.
unfoldable pub save_frame :
    MessageOrigin → String → String → String → Protocol → Frame → List Row → List Row
unfolding action_of complete_row
save_frame origin identifier text timestamp protocol frame rows =
    let tenant = get_tenant_id identifier in
    let station = get_station_id identifier in
    let action = action_of protocol tenant station frame rows in
    completed tenant station frame action rows
    ++ (record {
      tenant_id = tenant;
      station_id = station;
      correlation_id = frame_id frame;
      origin = origin;
      protocol = protocol;
      action = action;
      text = text;
      timestamp = timestamp;
    }
        ∷ [])

-- the callbacks for an origin
abbrev pub callbacks_of : MessageOrigin → Dispatcher → Dict (List Subscription)
callbacks_of charging_station d = d.on_message_callbacks
callbacks_of charging_station_management_system d = d.sent_message_callbacks

-- dispatchMessageReceived and dispatchMessageSent for a frame: what does not commit is not posted
unfoldable pub dispatch_message :
    World → MessageOrigin → String → String → String → Protocol → Frame → Dispatcher → Dispatcher
unfolding save_frame message_posts
dispatch_message w origin identifier text timestamp protocol frame d =
    if w.commits
    then record d {
      rows = save_frame origin identifier text timestamp protocol frame d.rows;
      posts = d.posts ++ message_posts w origin text (callbacks_of origin d identifier);
    }
    else d

abbrev pub unparsed_row : World → ℕ → String → String → String → Protocol → Row
unparsed_row w tenant station text timestamp protocol = record {
  tenant_id = some tenant;
  station_id = station;
  correlation_id = w.uuid;
  origin = charging_station;
  protocol = protocol;
  action = none;
  text = text;
  timestamp = timestamp;
}

-- _dispatchMessageReceivedUnparsed, which posts what it cannot store too
unfoldable pub dispatch_unparsed :
    World → ℕ → String → String → String → Protocol → Dispatcher → Dispatcher
unfolding message_posts
dispatch_unparsed w tenant station text timestamp protocol d = record d {
  rows =
      if w.commits
      then d.rows ++ (unparsed_row w tenant station text timestamp protocol ∷ [])
      else d.rows;
  posts =
      d.posts
      ++ message_posts w charging_station text
          (d.on_message_callbacks (create_identifier tenant station));
}

-- An identifier whose tenant is no number is left out; no station is registered under one.
refresh_one : World → String → Option ℕ → Dispatcher → Dispatcher
refresh_one w station none d = d
refresh_one w station (some tenant) d = elim (w.subscriptions tenant station) [
  | throw e ↦ d
  | ok ss ↦ load_subscriptions tenant station ss d
]

-- _refreshSubscriptions, in the order of the identifiers
unfoldable pub refresh_subscriptions : World → List String → Dispatcher → Dispatcher
unfolding refresh_one
refresh_subscriptions w [] d = d
refresh_subscriptions w (i ∷ is) d =
    refresh_subscriptions w is (refresh_one w (get_station_id i) (get_tenant_id i) d)
