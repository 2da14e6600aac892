-- ===== src/Router.antt =====
-- The OCPP router (03_Modules/OcppRouter/src/module/router.ts and its base class,
-- 00_Base/src/interfaces/router/AbstractRouter.ts): the state and what is around it. A handler runs to
-- its end before the next one starts; the store's entries may have any values when it starts.
pub mod Pending
pub mod Sending
pub mod Receiving
pub mod Responses
pub mod Incoming
mod Tests
use rexharge_citrineos_core.Prelude.{ℕ, String, Option, Bool, List, ◌∷◌}
use rexharge_citrineos_core.Cache.Store.{Store}
use rexharge_citrineos_core.Rpc.Value.{Value, remove_nulls}
use rexharge_citrineos_core.Rpc.Message.{Protocol, OcppError, Result, CallAction}
use rexharge_citrineos_core.Prelude.{true, false, if◌then◌else◌}

pub data MessageState : Type 0 where
  request response unknown : MessageState

pub data MessageOrigin : Type 0 where
  charging_station_management_system charging_station : MessageOrigin

pub data Payload : Type 0 where
  value : Value → Payload
  error : OcppError → Payload

-- IMessage with its context; the event group is always General here
pub record Message : Type 0 where
  pub origin : MessageOrigin
  pub action : CallAction
  pub station_id : String
  pub correlation_id : String
  pub tenant_id : Option ℕ
  pub timestamp : String
  pub state : MessageState
  pub protocol : Protocol
  pub payload : Payload

pub record Confirmation : Type 0 where
  pub success : Bool
  pub payload : Value

-- What a compiled schema says of a payload. It may change the payload in place: it drops unknown
-- properties, fills defaults in and coerces types.
pub record Checked : Type 0 where
  pub valid : Bool
  pub payload : Value
  pub errors : Value

-- What the router calls and does not implement: the network hook, which may fail to deliver, the
-- message sender, the compiled schemas, and the token provider, if one is configured.
pub record Environment : Type 0 where
  pub deliver : String → Value → Bool
  pub send : Message → Result Confirmation
  pub check_call : Protocol → String → Value → Checked
  pub check_call_result : Protocol → String → Value → Checked
  pub token : Option Bool

-- What the router does to the world: a frame that the network took, which the webhooks hear of; a
-- message given to the sender; a POST to the callback of a call; a received frame given to the webhooks.
pub data Effect : Type 0 where
  sent : String → Protocol → Value → Effect
  routed : Message → Effect
  called_back : String → Message → Effect
  received : String → Protocol → Effect

-- The newest effect stands first.
pub record RouterState : Type 0 where
  pub cache : Store
  pub log : List Effect

abbrev pub record_effect : Effect → RouterState → RouterState
record_effect e s = record s { log = e ∷ s.log }

-- _sendMessage
unfoldable pub send_message :
    Environment → String → Protocol → Value → RouterState → Bool × RouterState
send_message env identifier protocol frame s =
    if env.deliver identifier frame
    then (true, record_effect (sent identifier protocol frame) s)
    else (false, s)
