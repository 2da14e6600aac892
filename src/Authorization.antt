-- ===== src/Authorization.antt =====
-- Tokens and who may charge: the stored authorization (00_Base/src/interfaces/dto/authorization.dto.ts),
-- its status in the two versions of OCPP (AuthorizationMapper.ts in 01_Data/src/layers/sequelize/mapper)
-- and the authorizers that a module asks in turn. Dates are milliseconds.
pub mod RealTime
pub mod Mapping
pub mod Chain
pub mod Tokens
pub mod Driver
pub mod IdTags
mod Tests
use rexharge_citrineos_core.Prelude.{
  ℕ, String, Option, none, some, Bool, true, false, List, [], ◌∷◌, ltb,
}
use rexharge_citrineos_core.Rpc.Message.{Result, ok, throw, plain}

-- AuthorizationStatusType, and AuthorizationStatusEnumType of OCPP 2.0.1 with the same members
pub data AuthorizationStatus : Type 0 where
  accepted blocked concurrent_tx expired invalid no_credit : AuthorizationStatus
  not_allowed_type_evse not_at_this_location not_at_this_time unknown : AuthorizationStatus

abbrev pub is_accepted : AuthorizationStatus → Bool
is_accepted accepted = true
is_accepted status = false

-- AuthorizationWhitelistType
pub data Whitelist : Type 0 where
  never allowed allowed_offline : Whitelist

-- Of IAuthorizationDto, what the code reads. The status may be missing; lists are missing or not.
pub record Authorization : Type 0 where
  pub id : ℕ
  pub id_token : String
  pub status : Option AuthorizationStatus
  pub cache_expiry : Option ℕ
  pub concurrent_transaction : Option Bool
  pub group_authorization_id : Option ℕ
  pub real_time_auth : Option Whitelist
  pub real_time_auth_url : Option String
  pub allowed_connector_types : Option (List String)
  pub disallowed_evse_id_prefixes : Option (List String)

-- `cacheExpiryDateTime && new Date() > new Date(cacheExpiryDateTime)`
abbrev pub is_past : Option ℕ → ℕ → Bool
is_past none now = false
is_past (some expiry) now = ltb expiry now

-- StartTransactionResponseStatus of OCPP 1.6, which has five of the members
pub data IdTagStatus : Type 0 where
  accepted blocked expired invalid concurrent_tx : IdTagStatus

-- toStartTransactionResponseStatus
unfoldable pub to_start_transaction_status : AuthorizationStatus → Result IdTagStatus
to_start_transaction_status AuthorizationStatus.accepted = ok IdTagStatus.accepted
to_start_transaction_status AuthorizationStatus.blocked = ok IdTagStatus.blocked
to_start_transaction_status AuthorizationStatus.concurrent_tx = ok IdTagStatus.concurrent_tx
to_start_transaction_status AuthorizationStatus.expired = ok IdTagStatus.expired
to_start_transaction_status AuthorizationStatus.invalid = ok IdTagStatus.invalid
to_start_transaction_status status = throw (plain "Unknown StartTransactionResponse status")

-- toIdTagInfoStatus, whose enum has no ConcurrentTx
unfoldable pub to_id_tag_info_status : AuthorizationStatus → Result IdTagStatus
to_id_tag_info_status AuthorizationStatus.accepted = ok IdTagStatus.accepted
to_id_tag_info_status AuthorizationStatus.blocked = ok IdTagStatus.blocked
to_id_tag_info_status AuthorizationStatus.expired = ok IdTagStatus.expired
to_id_tag_info_status AuthorizationStatus.invalid = ok IdTagStatus.invalid
to_id_tag_info_status status = throw (plain "Unknown IdTagInfoStatus status")
