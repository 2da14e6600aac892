-- ===== src/Authorization/Mapping.antt =====
-- Statuses and types of tokens in OCPP 2.0.1 (01_Data/src/layers/sequelize/mapper/2.0.1/AuthorizationMapper.ts)
-- and in the stored authorizations.
use rexharge_citrineos_core.Prelude.{◌≡◌, refl, Option, none, some}
use rexharge_citrineos_core.Rpc.Message.{Result, ok, throw, plain}
use rexharge_citrineos_core.Authorization.{AuthorizationStatus}

-- AuthorizationStatusEnumType
pub data AuthorizationStatusEnum : Type 0 where
  accepted blocked concurrent_tx expired invalid no_credit : AuthorizationStatusEnum
  not_allowed_type_evse not_at_this_location not_at_this_time unknown : AuthorizationStatusEnum

-- IdTokenType, the types of stored tokens, among which is Other
pub data IdTokenType : Type 0 where
  central e_maid iso14443 iso15693 key_code local mac_address no_authorization other : IdTokenType

-- IdTokenEnumType
pub data IdTokenEnum : Type 0 where
  central e_maid iso14443 iso15693 key_code local mac_address no_authorization : IdTokenEnum

-- fromAuthorizationStatusType, which throws for a missing status
unfoldable pub from_authorization_status_type :
    Option AuthorizationStatus → Result AuthorizationStatusEnum
from_authorization_status_type none = throw (plain "Unknown authorization status")
from_authorization_status_type (some AuthorizationStatus.accepted) =
    ok AuthorizationStatusEnum.accepted
from_authorization_status_type (some AuthorizationStatus.blocked) =
    ok AuthorizationStatusEnum.blocked
from_authorization_status_type (some AuthorizationStatus.concurrent_tx) =
    ok AuthorizationStatusEnum.concurrent_tx
from_authorization_status_type (some AuthorizationStatus.expired) =
    ok AuthorizationStatusEnum.expired
from_authorization_status_type (some AuthorizationStatus.invalid) =
    ok AuthorizationStatusEnum.invalid
from_authorization_status_type (some AuthorizationStatus.no_credit) =
    ok AuthorizationStatusEnum.no_credit
from_authorization_status_type (some AuthorizationStatus.not_allowed_type_evse) =
    ok AuthorizationStatusEnum.not_allowed_type_evse
from_authorization_status_type (some AuthorizationStatus.not_at_this_location) =
    ok AuthorizationStatusEnum.not_at_this_location
from_authorization_status_type (some AuthorizationStatus.not_at_this_time) =
    ok AuthorizationStatusEnum.not_at_this_time
from_authorization_status_type (some AuthorizationStatus.unknown) =
    ok AuthorizationStatusEnum.unknown

unfoldable pub to_authorization_status_type : AuthorizationStatusEnum → AuthorizationStatus
to_authorization_status_type AuthorizationStatusEnum.accepted = AuthorizationStatus.accepted
to_authorization_status_type AuthorizationStatusEnum.blocked = AuthorizationStatus.blocked
to_authorization_status_type AuthorizationStatusEnum.concurrent_tx =
    AuthorizationStatus.concurrent_tx
to_authorization_status_type AuthorizationStatusEnum.expired = AuthorizationStatus.expired
to_authorization_status_type AuthorizationStatusEnum.invalid = AuthorizationStatus.invalid
to_authorization_status_type AuthorizationStatusEnum.no_credit = AuthorizationStatus.no_credit
to_authorization_status_type AuthorizationStatusEnum.not_allowed_type_evse =
    AuthorizationStatus.not_allowed_type_evse
to_authorization_status_type AuthorizationStatusEnum.not_at_this_location =
    AuthorizationStatus.not_at_this_location
to_authorization_status_type AuthorizationStatusEnum.not_at_this_time =
    AuthorizationStatus.not_at_this_time
to_authorization_status_type AuthorizationStatusEnum.unknown = AuthorizationStatus.unknown

unfoldable pub to_id_token_enum_type : IdTokenType → IdTokenEnum
to_id_token_enum_type IdTokenType.other = IdTokenEnum.central
to_id_token_enum_type IdTokenType.central = IdTokenEnum.central
to_id_token_enum_type IdTokenType.e_maid = IdTokenEnum.e_maid
to_id_token_enum_type IdTokenType.iso14443 = IdTokenEnum.iso14443
to_id_token_enum_type IdTokenType.iso15693 = IdTokenEnum.iso15693
to_id_token_enum_type IdTokenType.key_code = IdTokenEnum.key_code
to_id_token_enum_type IdTokenType.local = IdTokenEnum.local
to_id_token_enum_type IdTokenType.mac_address = IdTokenEnum.mac_address
to_id_token_enum_type IdTokenType.no_authorization = IdTokenEnum.no_authorization

unfoldable pub from_id_token_enum_type : IdTokenEnum → IdTokenType
from_id_token_enum_type IdTokenEnum.central = IdTokenType.central
from_id_token_enum_type IdTokenEnum.e_maid = IdTokenType.e_maid
from_id_token_enum_type IdTokenEnum.iso14443 = IdTokenType.iso14443
from_id_token_enum_type IdTokenEnum.iso15693 = IdTokenType.iso15693
from_id_token_enum_type IdTokenEnum.key_code = IdTokenType.key_code
from_id_token_enum_type IdTokenEnum.local = IdTokenType.local
from_id_token_enum_type IdTokenEnum.mac_address = IdTokenType.mac_address
from_id_token_enum_type IdTokenEnum.no_authorization = IdTokenType.no_authorization

pub status-round_trip :
    (s : AuthorizationStatusEnum)
    → from_authorization_status_type (some (to_authorization_status_type s)) ≡ ok s
unfolding from_authorization_status_type to_authorization_status_type
status-round_trip AuthorizationStatusEnum.accepted = refl
status-round_trip AuthorizationStatusEnum.blocked = refl
status-round_trip AuthorizationStatusEnum.concurrent_tx = refl
status-round_trip AuthorizationStatusEnum.expired = refl
status-round_trip AuthorizationStatusEnum.invalid = refl
status-round_trip AuthorizationStatusEnum.no_credit = refl
status-round_trip AuthorizationStatusEnum.not_allowed_type_evse = refl
status-round_trip AuthorizationStatusEnum.not_at_this_location = refl
status-round_trip AuthorizationStatusEnum.not_at_this_time = refl
status-round_trip AuthorizationStatusEnum.unknown = refl

pub type-round_trip : (t : IdTokenEnum) → to_id_token_enum_type (from_id_token_enum_type t) ≡ t
unfolding to_id_token_enum_type from_id_token_enum_type
type-round_trip IdTokenEnum.central = refl
type-round_trip IdTokenEnum.e_maid = refl
type-round_trip IdTokenEnum.iso14443 = refl
type-round_trip IdTokenEnum.iso15693 = refl
type-round_trip IdTokenEnum.key_code = refl
type-round_trip IdTokenEnum.local = refl
type-round_trip IdTokenEnum.mac_address = refl
type-round_trip IdTokenEnum.no_authorization = refl
