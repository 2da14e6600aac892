-- ===== src/Authorization/Tokens.antt =====
-- Tokens in transactions (03_Modules/Transactions/src/module/TransactionService.ts):
-- authorizeOcpp201IdToken and authorizeOcpp16IdToken.
pub mod Accepted
use rexharge_citrineos_core.Prelude.{
  ℕ, zero, suc, String, ◌≡◌, ◌↔◌, ◌⊎◌, inl, inr, refl, Option, none, some, Bool, true, false, ◌&&◌,
  List, [], ◌∷◌, All, ltb, arith, if◌then◌else◌,
}
use rexharge_citrineos_core.Rpc.Message.{Result, ok, throw, Exception}
use rexharge_citrineos_core.Authorization.{
  Authorization, AuthorizationStatus, IdTagStatus, is_past, to_start_transaction_status,
}
use rexharge_citrineos_core.Authorization.Mapping.{
  AuthorizationStatusEnum, from_authorization_status_type,
}
use rexharge_citrineos_core.Authorization.Chain.{Authorizer, apply_authorizers}

-- TransactionEventEnumType
pub data TransactionEvent : Type 0 where
  started updated ended : TransactionEvent

-- What the service has: its authorizers, and of the database the number of active transactions of an
-- authorization and the token of an authorization.
pub record Service : Type 0 where
  pub authorizers : List Authorizer
  pub active : ℕ → ℕ
  pub token_of : ℕ → Result (Option String)

-- Of IdTokenInfoType, the status and the expiry.
pub record IdTokenInfo : Type 0 where
  pub status : AuthorizationStatusEnum
  pub cache_expiry : Option ℕ

abbrev pub id_token_info : AuthorizationStatusEnum → Option ℕ → IdTokenInfo
id_token_info s expiry = record { status = s; cache_expiry = expiry }

-- idTagInfo
pub record IdTagInfo : Type 0 where
  pub status : IdTagStatus
  pub expiry_date : Option ℕ
  pub parent_id_tag : Option String

abbrev pub id_tag_info : IdTagStatus → Option ℕ → Option String → IdTagInfo
id_tag_info s expiry parent = record { status = s; expiry_date = expiry; parent_id_tag = parent }

abbrev pub rejected : IdTagStatus → IdTagInfo
rejected s = id_tag_info s none none

-- _hasConcurrentTransactions
abbrev pub has_concurrent_transactions : Service → ℕ → Bool
has_concurrent_transactions service id = ltb 0 (service.active id)

-- authorization.concurrentTransaction === true && eventType === Started
abbrev pub is_counted : Option Bool → TransactionEvent → Bool
is_counted (some true) started = true
is_counted (some true) updated = false
is_counted (some true) ended = false
is_counted (some false) event = false
is_counted none event = false

-- _mapAuthorizationDtoToIdTokenInfo
unfoldable pub info_of : Authorization → Result AuthorizationStatusEnum → Result IdTokenInfo
info_of a (throw e) = throw e
info_of a (ok s) = ok (id_token_info s a.cache_expiry)

-- the token of the group, where there is a group, and the `catch` for its lookup
unfoldable pub with_parent : Authorization → Result (Option String) → IdTagInfo
with_parent a (ok parent) = id_tag_info IdTagStatus.accepted a.cache_expiry parent
with_parent a (throw e) = id_tag_info IdTagStatus.invalid a.cache_expiry none

-- toStartTransactionResponseStatus of what the authorizers say, which a missing status makes throw
unfoldable pub chain_status : Option AuthorizationStatus → Result IdTagStatus
chain_status none = throw (Exception.plain "Unknown StartTransactionResponse status")
chain_status (some s) = to_start_transaction_status s

module _ (service : Service) (now : ℕ) where
  unfoldable pub check_info :
      TransactionEvent → Authorization → Result AuthorizationStatusEnum → Result IdTokenInfo
  unfolding info_of
  check_info event a (throw e) = throw e
  check_info event a (ok AuthorizationStatusEnum.accepted) =
      if is_past a.cache_expiry now
      then ok (id_token_info AuthorizationStatusEnum.invalid none)
      else if is_counted a.concurrent_transaction event && has_concurrent_transactions service a.id
      then ok (id_token_info AuthorizationStatusEnum.concurrent_tx none)
      else info_of a (from_authorization_status_type (apply_authorizers service.authorizers a))
  check_info event a (ok s) = ok (id_token_info s a.cache_expiry)

  unfoldable pub authorize_status :
      TransactionEvent → Authorization → Option AuthorizationStatus → Result IdTokenInfo
  unfolding check_info
  authorize_status event a none = ok (id_token_info AuthorizationStatusEnum.accepted none)
  authorize_status event a (some s) = check_info event a (from_authorization_status_type (some s))

  -- authorizeOcpp201IdToken, given the authorizations that the token has
  unfoldable pub authorize_ocpp201_id_token :
      TransactionEvent → Result (List Authorization) → Result IdTokenInfo
  unfolding authorize_status
  authorize_ocpp201_id_token event (throw e) = throw e
  authorize_ocpp201_id_token event (ok []) = ok (id_token_info AuthorizationStatusEnum.unknown none)
  authorize_ocpp201_id_token event (ok (a ∷ [])) = authorize_status event a a.status
  authorize_ocpp201_id_token event (ok (a ∷ b ∷ rest)) =
      ok (id_token_info AuthorizationStatusEnum.unknown none)

  unfoldable pub with_group : Authorization → Option ℕ → IdTagInfo
  unfolding with_parent
  with_group a none = id_tag_info IdTagStatus.accepted a.cache_expiry none
  with_group a (some zero) = id_tag_info IdTagStatus.accepted a.cache_expiry none
  with_group a (some (suc id)) = with_parent a (service.token_of (suc id))

  unfoldable pub after_authorizers : Authorization → Result IdTagStatus → IdTagInfo
  unfolding with_group
  after_authorizers a (throw e) = rejected IdTagStatus.invalid
  after_authorizers a (ok IdTagStatus.accepted) = with_group a a.group_authorization_id
  after_authorizers a (ok s) = rejected s

  unfoldable pub check_tag : Authorization → Result IdTagStatus → IdTagInfo
  unfolding after_authorizers chain_status
  check_tag a (throw e) = rejected IdTagStatus.invalid
  check_tag a (ok IdTagStatus.accepted) =
      if is_past a.cache_expiry now
      then rejected IdTagStatus.expired
      else if has_concurrent_transactions service a.id
      then rejected IdTagStatus.concurrent_tx
      else after_authorizers a (chain_status (apply_authorizers service.authorizers a))
  check_tag a (ok s) = rejected s

  unfoldable pub authorize_tag : Authorization → Option AuthorizationStatus → IdTagInfo
  unfolding check_tag
  authorize_tag a none = rejected IdTagStatus.accepted
  authorize_tag a (some s) = check_tag a (to_start_transaction_status s)

  -- authorizeOcpp16IdToken, given the authorizations that the token has
  unfoldable pub authorize_ocpp16_id_token : Result (List Authorization) → IdTagInfo
  unfolding authorize_tag
  authorize_ocpp16_id_token (throw e) = rejected IdTagStatus.invalid
  authorize_ocpp16_id_token (ok []) = rejected IdTagStatus.invalid
  authorize_ocpp16_id_token (ok (a ∷ [])) = authorize_tag a a.status
  authorize_ocpp16_id_token (ok (a ∷ b ∷ rest)) = rejected IdTagStatus.invalid
