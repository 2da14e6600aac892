-- ===== src/Authorization/IdTags.antt =====
-- Authorize of OCPP 1.6: _handleOCPP16Authorize in 03_Modules/EVDriver/src/module/module.ts.
use rexharge_citrineos_core.Prelude.{
  ℕ, zero, suc, String, ◌≡◌, ◌↔◌, ◌⊎◌, inl, inr, refl, subst, Option, none, some, Bool, true, false,
  List, [], ◌∷◌, All, arith, if◌then◌else◌,
}
use rexharge_citrineos_core.Rpc.Message.{Result, ok, throw}
use rexharge_citrineos_core.Authorization.{
  Authorization, AuthorizationStatus, IdTagStatus, is_accepted, is_past, to_id_tag_info_status,
}
use rexharge_citrineos_core.Authorization.Chain.{apply_authorizers, apply_authorizers_iff}
use rexharge_citrineos_core.Authorization.Tokens.{
  Service, IdTagInfo, id_tag_info, rejected, authorize_ocpp16_id_token,
}
use rexharge_citrineos_core.Authorization.Tokens.Accepted.{
  HasParent, PassesWithGroup, accepted_ocpp16_iff, only,
}

module _ (service : Service) (now : ℕ) where
  -- the status of the answer, once the expiry and the parent are in it
  unfoldable pub status_of_tag : Option AuthorizationStatus → IdTagStatus
  unfolding to_id_tag_info_status
  status_of_tag none = IdTagStatus.invalid
  status_of_tag (some s) = elim (to_id_tag_info_status s) [
    | ok t ↦ t
    | throw e ↦ IdTagStatus.invalid
  ]

  unfoldable pub check_expiry : Authorization → Option String → IdTagInfo
  unfolding status_of_tag
  check_expiry a parent =
      id_tag_info
        (if is_past a.cache_expiry now
          then IdTagStatus.expired
          else status_of_tag (apply_authorizers service.authorizers a))
        a.cache_expiry parent

  -- what the lookup of the group gives, with the `catch` around it
  unfoldable pub with_looked_up : Authorization → Result (Option String) → IdTagInfo
  with_looked_up a (ok parent) = check_expiry a parent
  with_looked_up a (throw e) = id_tag_info IdTagStatus.invalid a.cache_expiry none

  unfoldable pub look_up_group : Authorization → Option ℕ → IdTagInfo
  unfolding with_looked_up
  look_up_group a none = check_expiry a none
  look_up_group a (some zero) = check_expiry a none
  look_up_group a (some (suc id)) = with_looked_up a (service.token_of (suc id))

  unfoldable pub answer_authorization : Authorization → Option AuthorizationStatus → IdTagInfo
  unfolding look_up_group
  answer_authorization a none = rejected IdTagStatus.accepted
  answer_authorization a (some AuthorizationStatus.accepted) =
      look_up_group a a.group_authorization_id
  answer_authorization a (some s) = rejected IdTagStatus.invalid

  -- _handleOCPP16Authorize, given the authorizations that the token has
  unfoldable pub handle_ocpp16_authorize : Result (List Authorization) → IdTagInfo
  unfolding answer_authorization
  handle_ocpp16_authorize (throw e) = rejected IdTagStatus.invalid
  handle_ocpp16_authorize (ok []) = rejected IdTagStatus.invalid
  handle_ocpp16_authorize (ok (a ∷ [])) = answer_authorization a a.status
  handle_ocpp16_authorize (ok (a ∷ b ∷ rest)) = rejected IdTagStatus.invalid

  -- the authorization is allowed to charge at some time, with transactions that are active or without
  abbrev IsChargeable : Authorization → Type 0
  IsChargeable a =
      (a.status ≡ none)
      ⊎ ((a.status ≡ some AuthorizationStatus.accepted)
          × (is_past a.cache_expiry now ≡ false)
          × All (λ f. f a ≡ some AuthorizationStatus.accepted) service.authorizers
          × HasParent service a.group_authorization_id)

  tag_status_iff :
      (o : Option AuthorizationStatus)
      → (status_of_tag o ≡ IdTagStatus.accepted) ↔ (o ≡ some AuthorizationStatus.accepted)
  unfolding status_of_tag to_id_tag_info_status
  tag_status_iff none = (λ h. ground arith, λ h. ground arith)
  tag_status_iff (some AuthorizationStatus.accepted) = (λ h. refl, λ h. refl)
  tag_status_iff (some s) = (λ h. ground arith, λ h. ground arith)

  expiry_iff :
      (a : Authorization) (parent : Option String)
      → ((check_expiry a parent).status ≡ IdTagStatus.accepted) ↔ (
          (is_past a.cache_expiry now ≡ false)
          × (apply_authorizers service.authorizers a ≡ some AuthorizationStatus.accepted))
  unfolding check_expiry
  expiry_iff a parent =
      past_iff (is_past a.cache_expiry now) (apply_authorizers service.authorizers a)
    where
      past_iff :
          (past : Bool) (o : Option AuthorizationStatus)
          → ((if past then IdTagStatus.expired else status_of_tag o) ≡ IdTagStatus.accepted)
            ↔ ((past ≡ false) × (o ≡ some AuthorizationStatus.accepted))
      past_iff true o = (λ h. ground arith, λ h. ground arith)
      past_iff false o = (λ h. (refl, (tag_status_iff o).0 h), λ h. (tag_status_iff o).1 h.1)

  -- the authorization is not past, and every authorizer accepts it
  abbrev Checks : Authorization → Type 0
  Checks a =
      (is_past a.cache_expiry now ≡ false)
      × (apply_authorizers service.authorizers a ≡ some AuthorizationStatus.accepted)

  looked_up_iff :
      (a : Authorization) (r : Result (Option String))
      → ((with_looked_up a r).status ≡ IdTagStatus.accepted)
        ↔ (Checks a × ((parent : Option String) × (r ≡ ok parent)))
  unfolding with_looked_up
  looked_up_iff a (ok parent) =
      (λ h. ((expiry_iff a parent).0 h, (parent, refl)), λ h. (expiry_iff a parent).1 h.0)
  looked_up_iff a (throw e) = (λ h. ground arith, λ h. ground arith)

  group_tag_iff :
      (a : Authorization) (group : Option ℕ)
      → ((look_up_group a group).status ≡ IdTagStatus.accepted)
        ↔ (Checks a × HasParent service group)
  unfolding look_up_group
  group_tag_iff a none = (λ h. ((expiry_iff a none).0 h, tt), λ h. (expiry_iff a none).1 h.0)
  group_tag_iff a (some zero) = (λ h. ((expiry_iff a none).0 h, tt), λ h. (expiry_iff a none).1 h.0)
  group_tag_iff a (some (suc id)) = looked_up_iff a (service.token_of (suc id))

  answer_iff :
      (a : Authorization) (o : Option AuthorizationStatus)
      → a.status ≡ o
      → ((answer_authorization a o).status ≡ IdTagStatus.accepted) ↔ IsChargeable a
  unfolding answer_authorization
  answer_iff a none q = (λ h. inl q, λ h. refl)
  answer_iff a (some AuthorizationStatus.accepted) q = (
    λ h.
        let ((past, chain), parent) = (group_tag_iff a a.group_authorization_id).0 h in
        inr (q, past, ((apply_authorizers_iff service.authorizers a).0 chain).1, parent),
    λ h. elim h [
      | inl k ↦ ground arith
      | inr (k, past, all, parent) ↦
          (group_tag_iff a a.group_authorization_id).1
            ((past, (apply_authorizers_iff service.authorizers a).1 (q, all)), parent)
    ],
  )
  answer_iff a (some s) q =
      (λ h. ground arith, λ h. elim h [ inl k ↦ ground arith | inr k ↦ ground arith ])

  -- An Authorize of OCPP 1.6 is answered Accepted exactly if the token has one authorization, and that
  -- has no status, or is accepted, is not past its expiry, passes every authorizer, and its group, where
  -- it has one, can be read.
  pub handle_ocpp16_authorize_iff :
      (found : Result (List Authorization))
      → ((handle_ocpp16_authorize found).status ≡ IdTagStatus.accepted)
        ↔ ((a : Authorization) × (found ≡ ok (a ∷ [])) × IsChargeable a)
  unfolding handle_ocpp16_authorize
  handle_ocpp16_authorize_iff (throw e) = (λ h. ground arith, λ h. ground arith)
  handle_ocpp16_authorize_iff (ok []) = (λ h. ground arith, λ h. ground arith)
  handle_ocpp16_authorize_iff (ok (a ∷ [])) = (
    λ h. (a, refl, (answer_iff a a.status refl).0 h),
    λ (x, same, passes). (answer_iff a a.status refl).1 (subst IsChargeable (only same) passes),
  )
  handle_ocpp16_authorize_iff (ok (a ∷ b ∷ rest)) = (λ h. ground arith, λ h. ground arith)

  chargeable : (a : Authorization) → PassesWithGroup service now a → IsChargeable a
  chargeable a h = elim h [
    | inl k ↦ inl k
    | inr (q, past, busy, all, parent) ↦ inr (q, past, all, parent)
  ]

  -- A token with which OCPP 1.6 lets a transaction start is also accepted in an Authorize at the same
  -- time and with the same data.
  pub start→authorize :
      (found : Result (List Authorization))
      → (authorize_ocpp16_id_token service now found).status ≡ IdTagStatus.accepted
      → (handle_ocpp16_authorize found).status ≡ IdTagStatus.accepted
  start→authorize found h =
      let (a, same, passes) = (accepted_ocpp16_iff service now found).0 h in
      (handle_ocpp16_authorize_iff found).1 (a, same, chargeable a passes)

  -- A token whose one authorization is blocked, expired or anything else but accepted is answered
  -- Invalid, whatever the status.
  pub handle_ocpp16_authorize_forgets :
      (a : Authorization) (s : AuthorizationStatus)
      → a.status ≡ some s
      → is_accepted s ≡ false
      → handle_ocpp16_authorize (ok (a ∷ [])) ≡ rejected IdTagStatus.invalid
  unfolding handle_ocpp16_authorize answer_authorization
  handle_ocpp16_authorize_forgets a AuthorizationStatus.accepted q n = ground arith
  handle_ocpp16_authorize_forgets a s q n = rw q refl
