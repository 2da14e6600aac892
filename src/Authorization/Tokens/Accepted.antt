-- ===== src/Authorization/Tokens/Accepted.antt =====
-- Which tokens may start or go on with a transaction.
use rexharge_citrineos_core.Prelude.{
  ℕ, zero, suc, String, ◌≡◌, ◌↔◌, ◌⊎◌, inl, inr, refl, subst, Option, none, some, Bool, true, false,
  ◌&&◌, List, [], ◌∷◌, All, arith, if◌then◌else◌,
}
use rexharge_citrineos_core.Rpc.Message.{Result, ok, throw}
use rexharge_citrineos_core.Authorization.{
  Authorization, AuthorizationStatus, IdTagStatus, is_past, to_start_transaction_status,
}
use rexharge_citrineos_core.Authorization.Mapping.{
  AuthorizationStatusEnum, from_authorization_status_type,
}
use rexharge_citrineos_core.Authorization.Chain.{apply_authorizers_iff}
use rexharge_citrineos_core.Authorization.Tokens.{
  Service, TransactionEvent, IdTokenInfo, IdTagInfo, id_token_info, rejected,
  has_concurrent_transactions, is_counted, info_of, check_info, authorize_status,
  authorize_ocpp201_id_token, with_parent, with_group, chain_status, after_authorizers, check_tag,
  authorize_tag, authorize_ocpp16_id_token,
}

-- the status in an answer
abbrev pub answered_status : Result IdTokenInfo → Option AuthorizationStatusEnum
answered_status (throw e) = none
answered_status (ok info) = some info.status

-- An authorization without a status, or one that is accepted, not past and not busy, and that every
-- authorizer accepts.
abbrev pub Passes : Service → ℕ → Bool → Authorization → Type 0
Passes service now busy a =
    (a.status ≡ none)
    ⊎ ((a.status ≡ some AuthorizationStatus.accepted)
        × (is_past a.cache_expiry now ≡ false)
        × (busy ≡ false)
        × All (λ f. f a ≡ some AuthorizationStatus.accepted) service.authorizers)

pub only : {a x : Authorization} → ok (a ∷ []) ≡ ok (x ∷ []) → x ≡ a
only same = cc same

info_iff :
    (a : Authorization) (r : Option AuthorizationStatus)
    → (answered_status (info_of a (from_authorization_status_type r))
        ≡ some AuthorizationStatusEnum.accepted)
      ↔ (r ≡ some AuthorizationStatus.accepted)
unfolding info_of from_authorization_status_type
info_iff a none = (λ h. ground arith, λ h. ground arith)
info_iff a (some AuthorizationStatus.accepted) = (λ h. refl, λ h. refl)
info_iff a (some s) = (λ h. ground arith, λ h. ground arith)

guards_iff :
    (past busy : Bool) (a : Authorization) (r : Option AuthorizationStatus)
    → (answered_status (
          if past
          then ok (id_token_info AuthorizationStatusEnum.invalid none)
          else if busy
          then ok (id_token_info AuthorizationStatusEnum.concurrent_tx none)
          else info_of a (from_authorization_status_type r))
        ≡ some AuthorizationStatusEnum.accepted)
      ↔ ((past ≡ false) × (busy ≡ false) × (r ≡ some AuthorizationStatus.accepted))
guards_iff true busy a r = (λ h. ground arith, λ h. ground arith)
guards_iff false true a r = (λ h. ground arith, λ h. ground arith)
guards_iff false false a r = (λ h. (refl, refl, (info_iff a r).0 h), λ h. (info_iff a r).1 h.2)

module _ (service : Service) (now : ℕ) (event : TransactionEvent) where
  abbrev busy_at : Authorization → Bool
  busy_at a = is_counted a.concurrent_transaction event && has_concurrent_transactions service a.id

  one_iff :
      (a : Authorization) (o : Option AuthorizationStatus)
      → a.status ≡ o
      → (answered_status (authorize_status service now event a o)
          ≡ some AuthorizationStatusEnum.accepted)
        ↔ Passes service now (busy_at a) a
  unfolding authorize_status check_info from_authorization_status_type
  one_iff a none q = (λ h. inl q, λ h. refl)
  one_iff a (some AuthorizationStatus.accepted) q = (
    λ h.
        let (past, busy, chain) = (guards_iff _ _ a _).0 h in
        inr (q, past, busy, ((apply_authorizers_iff service.authorizers a).0 chain).1),
    λ h. elim h [
      | inl k ↦ ground arith
      | inr (k, past, busy, all) ↦
          (guards_iff _ _ a _).1
            (past, busy, (apply_authorizers_iff service.authorizers a).1 (q, all))
    ],
  )
  one_iff a (some s) q =
      (λ h. ground arith, λ h. elim h [ inl k ↦ ground arith | inr k ↦ ground arith ])

  -- In OCPP 2.0.1 a token is accepted exactly if it has one authorization, and that has no status, or
  -- is accepted, is not past its expiry, passes every authorizer and, where it may have one
  -- transaction only and one starts, has none that is active.
  pub accepted_ocpp201_iff :
      (found : Result (List Authorization))
      → (answered_status (authorize_ocpp201_id_token service now event found)
          ≡ some AuthorizationStatusEnum.accepted)
        ↔ ((a : Authorization) × (found ≡ ok (a ∷ [])) × Passes service now (busy_at a) a)
  unfolding authorize_ocpp201_id_token
  accepted_ocpp201_iff (throw e) = (λ h. ground arith, λ h. ground arith)
  accepted_ocpp201_iff (ok []) = (λ h. ground arith, λ h. ground arith)
  accepted_ocpp201_iff (ok (a ∷ [])) = (
    λ h. (a, refl, (one_iff a a.status refl).0 h),
    λ (x, same, passes).
        (one_iff a a.status refl).1
          (subst (λ y. Passes service now (busy_at y) y) (only same) passes),
  )
  accepted_ocpp201_iff (ok (a ∷ b ∷ rest)) = (λ h. ground arith, λ h. ground arith)

parent_iff :
    (a : Authorization) (r : Result (Option String))
    → ((with_parent a r).status ≡ IdTagStatus.accepted)
      ↔ ((parent : Option String) × (r ≡ ok parent))
unfolding with_parent
parent_iff a (ok parent) = (λ h. (parent, refl), λ h. refl)
parent_iff a (throw e) = (λ h. ground arith, λ h. ground arith)

-- The token of the group of an authorization can be read, where there is a group.
abbrev pub HasParent : Service → Option ℕ → Type 0
HasParent service none = Unit
HasParent service (some zero) = Unit
HasParent service (some (suc id)) =
    (parent : Option String) × (service.token_of (suc id) ≡ ok parent)

group_iff :
    (service : Service) (now : ℕ) (a : Authorization) (group : Option ℕ)
    → ((with_group service now a group).status ≡ IdTagStatus.accepted) ↔ HasParent service group
unfolding with_group
group_iff service now a none = (λ h. tt, λ h. refl)
group_iff service now a (some zero) = (λ h. tt, λ h. refl)
group_iff service now a (some (suc id)) = parent_iff a (service.token_of (suc id))

tag_iff :
    (service : Service) (now : ℕ) (a : Authorization) (r : Option AuthorizationStatus)
    → ((after_authorizers service now a (chain_status r)).status ≡ IdTagStatus.accepted)
      ↔ ((r ≡ some AuthorizationStatus.accepted) × HasParent service a.group_authorization_id)
unfolding after_authorizers chain_status to_start_transaction_status
tag_iff service now a none = (λ h. ground arith, λ h. ground arith)
tag_iff service now a (some AuthorizationStatus.accepted) = (
  λ h. (refl, (group_iff service now a a.group_authorization_id).0 h),
  λ h. (group_iff service now a a.group_authorization_id).1 h.1,
)
tag_iff service now a (some s) = (λ h. ground arith, λ h. ground arith)

tag_guards_iff :
    (past busy : Bool) (t : IdTagInfo)
    → ((if past
          then rejected IdTagStatus.expired
          else if busy
          then rejected IdTagStatus.concurrent_tx
          else t).status
        ≡ IdTagStatus.accepted)
      ↔ ((past ≡ false) × (busy ≡ false) × (t.status ≡ IdTagStatus.accepted))
tag_guards_iff true busy t = (λ h. ground arith, λ h. ground arith)
tag_guards_iff false true t = (λ h. ground arith, λ h. ground arith)
tag_guards_iff false false t = (λ h. (refl, refl, h), λ h. h.2)

not_counted : (counted busy : Bool) → busy ≡ false → (counted && busy) ≡ false
not_counted true busy h = h
not_counted false busy h = refl

module _ (service : Service) (now : ℕ) where
  -- the authorization passes, and its group can be read
  abbrev pub PassesWithGroup : Authorization → Type 0
  PassesWithGroup a =
      (a.status ≡ none)
      ⊎ ((a.status ≡ some AuthorizationStatus.accepted)
          × (is_past a.cache_expiry now ≡ false)
          × (has_concurrent_transactions service a.id ≡ false)
          × All (λ f. f a ≡ some AuthorizationStatus.accepted) service.authorizers
          × HasParent service a.group_authorization_id)

  one_tag_iff :
      (a : Authorization) (o : Option AuthorizationStatus)
      → a.status ≡ o
      → ((authorize_tag service now a o).status ≡ IdTagStatus.accepted) ↔ PassesWithGroup a
  unfolding authorize_tag check_tag to_start_transaction_status
  one_tag_iff a none q = (λ h. inl q, λ h. refl)
  one_tag_iff a (some AuthorizationStatus.accepted) q = (
    λ h.
        let (past, busy, done) = (tag_guards_iff _ _ _).0 h in
        let (chain, parent) = (tag_iff service now a _).0 done in
        inr (q, past, busy, ((apply_authorizers_iff service.authorizers a).0 chain).1, parent),
    λ h. elim h [
      | inl k ↦ ground arith
      | inr (k, past, busy, all, parent) ↦ (tag_guards_iff _ _ _).1 (
        past,
        busy,
        (tag_iff service now a _).1
            ((apply_authorizers_iff service.authorizers a).1 (q, all), parent),
      )
    ],
  )
  one_tag_iff a (some s) q =
      (λ h. ground arith, λ h. elim h [ inl k ↦ ground arith | inr k ↦ ground arith ])

  -- In OCPP 1.6 a token is accepted exactly if it has one authorization, and that has no status, or is
  -- accepted, is not past its expiry, has no active transaction, passes every authorizer, and its group,
  -- where it has one, can be read.
  pub accepted_ocpp16_iff :
      (found : Result (List Authorization))
      → ((authorize_ocpp16_id_token service now found).status ≡ IdTagStatus.accepted)
        ↔ ((a : Authorization) × (found ≡ ok (a ∷ [])) × PassesWithGroup a)
  unfolding authorize_ocpp16_id_token
  accepted_ocpp16_iff (throw e) = (λ h. ground arith, λ h. ground arith)
  accepted_ocpp16_iff (ok []) = (λ h. ground arith, λ h. ground arith)
  accepted_ocpp16_iff (ok (a ∷ [])) = (
    λ h. (a, refl, (one_tag_iff a a.status refl).0 h),
    λ (x, same, passes). (one_tag_iff a a.status refl).1 (subst PassesWithGroup (only same) passes),
  )
  accepted_ocpp16_iff (ok (a ∷ b ∷ rest)) = (λ h. ground arith, λ h. ground arith)

  weaker :
      (event : TransactionEvent) (a : Authorization)
      → PassesWithGroup a
      → Passes service now (busy_at service now event a) a
  weaker event a h = elim h [
    | inl k ↦ inl k
    | inr (q, past, busy, all, parent) ↦ inr (q, past, not_counted _ _ busy, all)
  ]

  -- A token that OCPP 1.6 accepts is accepted in every event of OCPP 2.0.1 at the same time and with
  -- the same data.
  pub accepted_ocpp16→ocpp201 :
      (event : TransactionEvent) (found : Result (List Authorization))
      → (authorize_ocpp16_id_token service now found).status ≡ IdTagStatus.accepted
      → answered_status (authorize_ocpp201_id_token service now event found)
        ≡ some AuthorizationStatusEnum.accepted
  accepted_ocpp16→ocpp201 event found h =
      let (a, same, passes) = (accepted_ocpp16_iff found).0 h in
      (accepted_ocpp201_iff service now event found).1 (a, same, weaker event a passes)
