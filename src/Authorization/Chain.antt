-- ===== src/Authorization/Chain.antt =====
-- The authorizers that a service asks in turn (_applyAuthorizers of
-- 03_Modules/Transactions/src/module/TransactionService.ts, and the loop of _handleAuthorize in
-- 03_Modules/EVDriver/src/module/module.ts).
use rexharge_citrineos_core.Prelude.{◌≡◌, ◌↔◌, refl, Option, some, List, [], ◌∷◌, All, arith}
use rexharge_citrineos_core.Authorization.{Authorization, AuthorizationStatus, accepted}

-- IAuthorizer; one that throws, which ends the handler, is not modelled
abbrev pub Authorizer : Type 0
Authorizer = Authorization → Option AuthorizationStatus

unfoldable pub apply_from :
    List Authorizer → Authorization → Option AuthorizationStatus → Option AuthorizationStatus
apply_from [] a result = result
apply_from (f ∷ fs) a (some accepted) = apply_from fs a (f a)
apply_from (f ∷ fs) a result = result

-- _applyAuthorizers
unfoldable pub apply_authorizers : List Authorizer → Authorization → Option AuthorizationStatus
unfolding apply_from
apply_authorizers fs a = apply_from fs a a.status

apply_from_iff :
    (fs : List Authorizer) (a : Authorization) (result : Option AuthorizationStatus)
    → (apply_from fs a result ≡ some accepted)
      ↔ ((result ≡ some accepted) × All (λ f. f a ≡ some accepted) fs)
unfolding apply_from
apply_from_iff [] a result = (λ h. (h, tt), λ h. h.0)
apply_from_iff (f ∷ fs) a (some accepted) =
    (λ h. (refl, (apply_from_iff fs a (f a)).0 h), λ h. (apply_from_iff fs a (f a)).1 h.1)
apply_from_iff (f ∷ fs) a result = (λ h. ground arith, λ h. ground arith)

-- An authorization passes the authorizers exactly if it is accepted and each of them accepts it.
pub apply_authorizers_iff :
    (fs : List Authorizer) (a : Authorization)
    → (apply_authorizers fs a ≡ some accepted)
      ↔ ((a.status ≡ some accepted) × All (λ f. f a ≡ some accepted) fs)
unfolding apply_authorizers
apply_authorizers_iff fs a = apply_from_iff fs a a.status
