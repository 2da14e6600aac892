-- ===== src/Authorization/Driver/Accepted.antt =====
-- When an Authorize of OCPP 2.0.1 is answered Accepted.
use rexharge_citrineos_core.Prelude.{
  ℕ, ◌≡◌, ◌↔◌, refl, ap, Option, none, some, Bool, true, false, List, [], ◌∷◌, All, arith,
  if◌then◌else◌,
}
use rexharge_citrineos_core.Rpc.Message.{Result, ok, throw}
use rexharge_citrineos_core.Authorization.{Authorization, AuthorizationStatus, is_past}
use rexharge_citrineos_core.Authorization.Mapping.{
  AuthorizationStatusEnum, from_authorization_status_type,
}
use rexharge_citrineos_core.Authorization.Chain.{Authorizer}
use rexharge_citrineos_core.Authorization.Driver.Offers.{LeavesEvse, check_evses_iff}
use rexharge_citrineos_core.Authorization.Driver.{
  CertificateStatus, Station, AuthorizeResponse, authorize_response, ask_authorizers, with_status,
  check_authorizers, answer_known, answer_token,
}

-- the status of the answer, none if there is no answer
abbrev pub response_status : Result AuthorizeResponse → Option AuthorizationStatusEnum
response_status (throw e) = none
response_status (ok r) = some r.status

from_iff :
    (o : Option AuthorizationStatus)
    → (from_authorization_status_type o ≡ ok AuthorizationStatusEnum.accepted)
      ↔ (o ≡ some AuthorizationStatus.accepted)
unfolding from_authorization_status_type
from_iff none = (λ h. ground arith, λ h. ground arith)
from_iff (some AuthorizationStatus.accepted) = (λ h. refl, λ h. refl)
from_iff (some s) = (λ h. ground arith, λ h. ground arith)

ask_iff :
    (fs : List Authorizer) (a : Authorization) (r : Result AuthorizationStatusEnum)
    → (ask_authorizers fs a r ≡ ok AuthorizationStatusEnum.accepted) ↔ (
        (r ≡ ok AuthorizationStatusEnum.accepted)
        × All (λ f. f a ≡ some AuthorizationStatus.accepted) fs)
unfolding ask_authorizers
ask_iff [] a r = (λ h. (h, tt), λ h. h.0)
ask_iff (f ∷ fs) a (ok AuthorizationStatusEnum.accepted) = (
  λ h. let (now, later) = (ask_iff fs a _).0 h in (refl, ((from_iff (f a)).0 now, later)),
  λ h. (ask_iff fs a _).1 ((from_iff (f a)).1 h.1.0, h.1.1),
)
ask_iff (f ∷ fs) a r = (λ h. ground arith, λ h. ground arith)

status_iff :
    (r : AuthorizeResponse) (s : Result AuthorizationStatusEnum)
    → (response_status (with_status r s) ≡ some AuthorizationStatusEnum.accepted)
      ↔ (s ≡ ok AuthorizationStatusEnum.accepted)
unfolding with_status
status_iff r (throw e) = (λ h. ground arith, λ h. ground arith)
status_iff r (ok s) = (λ h. ap ok (cc h), λ h. ap some (cc h))

checked_iff :
    (station : Station) (a : Authorization) (r : AuthorizeResponse)
    → (response_status (check_authorizers station a r) ≡ some AuthorizationStatusEnum.accepted) ↔ (
        (r.status ≡ AuthorizationStatusEnum.accepted)
        × All (λ f. f a ≡ some AuthorizationStatus.accepted) station.authorizers)
unfolding check_authorizers
checked_iff station a r = (
  λ h.
      let (q, all) = (ask_iff station.authorizers a (ok r.status)).0 ((status_iff r _).0 h) in
      (cc q, all),
  λ h. (status_iff r _).1 ((ask_iff station.authorizers a (ok r.status)).1 (ap ok h.0, h.1)),
)

past_iff :
    (past : Bool) (c : Option CertificateStatus) (r : AuthorizeResponse)
    → ((if past then authorize_response AuthorizationStatusEnum.invalid c [] else r).status
        ≡ AuthorizationStatusEnum.accepted)
      ↔ ((past ≡ false) × (r.status ≡ AuthorizationStatusEnum.accepted))
past_iff true c r = (λ h. ground arith, λ h. ground arith)
past_iff false c r = (λ h. (refl, h), λ h. h.1)

module _ (station : Station) (now : ℕ) (c : Option CertificateStatus) (a : Authorization) where
  -- An authorization that an Authorize accepts.
  abbrev pub IsAuthorized : Type 0
  IsAuthorized =
      (a.status ≡ some AuthorizationStatus.accepted)
      × (is_past a.cache_expiry now ≡ false)
      × LeavesEvse station.connector_types station.evse_ids a.allowed_connector_types
          a.disallowed_evse_id_prefixes
      × All (λ f. f a ≡ some AuthorizationStatus.accepted) station.authorizers

  known_iff :
      (o : Option AuthorizationStatus)
      → a.status ≡ o
      → (response_status (answer_known station now a c (from_authorization_status_type o))
          ≡ some AuthorizationStatusEnum.accepted)
        ↔ IsAuthorized
  unfolding answer_known from_authorization_status_type
  known_iff none q = (λ h. ground arith, λ h. ground arith)
  known_iff (some AuthorizationStatus.accepted) q = (
    λ h.
        let (settled, all) = (checked_iff station a _).0 h in
        let (past, evses) = (past_iff _ c _).0 settled in
        (q, past, (check_evses_iff station a c _ _ refl refl).0 evses, all),
    λ (s, past, evses, all).
        (checked_iff station a _).1
          ((past_iff _ c _).1 (past, (check_evses_iff station a c _ _ refl refl).1 evses), all),
  )
  known_iff (some s) q = (λ h. ground arith, λ h. ground arith)

  -- Once the certificates have passed, a stored token is answered Accepted exactly if its authorization is
  -- accepted, is not past its expiry, passes every authorizer, and leaves an EVSE where it restricts
  -- them, in this sense. With allowed types, some connector of the EVSE has one that does not stand first
  -- in their list; with disallowed prefixes as well, every name of it has one of these prefixes. With
  -- disallowed prefixes only, some name of it has one.
  pub answer_token_iff :
      (response_status (answer_token station now c (ok (some a)))
        ≡ some AuthorizationStatusEnum.accepted)
      ↔ IsAuthorized
  unfolding answer_token
  answer_token_iff = known_iff a.status refl
