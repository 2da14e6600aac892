-- ===== src/Authorization/Driver/Evses.antt =====
-- Which EVSEs an Authorize offers.
use rexharge_citrineos_core.Prelude.{
  ℕ, String, ◌≡◌, ◌∙◌, refl, ap, ◌≢◌, Option, none, some, false, List, [], ◌∷◌, All, any, arith,
}
use text.Mathlib.Text.{starts_with}
use rexharge_citrineos_core.Rpc.Message.{ok}
use rexharge_citrineos_core.Authorization.{Authorization, AuthorizationStatus, is_past}
use rexharge_citrineos_core.Authorization.Mapping.{
  AuthorizationStatusEnum, from_authorization_status_type,
}
use rexharge_citrineos_core.Authorization.Chain.{Authorizer}
use rexharge_citrineos_core.Authorization.Driver.{
  VariableAttribute, CertificateStatus, Station, AuthorizeResponse, authorize_response, index_of,
  is_allowed_type, collect_connectors, narrow_evses, typed_evses, narrowed_evses, offer,
  check_evses, ask_authorizers, with_status, check_authorizers, answer_known, answer_token,
}

one_type : (t s : String) → is_allowed_type (t ∷ []) s ≡ false
unfolding is_allowed_type index_of
one_type t s = ground arith

collect_one_type :
    (t : String) (vs : List VariableAttribute) (s : List (Option ℕ))
    → collect_connectors (t ∷ []) vs s ≡ s
unfolding collect_connectors
collect_one_type t [] s = refl
collect_one_type t (v ∷ vs) s = rw (one_type t v.value) (collect_one_type t vs s)

-- Authorizers are not asked of a refused one.
ask_refused :
    (fs : List Authorizer) (a : Authorization) (s : AuthorizationStatusEnum)
    → s ≢ AuthorizationStatusEnum.accepted
    → ask_authorizers fs a (ok s) ≡ ok s
unfolding ask_authorizers
ask_refused [] a s n = refl
ask_refused (f ∷ fs) a AuthorizationStatusEnum.accepted n = ground arith
ask_refused (f ∷ fs) a s n = refl

check_refused :
    (station : Station) (a : Authorization) (r : AuthorizeResponse)
    → r.status ≢ AuthorizationStatusEnum.accepted
    → check_authorizers station a r ≡ ok r
unfolding check_authorizers with_status
check_refused station a r n = rw (ask_refused station.authorizers a r.status n) refl

module _ (station : Station) (now : ℕ) (c : Option CertificateStatus) (a : Authorization) where
  answer_accepted :
      a.status ≡ some AuthorizationStatus.accepted
      → is_past a.cache_expiry now ≡ false
      → answer_token station now c (ok (some a))
        ≡ check_authorizers station a (check_evses station a c)
  unfolding answer_token answer_known from_authorization_status_type
  answer_accepted s p = rw (s, p) refl

  -- Where one type of connector is allowed, an accepted authorization that is not past its expiry is
  -- answered NotAllowedTypeEVSE, whatever connectors the station has, even if all have that type.
  answer_token_one_type :
      (t : String)
      → a.status ≡ some AuthorizationStatus.accepted
      → is_past a.cache_expiry now ≡ false
      → a.allowed_connector_types ≡ some (t ∷ [])
      → answer_token station now c (ok (some a))
        ≡ ok (authorize_response AuthorizationStatusEnum.not_allowed_type_evse c [])
  unfolding check_evses typed_evses
  answer_token_one_type t s p allowed =
      answer_accepted s p
      ∙ ap (check_authorizers station a) only_refusal
      ∙ check_refused station a _ (λ q. ground arith)
    where
      only_refusal :
          check_evses station a c
          ≡ authorize_response AuthorizationStatusEnum.not_allowed_type_evse c []
      only_refusal = rw (allowed, collect_one_type t station.connector_types []) refl

-- No prefix is one of the name of the EVSE.
abbrev pub IsUnforbidden : List String → VariableAttribute → Type 0
IsUnforbidden prefixes v = any (starts_with v.value) prefixes ≡ false

narrow_unforbidden :
    (prefixes : List String) (vs : List VariableAttribute)
    → All (IsUnforbidden prefixes) vs
    → narrow_evses false prefixes vs [] ≡ []
unfolding narrow_evses
narrow_unforbidden prefixes [] h = refl
narrow_unforbidden prefixes (v ∷ vs) (h, k) = rw h (narrow_unforbidden prefixes vs k)

module _ (station : Station) (now : ℕ) (c : Option CertificateStatus) (a : Authorization) where
  -- Where some prefixes are disallowed, and no types are given, an accepted authorization that is not past
  -- its expiry is answered NotAtThisLocation at a station whose EVSEs all lack those prefixes.
  pub answer_token_unforbidden :
      (prefixes : List String)
      → a.status ≡ some AuthorizationStatus.accepted
      → is_past a.cache_expiry now ≡ false
      → a.allowed_connector_types ≡ none
      → a.disallowed_evse_id_prefixes ≡ some prefixes
      → All (IsUnforbidden prefixes) station.evse_ids
      → answer_token station now c (ok (some a))
        ≡ ok (authorize_response AuthorizationStatusEnum.not_at_this_location c [])
  unfolding check_evses typed_evses narrowed_evses offer
  answer_token_unforbidden prefixes s p allowed disallowed h =
      answer_accepted station now c a s p
      ∙ ap (check_authorizers station a) only_refusal
      ∙ check_refused station a _ (λ q. ground arith)
    where
      only_refusal :
          check_evses station a c
          ≡ authorize_response AuthorizationStatusEnum.not_at_this_location c []
      only_refusal = rw (allowed, disallowed, narrow_unforbidden prefixes station.evse_ids h) refl
