-- ===== src/Access/Granted.antt =====
-- When a request gets past the hook.

use rexharge_citrineos_core.Prelude.{
  ◌≡◌, ◌≢◌, refl, ap, ◌∙◌, ◌⊎◌, ◌↔◌, inl, inr, String, Option, none, some, Bool, true, false, List,
  [], ◌∷◌, any, includes, Bool-cases, eq_iff, str_eq, get_or, sym, subst,
}
use rexharge_citrineos_core.Rpc.Message.{Result, ok, throw}
use rexharge_citrineos_core.Access.{
  unauthorized, Progress, arrived, is_excluded_route, authenticate, authorize, on_request,
  store_user, authenticate_with, authorize_found, refuse, non_empty_token,
}
use rexharge_citrineos_core.Access.Provider.{
  UserInfo, Request, Payload, TokenLibrary, oidc, bearer_token, claims, user_of, authenticate_token,
  result_of, authorize_user, is_permitted, has_required_role, or_text, default_tenant, authorized,
  AuthorizationResult,
}
use rexharge_citrineos_core.Access.Rules.{RbacRules, get_required_roles}
use rexharge_citrineos_core.Access.Rules.Normal.{get_required_roles_plain}
use rexharge_citrineos_core.Prelude.Text.{concat}

-- A user who is found in the request: the token is there, is verified and names the user.
abbrev pub Identifies : TokenLibrary → Request → UserInfo → Type 0
Identifies library request u =
    (token : String) × (bearer_token request.authorization ≡ some token)
    × (token ≢ "")
    × (p : Payload) × (claims library token (library.key_id token) ≡ ok p)
    × (u ≡ user_of p)

-- One of the user's roles is among those that the request needs, for the tenant that its query names
-- or else the default one.
abbrev pub HasRole : RbacRules → Request → UserInfo → Type 0
HasRole rules request u =
    (roles : List String) × (get_required_roles rules
        (get_or (or_text request.query_tenant none) default_tenant) request.url request.method
      ≡ some roles)
    × (any (includes roles) u.roles ≡ true)

-- what is left of the request behind `authenticate`
data IsSorted (library : TokenLibrary) (request : Request) (p : Progress) : Type 0 where
  found :
      (u : UserInfo)
      → Identifies library request u
      → p.user ≡ some u
      → p.replies ≡ []
      → IsSorted library request p
  refused :
      ((u : UserInfo) → Identifies library request u → ⊥)
      → p.user ≡ none
      → p.replies ≡ unauthorized ∷ []
      → IsSorted library request p

some_injective : {a b : List String} → some a ≡ some b → a ≡ b
some_injective h = cc

any-includes_nil : (l : List String) → any (includes []) l ≡ false
any-includes_nil [] = refl
any-includes_nil (s ∷ l) = any-includes_nil l

module _ (library : TokenLibrary) (rules : RbacRules) (request : Request) where
  sort_result :
      (token : String) (r : Result Payload)
      → bearer_token request.authorization ≡ some token
      → token ≢ ""
      → claims library token (library.key_id token) ≡ r
      → IsSorted library request (store_user (ok (result_of r)) arrived)
  unfolding result_of store_user
  sort_result token (ok p) e filled h = found (user_of p) (token, e, filled, p, h, refl) refl refl
  sort_result token (throw x) e filled h =
      refused (λ u w. let same : w.0 ≡ token = cc (e, w.1) in cc (h, same, w.4)) refl refl

  sort_token :
      (t : Option String)
      → bearer_token request.authorization ≡ t
      → IsSorted library request
          (authenticate_with (oidc library rules) (non_empty_token t) arrived)
  unfolding authenticate_with
  sort_token none e = refused (λ u w. cc (e, w.1)) refl refl
  sort_token (some token) e = elim (Bool-cases (str_eq token "")) [
    | inl h ↦ rw h (refused (λ u w. w.2 (cc (e, w.1, (eq_iff token "").0 h))) refl refl)
    | inr h ↦ rw h (
        unfold authenticate_token in
        sort_result token _ e (λ same. cc (h, (eq_iff token "").1 same)) refl)
  ]

  authenticate_cases : IsSorted library request (authenticate (oidc library rules) request arrived)
  unfolding authenticate
  authenticate_cases = sort_token (bearer_token request.authorization) refl

  permitted_iff :
      (u : UserInfo) (required : Option (List String))
      → (is_permitted u required ≡ true)
        ↔ ((roles : List String) × (required ≡ some roles) × (any (includes roles) u.roles ≡ true))
  unfolding is_permitted has_required_role
  permitted_iff u none = (λ h. cc, λ h. cc)
  permitted_iff u (some []) =
      (λ h. cc, λ (roles, e, h). cc (h, any-includes_nil u.roles, some_injective e))
  permitted_iff u (some (r ∷ rs)) = (
    λ h. (r ∷ rs, refl, h),
    λ (roles, e, h). subst (λ l. any (includes l) u.roles ≡ true) (some_injective (sym e)) h,
  )

  not_silent :
      (u : UserInfo) (p : Progress)
      → is_permitted u (
          get_required_roles rules
            (get_or (or_text request.query_tenant none) default_tenant)
            request.url
            request.method)
        ≡ false
      → p.user ≡ some u
      → (authorize (oidc library rules) request p).replies ≢ []
  unfolding authorize authorize_found refuse authorize_user
  not_silent u p h e = rw (e, authorize_found, h) (λ k. cc)

  decide_found :
      (u : UserInfo) (p : Progress)
      → p.user ≡ some u
      → p.replies ≡ []
      → ((authorize (oidc library rules) request p).replies ≡ []) ↔ HasRole rules request u
  unfolding authorize authorize_found refuse authorize_user
  decide_found u p e q =
      let required =
        get_required_roles rules (get_or (or_text request.query_tenant none) default_tenant)
          request.url request.method in
      elim (Bool-cases (is_permitted u required)) [
        | inl h ↦ (λ silent. (permitted_iff u required).0 h, λ role. rw (e, authorize_found, h) q)
        | inr h ↦ (
          λ silent. absurd (not_silent u p h e silent),
          λ role. cc (h, (permitted_iff u required).1 role),
        )
      ]

  decide_refused :
      (p : Progress)
      → p.user ≡ none
      → p.replies ≡ unauthorized ∷ []
      → (authorize (oidc library rules) request p).replies ≡ unauthorized ∷ unauthorized ∷ []
  unfolding authorize authorize_found
  decide_refused p e q = rw (e, authorize_found) (ap (◌∷◌ unauthorized) q)

  identified_once :
      (u v : UserInfo) → Identifies library request u → Identifies library request v → u ≡ v
  identified_once u v w x =
      let same : w.0 ≡ x.0 = cc (w.1, x.1) in
      let claimed : w.3 ≡ x.3 = cc (w.4, x.4, same) in w.5 ∙ ap user_of claimed ∙ sym x.5

  admitted_iff :
      (p : Progress)
      → IsSorted library request p
      → ((authorize (oidc library rules) request p).replies ≡ []) ↔ (
          (◌≡◌ {A = Bool} false true)
          ⊎ ((u : UserInfo) × Identifies library request u × HasRole rules request u))
  admitted_iff p (found u w e q) = (
    λ silent. inr (u, w, (decide_found u p e q).0 silent),
    λ either. elim either [
      | inl impossible ↦ cc
      | inr (v, x, role) ↦
          (decide_found u p e q).1 (subst (HasRole rules request) (identified_once v u x w) role)
    ],
  )
  admitted_iff p (refused none_such e q) = (
    λ silent. cc (silent, decide_refused p e q),
    λ either. elim either [ inl impossible ↦ cc | inr (v, x, role) ↦ absurd (none_such v x) ],
  )

  -- A request gets through without a reply exactly if its route is excluded, or its token is verified
  -- and names a user with a role that the request needs, for the tenant of the query or else the
  -- default one.
  pub on_request_iff :
      (routes : List String)
      → ((on_request (oidc library rules) routes request).replies ≡ []) ↔ (
          (is_excluded_route routes request.url ≡ true)
          ⊎ ((u : UserInfo) × Identifies library request u × HasRole rules request u))
  unfolding on_request
  on_request_iff routes = elim (Bool-cases (is_excluded_route routes request.url)) [
    | inl h ↦ rw h (λ silent. inl refl, λ either. refl)
    | inr h ↦ rw h (admitted_iff _ authenticate_cases)
  ]

  -- A request without a token that is verified, to a route that is not excluded, is answered twice,
  -- each time with 401: the authorization runs after the authentication has failed.
  on_request_twice :
      (routes : List String)
      → is_excluded_route routes request.url ≡ false
      → ((u : UserInfo) → Identifies library request u → ⊥)
      → (on_request (oidc library rules) routes request).replies ≡ unauthorized ∷ unauthorized ∷ []
  unfolding on_request
  on_request_twice routes open_route stranger = rw open_route (elim authenticate_cases [
    | found u w e q ↦ absurd (stranger u w)
    | refused none_such e q ↦ decide_refused _ e q
  ])

-- Of two requests with the same method that name the same tenant, or both none, and whose URLs differ
-- only in a query or a fragment at the end, a user may make both or neither. The tenant that the query
-- names is a part of the request of its own, since it chooses the rules.
pub authorize_user_plain :
    (rules : RbacRules) (u : UserInfo) (q r : Request) (rest : String)
    → r.method ≡ q.method
    → r.query_tenant ≡ q.query_tenant
    → (r.url ≡ concat q.url (concat "?" rest)) ⊎ (r.url ≡ concat q.url (concat "#" rest))
    → authorize_user rules u r ≡ authorize_user rules u q
unfolding authorize_user
authorize_user_plain rules u q r rest same_method same_tenant longer =
    let at : (String → String → Option String → AuthorizationResult) = λ url method tenant.
      authorized (
        is_permitted u
          (get_required_roles rules (get_or (or_text tenant none) default_tenant) url method)) in
    ap (λ m. at r.url m r.query_tenant) same_method
    ∙ ap (λ t. at r.url q.method t) same_tenant
    ∙ elim longer [
      | inl e ↦
          ap (λ v. at v q.method q.query_tenant) e
          ∙ ap (λ roles. authorized (is_permitted u roles))
              (get_required_roles_plain rules _ q.url rest q.method).0
      | inr e ↦
          ap (λ v. at v q.method q.query_tenant) e
          ∙ ap (λ roles. authorized (is_permitted u roles))
              (get_required_roles_plain rules _ q.url rest q.method).1
    ]
