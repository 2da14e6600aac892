-- ===== src/Access/Provider.antt =====
-- The providers of authentication: 02_Util/src/authorization/provider. What jsonwebtoken and the JWKS
-- client answer is a parameter, TokenLibrary. Of a user the metadata are left out, and of an error
-- its text.
use Prim.Native.String.{String}
use rexharge_citrineos_core.Prelude.{
  ℕ, suc, zero, Option, none, some, Bool, true, false, List, [], ◌∷◌, any, includes, str_eq,
  if◌then◌else◌, get_or,
}
use rexharge_citrineos_core.Prelude.Letters.{trim}
use rexharge_citrineos_core.Rpc.Message.{Result, ok, throw, plain}
use rexharge_citrineos_core.Access.Urls.{begins_with}
use rexharge_citrineos_core.Access.Rules.{RbacRules, get_required_roles}

pub record UserInfo : Type 0 where
  pub id : Option String
  pub name : Option String
  pub email : String
  pub roles : List String
  pub tenant_id : String

-- A request, with the header Authorization and the parameter tenantId of the query.
pub record Request : Type 0 where
  pub url : String
  pub method : String
  pub authorization : Option String
  pub query_tenant : Option String

pub record AuthenticationResult : Type 0 where
  pub is_authenticated : Bool
  pub user : Option UserInfo

pub record AuthorizationResult : Type 0 where
  pub is_authorized : Bool

-- IApiAuthProvider
pub record ApiAuthProvider : Type 0 where
  pub extract_token : Request → Result (Option String)
  pub authenticate_token : String → Result AuthenticationResult
  pub authorize_user : UserInfo → Request → Result AuthorizationResult

-- ApiAuthenticationResult.success and failure, and those of ApiAuthorizationResult
abbrev pub authenticated : UserInfo → AuthenticationResult
authenticated u = record { is_authenticated = true; user = some u }

abbrev pub not_authenticated : AuthenticationResult
not_authenticated = record { is_authenticated = false; user = none }

abbrev pub authorized : Bool → AuthorizationResult
authorized b = record { is_authorized = b }

-- The claims of a token.
pub record Payload : Type 0 where
  pub sub : Option String
  pub preferred_username : Option String
  pub name : Option String
  pub email : Option String
  pub roles : Option (List String)
  pub tenant_id : Option String

-- The identifier of the key in the header of a token, the key itself, and the claims of a token
-- whose signature fits the key.
pub record TokenLibrary : Type 0 where
  pub key_id : String → Option String
  pub signing_key : String → Result String
  pub verify : String → String → Result Payload

-- a || b, for texts
abbrev pub or_text : Option String → Option String → Option String
or_text none b = b
or_text (some a) b = if str_eq a "" then b else some a

abbrev pub default_tenant : String
default_tenant = "1"

abbrev pub user_of : Payload → UserInfo
user_of p = record {
  id = p.sub;
  name = or_text p.preferred_username (or_text p.name p.sub);
  email = get_or (or_text p.email none) "";
  roles = get_or p.roles [];
  tenant_id = get_or (or_text p.tenant_id none) default_tenant;
}

-- authHeader.slice(7)
unfoldable pub drop_chars : ℕ → String → String
drop_chars zero s = s
drop_chars (suc n) String.[] = String.[]
drop_chars (suc n) (String.◌∷◌ c s) = drop_chars n s

-- OIDCAuthProvider.extractToken
unfoldable pub bearer_token : Option String → Option String
unfolding begins_with drop_chars trim
bearer_token none = none
bearer_token (some header) =
    if begins_with header "Bearer " then some (trim (drop_chars 7 header)) else none

unfoldable pub checked : TokenLibrary → String → Result String → Result Payload
checked library token (throw e) = throw e
checked library token (ok key) = library.verify token key

-- The claims of a token that is verified, in the order of the code's steps.
unfoldable pub claims : TokenLibrary → String → Option String → Result Payload
unfolding checked
claims library token none = throw (plain "Invalid token format")
claims library token (some kid) =
    if str_eq kid ""
    then throw (plain "Invalid token format")
    else checked library token (library.signing_key kid)

unfoldable pub result_of : Result Payload → AuthenticationResult
result_of (throw e) = not_authenticated
result_of (ok p) = authenticated (user_of p)

-- OIDCAuthProvider.authenticateToken
unfoldable pub authenticate_token : TokenLibrary → String → AuthenticationResult
unfolding claims result_of
authenticate_token library token = result_of (claims library token (library.key_id token))

-- userHasRequiredRole
unfoldable pub has_required_role : UserInfo → List String → Bool
has_required_role u required = any (includes required) u.roles

unfoldable pub is_permitted : UserInfo → Option (List String) → Bool
unfolding has_required_role
is_permitted u none = false
is_permitted u (some []) = false
is_permitted u (some (r ∷ rs)) = has_required_role u (r ∷ rs)

-- OIDCAuthProvider.authorizeUser
unfoldable pub authorize_user : RbacRules → UserInfo → Request → AuthorizationResult
unfolding is_permitted get_required_roles
authorize_user rules u request = authorized (
    is_permitted u (
      get_required_roles rules (get_or (or_text request.query_tenant none) default_tenant)
        request.url request.method))

-- OIDCAuthProvider
abbrev pub oidc : TokenLibrary → RbacRules → ApiAuthProvider
oidc library rules = record {
  extract_token = λ request. ok (bearer_token request.authorization);
  authenticate_token = λ token. ok (authenticate_token library token);
  authorize_user = λ u request. ok (authorize_user rules u request);
}

abbrev pub local_admin : UserInfo
local_admin = record {
  id = some "local-admin";
  name = some "Local Admin";
  email = "admin@local";
  roles = "admin" ∷ "user" ∷ [];
  tenant_id = "1";
}

-- LocalBypassAuthProvider
abbrev pub local_bypass : ApiAuthProvider
local_bypass = record {
  extract_token = λ request. ok (some "local-bypass-token");
  authenticate_token = λ token. ok (authenticated local_admin);
  authorize_user = λ u request. ok (authorized true);
}
