-- ===== src/Access/Tests.antt =====
-- Requests of a user with the role "admin".
use rexharge_citrineos_core.Prelude.{inl, ◌≡◌, refl, none, some, [], ◌∷◌, true, ◌↔◌, ◌⊎◌}
use rexharge_citrineos_core.Prelude.Text.{concat}
use rexharge_citrineos_core.Rpc.Message.{ok}
use rexharge_citrineos_core.Access.{on_request, is_excluded_route}
use rexharge_citrineos_core.Access.Rules.{RbacRules, get_required_roles}
use rexharge_citrineos_core.Access.Provider.{
  Request, TokenLibrary, Payload, UserInfo, oidc, user_of, bearer_token, authenticate_token,
  authorize_user,
}
use rexharge_citrineos_core.Access.Granted.{
  on_request_iff, authorize_user_plain, HasRole, Identifies,
}

abbrev payload : Payload
payload = record {
  sub = some "u1";
  preferred_username = none;
  name = some "Ada";
  email = none;
  roles = some ("admin" ∷ []);
  tenant_id = some "2";
}

abbrev library : TokenLibrary
library = record {
  key_id = λ token. some "k";
  signing_key = λ kid. ok "key";
  verify = λ token key. ok payload;
}

abbrev rules : RbacRules
rules =
    ("1", ("/ocpp/*", ("POST", "admin" ∷ []) ∷ []) ∷ ("/data/:id", ("*", "reader" ∷ []) ∷ []) ∷ [])
    ∷ []

abbrev request : Request
request = record {
  url = "/ocpp/2.0.1/reset/?id=7";
  method = "post";
  authorization = some "Bearer  abc ";
  query_tenant = none;
}

abbrev stranger : Request
stranger = record request { authorization = some "Basic abc" }

token_read : bearer_token request.authorization ≡ some "abc"
unfolding bearer_token
token_read = refl

roles_read : get_required_roles rules "1" "data/7/" "GET" ≡ some ("reader" ∷ [])
unfolding get_required_roles
roles_read = refl

abbrev asked : Request
asked = record request { url = concat request.url (concat "?" "a=b") }

authorize_user_plain_example :
    authorize_user rules (user_of payload) asked ≡ authorize_user rules (user_of payload) request
authorize_user_plain_example =
    authorize_user_plain rules (user_of payload) request asked "a=b" refl refl (inl refl)

on_request_iff_example : ((on_request (oidc library rules) ("/docs" ∷ []) request).replies ≡ []) ↔ (
    (is_excluded_route ("/docs" ∷ []) request.url ≡ true)
    ⊎ ((u : UserInfo) × Identifies library request u × HasRole rules request u))
on_request_iff_example = on_request_iff library rules request ("/docs" ∷ [])

let_in : (on_request (oidc library rules) ("/docs" ∷ []) request).replies ≡ []
unfolding on_request bearer_token authenticate_token authorize_user
let_in = refl
