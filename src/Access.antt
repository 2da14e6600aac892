-- ===== src/Access.antt =====
-- Who may call the HTTP API: 02_Util/src/authorization/ApiAuthPlugin.ts and the providers below it.
-- The replies to a request are a log with the newest first; of a reply the status is kept.
pub mod Urls
pub mod Rules
pub mod Provider
pub mod Granted
mod Tests
use rexharge_citrineos_core.Prelude.{
  String, Option, none, some, Bool, true, false, List, [], ◌∷◌, any, str_eq, if◌then◌else◌, ◌||◌,
}
use rexharge_citrineos_core.Prelude.Text.{concat}
use rexharge_citrineos_core.Rpc.Message.{Result, ok, throw}
use rexharge_citrineos_core.Access.Urls.{begins_with}
use rexharge_citrineos_core.Access.Provider.{
  UserInfo, Request, AuthenticationResult, AuthorizationResult, ApiAuthProvider,
}

-- HttpStatus
pub data Status : Type 0 where
  unauthorized forbidden : Status

-- A request on its way: the user that was found, and the replies that were sent.
pub record Progress : Type 0 where
  pub user : Option UserInfo
  pub replies : List Status

-- isExcludedRoute
unfoldable pub is_excluded_route : List String → String → Bool
unfolding begins_with
is_excluded_route routes url =
    str_eq url "/health"
    || any (λ route. str_eq url route || begins_with url (concat route "/")) routes

abbrev pub reply : Status → Progress → Progress
reply status p = record p { replies = status ∷ p.replies }

-- Truthiness of a token: the empty one is none.
abbrev pub non_empty_token : Option String → Option String
non_empty_token none = none
non_empty_token (some s) = if str_eq s "" then none else some s

unfoldable pub store_user : Result AuthenticationResult → Progress → Progress
store_user (throw e) p = reply unauthorized p
store_user (ok r) p =
    if r.is_authenticated
    then elim r.user [ none ↦ reply unauthorized p | some u ↦ record p { user = some u } ]
    else reply unauthorized p

unfoldable pub authenticate_with : ApiAuthProvider → Option String → Progress → Progress
unfolding store_user
authenticate_with provider none p = reply unauthorized p
authenticate_with provider (some token) p = store_user (provider.authenticate_token token) p

-- the decorator `authenticate`
unfoldable pub authenticate : ApiAuthProvider → Request → Progress → Progress
unfolding authenticate_with
authenticate provider request p = elim (provider.extract_token request) [
  | throw e ↦ reply unauthorized p
  | ok token ↦ authenticate_with provider (non_empty_token token) p
]

unfoldable pub refuse : Result AuthorizationResult → Progress → Progress
refuse (throw e) p = reply forbidden p
refuse (ok r) p = if r.is_authorized then p else reply forbidden p

unfoldable pub authorize_found : ApiAuthProvider → Request → Option UserInfo → Progress → Progress
unfolding refuse
authorize_found provider request none p = reply unauthorized p
authorize_found provider request (some u) p = refuse (provider.authorize_user u request) p

-- the decorator `authorize`
unfoldable pub authorize : ApiAuthProvider → Request → Progress → Progress
unfolding authorize_found
authorize provider request p = authorize_found provider request p.user p

abbrev pub arrived : Progress
arrived = record { user = none; replies = [] }

-- the hook onRequest
unfoldable pub on_request : ApiAuthProvider → List String → Request → Progress
unfolding is_excluded_route authenticate authorize
on_request provider routes request =
    if is_excluded_route routes request.url
    then arrived
    else authorize provider request (authenticate provider request arrived)
