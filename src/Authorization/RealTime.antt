-- ===== src/Authorization/RealTime.antt =====
-- 02_Util/src/authorizer/RealTimeAuthorizer.ts: a partner is asked about an accepted authorization.
use rexharge_citrineos_core.Prelude.{
  String, ◌≡◌, ◌≢◌, ◌↔◌, ◌⊎◌, inl, inr, refl, ap, Option, none, some, Bool, true, false, str_eq,
  arith, eq_iff, if◌then◌else◌,
}
use rexharge_citrineos_core.Cache.Store.{truthy}
use rexharge_citrineos_core.Authorization.{
  Authorization, AuthorizationStatus, accepted, blocked, expired, invalid, no_credit,
  not_at_this_location, unknown, Whitelist, never, allowed, allowed_offline,
}

-- What is outside: whether the station is stored with a location; the token provider, if one is
-- configured, and whether it gives a token; and `data.allowed` of what the partner answers at a URL,
-- none if the request, the answer or the reading of it fails.
pub record Partner : Type 0 where
  pub has_location : Bool
  pub token : Option Bool
  pub answer : String → Option String

-- the switch on `data.allowed`
unfoldable pub status_of_answer : String → AuthorizationStatus
status_of_answer s =
    if str_eq s "ALLOWED"
    then accepted
    else if str_eq s "BLOCKED"
    then blocked
    else if str_eq s "EXPIRED"
    then expired
    else if str_eq s "NO_CREDIT"
    then no_credit
    else if str_eq s "NOT_ALLOWED"
    then not_at_this_location
    else unknown

-- What the handler of exceptions leaves.
abbrev pub status_of_failure : Whitelist → AuthorizationStatus
status_of_failure allowed_offline = accepted
status_of_failure never = invalid
status_of_failure allowed = invalid

status_of_reply : Whitelist → Option String → AuthorizationStatus
unfolding status_of_answer
status_of_reply w none = status_of_failure w
status_of_reply w (some s) = status_of_answer s

ask_with_token : Option Bool → Whitelist → Option String → AuthorizationStatus
unfolding status_of_reply
ask_with_token (some false) w reply = invalid
ask_with_token none w reply = status_of_reply w reply
ask_with_token (some true) w reply = status_of_reply w reply

-- the body of the `try`
unfoldable pub ask : Partner → Whitelist → String → AuthorizationStatus
unfolding ask_with_token
ask p w url =
    if p.has_location then ask_with_token p.token w (p.answer url) else status_of_failure w

ask_listed :
    Partner → Option Whitelist → String → Option AuthorizationStatus → Option AuthorizationStatus
ask_listed p none url status = status
ask_listed p (some allowed) url status = status
ask_listed p (some never) url (some accepted) = some (ask p never url)
ask_listed p (some never) url status = status
ask_listed p (some allowed_offline) url (some accepted) = some (ask p allowed_offline url)
ask_listed p (some allowed_offline) url status = status

ask_at : Partner → Option String → Authorization → Option AuthorizationStatus
unfolding ask_listed
ask_at p none a = a.status
ask_at p (some url) a = ask_listed p a.real_time_auth url a.status

-- authorize
unfoldable pub authorize_in_real_time : Partner → Authorization → Option AuthorizationStatus
unfolding ask_at
authorize_in_real_time p a = ask_at p (truthy a.real_time_auth_url) a

-- What keeps an accepted authorization accepted. Where the station has no location the partner is not
-- asked, and it is kept if it is allowed offline. Otherwise no token is missing, and the answer is
-- ALLOWED, or there is none and the authorization is allowed offline.
abbrev pub KeepsAccepted : Bool → Option Bool → Option String → Whitelist → Type 0
KeepsAccepted has_location token reply w =
    ((has_location ≡ false) × (w ≡ allowed_offline))
    ⊎ ((has_location ≡ true)
        × (token ≢ some false)
        × ((reply ≡ some "ALLOWED") ⊎ ((reply ≡ none) × (w ≡ allowed_offline))))

failure_iff : (w : Whitelist) → (status_of_failure w ≡ accepted) ↔ (w ≡ allowed_offline)
failure_iff never = (λ h. ground arith, λ h. ground arith)
failure_iff allowed = (λ h. ground arith, λ h. ground arith)
failure_iff allowed_offline = (λ h. refl, λ h. refl)

answer_iff : (s : String) → (status_of_answer s ≡ accepted) ↔ (s ≡ "ALLOWED")
unfolding status_of_answer
answer_iff s = ground (arith, eq_iff s "ALLOWED")

reply_iff :
    (w : Whitelist) (reply : Option String)
    → (status_of_reply w reply ≡ accepted)
      ↔ ((reply ≡ some "ALLOWED") ⊎ ((reply ≡ none) × (w ≡ allowed_offline)))
unfolding status_of_reply
reply_iff w none = (
  λ h. inr (refl, (failure_iff w).0 h),
  λ h. elim h [ inl k ↦ ground arith | inr k ↦ (failure_iff w).1 k.1 ],
)
reply_iff w (some s) = (
  λ h. inl (ap some ((answer_iff s).0 h)),
  λ h. elim h [ inl k ↦ (answer_iff s).1 (cc k) | inr k ↦ ground arith ],
)

token_iff :
    (w : Whitelist) (token : Option Bool) (reply : Option String)
    → (ask_with_token token w reply ≡ accepted) ↔ (
        (token ≢ some false)
        × ((reply ≡ some "ALLOWED") ⊎ ((reply ≡ none) × (w ≡ allowed_offline))))
unfolding ask_with_token
token_iff w (some false) reply = (λ h. ground arith, λ h. ground arith)
token_iff w none reply =
    (λ h. (λ q. ground arith, (reply_iff w reply).0 h), λ h. (reply_iff w reply).1 h.1)
token_iff w (some true) reply =
    (λ h. (λ q. ground arith, (reply_iff w reply).0 h), λ h. (reply_iff w reply).1 h.1)

ask_iff :
    (w : Whitelist) (b : Bool) (token : Option Bool) (reply : Option String)
    → ((if b then ask_with_token token w reply else status_of_failure w) ≡ accepted)
      ↔ KeepsAccepted b token reply w
ask_iff w true token reply = (
  λ h. let (sure, replied) = (token_iff w token reply).0 h in inr (refl, sure, replied),
  λ h. elim h [ inl k ↦ ground arith | inr k ↦ (token_iff w token reply).1 (k.1, k.2) ],
)
ask_iff w false token reply = (
  λ h. inl (refl, (failure_iff w).0 h),
  λ h. elim h [ inl k ↦ (failure_iff w).1 k.1 | inr k ↦ ground arith ],
)

module _ (p : Partner) where
  listed_iff :
      (w : Whitelist) (url : String) (o : Option AuthorizationStatus)
      → w ≢ allowed
      → (ask_listed p (some w) url o ≡ some accepted)
        ↔ ((o ≡ some accepted) × KeepsAccepted p.has_location p.token (p.answer url) w)
  unfolding ask_listed ask
  listed_iff allowed url o n = ground arith
  listed_iff never url (some accepted) n =
      (λ h. (refl, (ask_iff never _ _ _).0 (cc h)), λ h. ap some ((ask_iff never _ _ _).1 h.1))
  listed_iff allowed_offline url (some accepted) n = (
    λ h. (refl, (ask_iff allowed_offline _ _ _).0 (cc h)),
    λ h. ap some ((ask_iff allowed_offline _ _ _).1 h.1),
  )
  listed_iff w url o n = (λ h. ground arith, λ h. ground arith)

-- Where an authorization has a URL and is not whitelisted, it comes out accepted exactly if it was
-- accepted and one of these holds: the station has no location, and the authorization is allowed
-- offline, whatever the token; or the station has one, the token can be had where one is needed, and
-- the partner says ALLOWED, or gives no answer and the authorization is allowed offline.
pub authorize_in_real_time_iff :
    (p : Partner) (a : Authorization) (w : Whitelist) (url : String)
    → truthy a.real_time_auth_url ≡ some url
    → a.real_time_auth ≡ some w
    → w ≢ allowed
    → (authorize_in_real_time p a ≡ some accepted)
      ↔ ((a.status ≡ some accepted) × KeepsAccepted p.has_location p.token (p.answer url) w)
unfolding authorize_in_real_time ask_at
authorize_in_real_time_iff p a w url u l n = rw (u, l) (listed_iff p w url a.status n)
