-- ===== src/Access/Rules/Normal.antt =====
-- What of a URL the rules do not see.
use Prim.Native.Char.{code}
use Prim.Native.String.{String, [], ◌∷◌}
use text.Mathlib.TextLemmas.{nil-append, cons-append}
use rexharge_citrineos_core.Prelude.{◌≡◌, refl, ap, ◌∙◌, ℕ, arith, Bool-cases, inl, inr, ◌==◌}
use rexharge_citrineos_core.Prelude.Text.{concat}
use rexharge_citrineos_core.Prelude.Letters.{to_upper_case}
use rexharge_citrineos_core.Access.Urls.{
  before, normalize_url, with_leading_slash, without_trailing_slash,
}
use rexharge_citrineos_core.Access.Rules.{RbacRules, lookup, roles_of_tenant, get_required_roles}

before-concat :
    (s r : String) (sep : ℕ) → before sep r ≡ "" → before sep (concat s r) ≡ before sep s
unfolding before
before-concat [] r sep h = ap (before sep) (nil-append r) ∙ h
before-concat (c ∷ s) r sep h =
    ap (before sep) (cons-append c s r) ∙ ground (arith, before-concat s r sep h)

before_twice : (s : String) (a b : ℕ) → before a (before b s) ≡ before b (before a s)
unfolding before
before_twice [] a b = refl
before_twice (c ∷ s) a b = elim (Bool-cases (code c == a)) [
  | inl h ↦ elim (Bool-cases (code c == b)) [ inl k ↦ rw k (rw h) | inr k ↦ rw (k, h) ]
  | inr h ↦ elim (Bool-cases (code c == b)) [
    | inl k ↦ rw (k, h) (rw k)
    | inr k ↦ rw (h, k) (rw h (ap (String.◌∷◌ c) (before_twice s a b)))
  ]
]

before_mark : (t : String) → before b'?' (concat "?" t) ≡ ""
unfolding before
before_mark t = ap (before b'?') (cons-append _ [] t)

before_hash : (t : String) → before b'#' (concat "#" t) ≡ ""
unfolding before
before_hash t = ap (before b'#') (cons-append _ [] t)

abbrev SamePath : (s t : String) → Type 0
SamePath s t = before b'#' (before b'?' s) ≡ before b'#' (before b'?' t)

required_of_path :
    (rules : RbacRules) (tenant s t method : String)
    → SamePath s t
    → get_required_roles rules tenant s method ≡ get_required_roles rules tenant t method
unfolding get_required_roles normalize_url
required_of_path rules tenant s t method h =
    ap
      (λ path.
        roles_of_tenant (with_leading_slash (without_trailing_slash path)) (to_upper_case method)
          (lookup tenant rules))
      h

-- For one tenant, neither the query of a URL nor its fragment changes the roles that are needed.
pub get_required_roles_plain :
    (rules : RbacRules) (tenant url rest method : String)
    → (get_required_roles rules tenant (concat url (concat "?" rest)) method
        ≡ get_required_roles rules tenant url method)
      × (get_required_roles rules tenant (concat url (concat "#" rest)) method
          ≡ get_required_roles rules tenant url method)
get_required_roles_plain rules tenant url rest method = (
  required_of_path rules tenant (concat url (concat "?" rest)) url method
      (ap (before b'#') (before-concat url (concat "?" rest) b'?' (before_mark rest))),
  required_of_path rules tenant (concat url (concat "#" rest)) url method (
      before_twice (concat url (concat "#" rest)) b'#' b'?'
      ∙ ap (before b'?') (before-concat url (concat "#" rest) b'#' (before_hash rest))
      ∙ before_twice url b'?' b'#'),
)
