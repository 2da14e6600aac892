-- ===== src/Access/Rules.antt =====
-- The roles that a request needs: 02_Util/src/authorization/rbac/RbacRulesLoader.ts. The rules are
-- lists in the order of the file; methods are of ASCII letters.
pub mod Normal
use Prim.Native.Char.{Char, code}
use Prim.Native.String.{String, [], ◌∷◌}
use mathlib.Core.List
use rexharge_citrineos_core.Prelude.{
  ℕ, ◌-◌, Option, none, some, List, str_eq, leb, ◌==◌, ◌&&◌, if◌then◌else◌,
}
use rexharge_citrineos_core.Prelude.Letters.{to_upper_case}
use rexharge_citrineos_core.Access.Urls.{normalize_url, url_match}

unfoldable pub lookup {ℓ} : {V : Type ℓ} → String → List (String × V) → Option V
lookup key List.[] = none
lookup key (List.◌∷◌ (k, v) l) = if str_eq k key then some v else lookup key l

abbrev pub or_else {ℓ} : {V : Type ℓ} → Option V → Option V → Option V
or_else none b = b
or_else (some a) b = some a

-- RbacRules: by tenant, by URL or pattern, by method
abbrev pub MethodRules : Type 0
MethodRules = List (String × List String)

abbrev pub TenantRules : Type 0
TenantRules = List (String × MethodRules)

abbrev pub RbacRules : Type 0
RbacRules = List (String × TenantRules)

-- methodRules[method] || methodRules['*']
unfoldable pub roles_in : String → MethodRules → Option (List String)
unfolding lookup
roles_in method rules = or_else (lookup method rules) (lookup "*" rules)

-- the loop over the patterns
unfoldable pub pattern_roles : String → String → TenantRules → Option (List String)
unfolding url_match roles_in
pattern_roles url method List.[] = none
pattern_roles url method (List.◌∷◌ (p, methods) rules) =
    let rest = pattern_roles url method rules in
    if url_match url p then or_else (roles_in method methods) rest else rest

-- The rules of the exact URL, where there are any, and else those of the patterns.
unfoldable pub roles_of_url :
    String → String → TenantRules → Option MethodRules → Option (List String)
unfolding roles_in pattern_roles
roles_of_url url method rules (some methods) = roles_in method methods
roles_of_url url method rules none = pattern_roles url method rules

unfoldable pub roles_of_tenant : String → String → Option TenantRules → Option (List String)
unfolding roles_of_url lookup
roles_of_tenant url method none = none
roles_of_tenant url method (some rules) = roles_of_url url method rules (lookup url rules)

-- getRequiredRoles
unfoldable pub get_required_roles : RbacRules → String → String → String → Option (List String)
unfolding lookup normalize_url roles_of_tenant to_upper_case
get_required_roles rules tenant url method =
    roles_of_tenant (normalize_url url) (to_upper_case method) (lookup tenant rules)
