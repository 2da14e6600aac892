-- ===== src/Prelude/Colons.antt =====
-- How many colons a text holds.
use Prim.Native.Nat.{ℕ, suc, ◌+◌}
use Prim.Native.Char.{code}
use Prim.Native.String.{String}
use mathlib.Core.Path.{◌≡◌, refl, ap, ◌∙◌}
use native.Mathlib.Omega.{arith}
use text.Mathlib.TextLemmas.{nil-append, cons-append}
use rexharge_citrineos_core.Prelude.Tests.{if◌then◌else◌, ◌==◌}
use rexharge_citrineos_core.Prelude.Text.{concat, colon_join, Lacks}

unfoldable pub colons : String → ℕ
colons String.[] = 0
colons (String.◌∷◌ c s) = let rest = colons s in if code c == b':' then suc rest else rest

colons-concat : (s t : String) → colons (concat s t) ≡ colons s + colons t
unfolding colons
colons-concat String.[] t = ap colons (nil-append t) ∙ omega arith
colons-concat (String.◌∷◌ c s) t = ap colons (cons-append c s t) ∙ ground (arith, colons-concat s t)

pub colons-colon_join : (s t : String) → colons (colon_join s t) ≡ suc (colons s + colons t)
unfolding colons
colons-colon_join s t = ground (arith, colons-concat s (concat ":" t), colons-concat ":" t)

pub colons-Lacks : (s : String) → Lacks b':' s → colons s ≡ 0
unfolding colons
colons-Lacks String.[] h = refl
colons-Lacks (String.◌∷◌ c s) (away, h) = ground (arith, colons-Lacks s h)
