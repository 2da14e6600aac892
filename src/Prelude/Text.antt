-- ===== src/Prelude/Text.antt =====
-- Texts cut at a separator, as `String.prototype.split` cuts them.
use Prim.Native.Nat.{ℕ}
use Prim.Native.Char.{Char, code}
use Prim.Native.String
use Prim.Native.String.{String, [], ◌∷◌}
use mathlib.Core.Path.{◌≡◌, refl, ap, ◌∙◌}
use mathlib.Core.Logic.{◌≢◌}
use mathlib.Core.List.{List}
use native.Mathlib.Omega.{arith}
use text.Mathlib.TextLemmas.{nil-append, cons-append}
use rexharge_citrineos_core.Prelude.Tests.{if◌then◌else◌, ◌==◌}

-- s + t
abbrev pub concat : String → String → String
concat s t = String.◌++◌ s t

-- `${s}:${t}`
abbrev pub colon_join : String → String → String
colon_join s t = concat s (concat ":" t)

abbrev pub Lacks : ℕ → String → Type 0
Lacks sep [] = Unit
Lacks sep (c ∷ s) = (code c ≢ sep) × Lacks sep s

cons_head : Char → List String → List String
cons_head c List.[] = List.[]
cons_head c (List.◌∷◌ part parts) = List.◌∷◌ (c ∷ part) parts

-- s.split(sep), for a separator of one character
unfoldable pub split : ℕ → String → List String
unfolding cons_head
split sep [] = List.◌∷◌ "" List.[]
split sep (c ∷ s) =
    let rest = split sep s in if code c == sep then List.◌∷◌ "" rest else cons_head c rest

-- Cutting at the first separator gives back the part before it.
pub split-append :
    (sep : ℕ) (s t : String) (c : Char)
    → Lacks sep s
    → code c ≡ sep
    → split sep (concat s (c ∷ t)) ≡ List.◌∷◌ s (split sep t)
unfolding split
split-append sep [] t c _ h = ap (split sep) (nil-append (c ∷ t)) ∙ ground arith
split-append sep (d ∷ s) t c (away, k) h =
    ap (split sep) (cons-append d s (c ∷ t)) ∙ ground (arith, split-append sep s t c k h)

pub split-Lacks : (sep : ℕ) (s : String) → Lacks sep s → split sep s ≡ List.◌∷◌ s List.[]
unfolding split
split-Lacks sep [] h = refl
split-Lacks sep (c ∷ s) (away, k) = ground (arith, split-Lacks sep s k)
