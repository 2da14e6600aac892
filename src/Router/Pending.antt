-- ===== src/Router/Pending.antt =====
-- The entry of a pending call in the cache: `${action}:${messageId}`, cut by `split(/:(.*)/)`.
use Prim.Native.String.{[], ◌∷◌}
use Prim.Native.Char.{Char, code}
use text.Mathlib.TextLemmas.{nil-append, cons-append}
use rexharge_citrineos_core.Prelude.{
  String, ◌≡◌, refl, ap, ◌∙◌, Option, none, some, Bool, false, ◌||◌, arith, if◌then◌else◌, ◌==◌,
}
use rexharge_citrineos_core.Prelude.Text.{concat, colon_join, Lacks}

-- The characters that `.` does not match.
abbrev ends_line : Char → Bool
ends_line c = code c == 10 || code c == 13 || code c == 0x2028 || code c == 0x2029

-- What `.*` matches.
line : String → String
line [] = []
line (c ∷ s) = let rest = line s in if ends_line c then [] else c ∷ rest

cons_part : Char → String × Option String → String × Option String
cons_part c (part, rest) = (c ∷ part, rest)

-- The first two parts of the split: up to the first colon, and from there to the end of the line.
unfoldable pub cut : String → String × Option String
unfolding line cons_part
cut [] = ([], none)
cut (c ∷ s) = let rest = cut s in if code c == b':' then ([], some (line s)) else cons_part c rest

-- The text is one line.
abbrev pub IsLine : String → Type 0
IsLine [] = Unit
IsLine (c ∷ s) = (ends_line c ≡ false) × IsLine s

line_of_IsLine : (s : String) → IsLine s → line s ≡ s
unfolding line
line_of_IsLine [] h = refl
line_of_IsLine (c ∷ s) (p, h) = rw p (ap (λ t. c ∷ t) (line_of_IsLine s h))

cut-concat : (a s : String) → Lacks b':' a → cut (concat a (":" ∷ s)) ≡ (a, some (line s))
unfolding cut
cut-concat [] s h = ap cut (nil-append (":" ∷ s))
cut-concat (c ∷ a) s (away, h) =
    ap cut (cons-append c a (":" ∷ s)) ∙ ground (arith, cut-concat a s h)

-- An action without a colon and an identifier of one line come back from the entry.
pub cut-colon_join :
    (action id : String)
    → Lacks b':' action
    → IsLine id
    → cut (colon_join action id) ≡ (action, some id)
cut-colon_join action id away one =
    ap (λ t. cut (concat action t)) (cons-append ":" "" id ∙ ap (λ t. ":" ∷ t) (nil-append id))
    ∙ cut-concat action id away
    ∙ ap (λ t. (action, some t)) (line_of_IsLine id one)
