-- ===== src/Prelude/Letters.antt =====
-- String.prototype.trim, and toUpperCase for texts of ASCII characters.
use Prim.Native.Char.{Char, code}
use Prim.Native.String.{String, [], ◌∷◌}
use mathlib.Core.Bool.{Bool, ◌&&◌, ◌||◌}
use text.Mathlib.Text.{◌==◌ as str_eq}
use rexharge_citrineos_core.Prelude.Tests.{if◌then◌else◌, ◌==◌, leb}

-- white space and ends of lines
unfoldable pub is_space : Char → Bool
is_space c =
    leb 9 (code c) && leb (code c) 13
    || code c == 32
    || code c == 160
    || code c == 5760
    || leb 8192 (code c) && leb (code c) 8202
    || code c == 8232
    || code c == 8233
    || code c == 8239
    || code c == 8287
    || code c == 12288
    || code c == 65279

trim_start : String → String
unfolding is_space
trim_start [] = ""
trim_start (c ∷ s) = let rest = trim_start s in if is_space c then rest else c ∷ s

trim_end : String → String
unfolding is_space
trim_end [] = ""
trim_end (c ∷ s) = let rest = trim_end s in if is_space c && str_eq rest "" then "" else c ∷ rest

unfoldable pub trim : String → String
unfolding trim_start trim_end
trim s = trim_end (trim_start s)

-- The character of the second text in the place that one has in the first.
swap_char : String → String → Char → Char
swap_char [] t c = c
swap_char (d ∷ s) [] c = c
swap_char (d ∷ s) (e ∷ t) c = if code d == code c then e else swap_char s t c

unfoldable pub to_upper_case : String → String
unfolding swap_char
to_upper_case [] = ""
to_upper_case (c ∷ s) =
    swap_char "abcdefghijklmnopqrstuvwxyz" "ABCDEFGHIJKLMNOPQRSTUVWXYZ" c ∷ to_upper_case s
