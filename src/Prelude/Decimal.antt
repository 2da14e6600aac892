-- ===== src/Prelude/Decimal.antt =====
-- Numbers in decimal: `n.toString()` of a whole number, and `Number(s)` of a row of digits.
use Prim.Native.Nat.{ℕ, zero, suc, ◌+◌, ◌*◌, ◌/◌, ◌%◌, ◌-◌, ◌<◌}
use Prim.Native.Char.{Char, code}
use Prim.Native.String.{String, [], ◌∷◌}
use mathlib.Core.Path.{◌≡◌, refl, sym, ap, ◌∙◌}
use mathlib.Core.Bool.{◌&&◌}
use mathlib.Core.Logic.{◌≢◌, inl, inr}
use mathlib.Core.Option.{Option, none, some}
use native.Mathlib.Omega.{arith}
use text.Mathlib.TextLemmas.{cons≢nil}
use rexharge_citrineos_core.Prelude.Tests.{if◌then◌else◌, ltb, leb, ltb→lt, Bool-cases}
use rexharge_citrineos_core.Prelude.Text.{Lacks}

digit : ℕ → Char
digit zero = "0"
digit (suc zero) = "1"
digit (suc (suc zero)) = "2"
digit (suc (suc (suc zero))) = "3"
digit (suc (suc (suc (suc zero)))) = "4"
digit (suc (suc (suc (suc (suc zero))))) = "5"
digit (suc (suc (suc (suc (suc (suc zero)))))) = "6"
digit (suc (suc (suc (suc (suc (suc (suc zero))))))) = "7"
digit (suc (suc (suc (suc (suc (suc (suc (suc zero)))))))) = "8"
digit (suc (suc (suc (suc (suc (suc (suc (suc (suc n))))))))) = "9"

digits : ℕ → ℕ → String → String
digits zero n s = s
digits (suc f) n s =
    let rest = digits f (n / 10) (digit (n % 10) ∷ s) in if ltb n 10 then digit n ∷ s else rest

-- n.toString(); each round divides by ten, so n + 1 rounds are enough
unfoldable pub print : ℕ → String
unfolding digit digits
print n = digits (suc n) n ""

value : ℕ → String → Option ℕ
value acc [] = some acc
value acc (c ∷ s) =
    let rest = value (acc * 10 + (code c - b'0')) s in
    if leb b'0' (code c) && leb (code c) b'9' then rest else none

-- Number(s); `none` stands for every text that is no row of digits
unfoldable pub parse : String → Option ℕ
unfolding value
parse [] = none
parse (c ∷ s) = value 0 (c ∷ s)

value-digit : (acc n : ℕ) (s : String) → n < 10 → value acc (digit n ∷ s) ≡ value (acc * 10 + n) s
unfolding value digit
value-digit acc zero s h = refl
value-digit acc (suc zero) s h = refl
value-digit acc (suc (suc zero)) s h = refl
value-digit acc (suc (suc (suc zero))) s h = refl
value-digit acc (suc (suc (suc (suc zero)))) s h = refl
value-digit acc (suc (suc (suc (suc (suc zero))))) s h = refl
value-digit acc (suc (suc (suc (suc (suc (suc zero)))))) s h = refl
value-digit acc (suc (suc (suc (suc (suc (suc (suc zero))))))) s h = refl
value-digit acc (suc (suc (suc (suc (suc (suc (suc (suc zero)))))))) s h = refl
value-digit acc (suc (suc (suc (suc (suc (suc (suc (suc (suc zero))))))))) s h = refl
value-digit acc (suc (suc (suc (suc (suc (suc (suc (suc (suc (suc n)))))))))) s h =
    absurd (omega arith)

value-digits : (f n : ℕ) (s : String) → n < f → value 0 (digits f n s) ≡ value n s
unfolding digits
value-digits zero n s h = elim h [ ]
value-digits (suc f) n s h = elim (Bool-cases (ltb n 10)) [
  | inl small ↦ rw small (value-digit 0 n s (ltb→lt n 10 small) ∙ ap (λ k. value k s) (omega arith))
  | inr big ↦ rw big (
      value-digits f (n / 10) (digit (n % 10) ∷ s) (ground arith)
      ∙ value-digit (n / 10) (n % 10) s (omega arith)
      ∙ ap (λ k. value k s) (omega arith))
]

digits-cons : (f n : ℕ) (s : String) → n < f → (c : Char) × (t : String) × (digits f n s ≡ c ∷ t)
unfolding digits
digits-cons zero n s h = elim h [ ]
digits-cons (suc f) n s h = elim (Bool-cases (ltb n 10)) [
  | inl small ↦ (digit n, s, rw small)
  | inr big ↦ rw big (digits-cons f (n / 10) (digit (n % 10) ∷ s) (ground arith))
]

parse_of_cons : {s : String} {c : Char} {t : String} → s ≡ c ∷ t → parse s ≡ value 0 s
unfolding parse
parse_of_cons e = rw e

-- Reading a printed number gives it back.
pub parse-print : (n : ℕ) → parse (print n) ≡ some n
unfolding print
parse-print n =
    let (c, t, e) = digits-cons (suc n) n "" (omega arith) in
    parse_of_cons e ∙ value-digits (suc n) n "" (omega arith) ∙ value_nil n
  where
    value_nil : (k : ℕ) → value k "" ≡ some k
    value_nil k = unfold value in refl

Lacks-digit : (n : ℕ) → code (digit n) ≢ b':'
unfolding digit
Lacks-digit zero = omega arith
Lacks-digit (suc zero) = omega arith
Lacks-digit (suc (suc zero)) = omega arith
Lacks-digit (suc (suc (suc zero))) = omega arith
Lacks-digit (suc (suc (suc (suc zero)))) = omega arith
Lacks-digit (suc (suc (suc (suc (suc zero))))) = omega arith
Lacks-digit (suc (suc (suc (suc (suc (suc zero)))))) = omega arith
Lacks-digit (suc (suc (suc (suc (suc (suc (suc zero))))))) = omega arith
Lacks-digit (suc (suc (suc (suc (suc (suc (suc (suc zero)))))))) = omega arith
Lacks-digit (suc (suc (suc (suc (suc (suc (suc (suc (suc n))))))))) = omega arith

Lacks-digits : (f n : ℕ) (s : String) → Lacks b':' s → Lacks b':' (digits f n s)
unfolding digits
Lacks-digits zero n s h = h
Lacks-digits (suc f) n s h = elim (Bool-cases (ltb n 10)) [
  | inl small ↦ rw small (Lacks-digit n, h)
  | inr big ↦ rw big (Lacks-digits f (n / 10) (digit (n % 10) ∷ s) (Lacks-digit (n % 10), h))
]

-- A printed number holds no colon.
pub Lacks-print : (n : ℕ) → Lacks b':' (print n)
unfolding print
Lacks-print n = Lacks-digits (suc n) n "" tt

pub print-ne-nil : (n : ℕ) → print n ≢ ""
unfolding print
print-ne-nil n e = let (c, t, p) = digits-cons (suc n) n "" (omega arith) in cons≢nil (sym p ∙ e)
