-- ===== src/Money/Rounding.antt =====
-- Rounding loses less than one unit of the currency.
use native.Mathlib.Nat.{
  div-mul-le_self, lt-div-mul-add, mul_assoc, mul-le-mul_right, mul-lt-mul_of_pos_right, suc-mul,
  add-zero, add-suc,
}
use rexharge_citrineos_core.Prelude.{
  ℕ, zero, suc, ◌+◌, ◌-◌, ◌*◌, ◌/◌, ◌≤◌, ◌<◌, ◌≡◌, ap, ◌∙◌, sym, refl, subst, arith, leb,
  Bool-cases, inl, inr, some,
}
use rexharge_citrineos_core.Rpc.Message.{Result, ok, throw}
use rexharge_citrineos_core.Money.{
  Big, big, Tariff, Currency, usd, eur, cad, gbp, ten_to, times, round_down, multiply,
  round_to_currency_scale, scale_of, of, in_currency, cost_at, rounded_cost,
}

ten_to-add : (m n : ℕ) → ten_to (m + n) ≡ ten_to m * ten_to n
ten_to-add m zero = ap ten_to (add-zero m) ∙ omega arith
ten_to-add m (suc n) =
    ap ten_to (add-suc m n) ∙ ap (λ k. k * 10) (ten_to-add m n) ∙ mul_assoc (ten_to m) (ten_to n) 10

ten_to-pos : (n : ℕ) → 0 < ten_to n
ten_to-pos zero = omega arith
ten_to-pos (suc n) = omega (arith, ten_to-pos n)

cut_below : (d t s : ℕ) → d / t * (t * s) ≤ d * s
cut_below d t s =
    subst (λ k. k ≤ d * s) (mul_assoc (d / t) t s) (mul-le-mul_right s (div-mul-le_self d t))

cut_above : (d t s : ℕ) → 0 < t → 0 < s → d * s < suc (d / t) * (t * s)
cut_above d t s pt ps =
    subst (λ k. d * s < k) (mul_assoc (suc (d / t)) t s)
      (mul-lt-mul_of_pos_right (subst (λ k. d < k) (sym (suc-mul (d / t) t)) (lt-div-mul-add pt))
        ps)

-- The second amount has at most two places, is at most the first, and is less than a hundredth below
-- it.
abbrev pub IsCut : Big → Big → Type 0
IsCut a r =
    (r.places ≤ 2)
    × (r.digits * ten_to a.places ≤ a.digits * ten_to r.places)
    × (a.digits * 100 < suc (r.digits * ten_to (2 - r.places)) * ten_to a.places)

-- An amount with two places at most is not cut.
short-IsCut : (d p : ℕ) → p ≤ 2 → IsCut (big d p) (big d p)
short-IsCut d zero h = (omega arith, omega arith, omega arith)
short-IsCut d (suc zero) h = (omega arith, omega arith, omega arith)
short-IsCut d (suc (suc zero)) h = (omega arith, omega arith, omega arith)
short-IsCut d (suc (suc (suc p))) h = absurd (omega arith)

-- One with more places is.
long-IsCut : (d more : ℕ) → IsCut (big d (more + 2)) (big (d / ten_to more) 2)
long-IsCut d more = rw (ten_to-add more 2) (
    let below = cut_below d (ten_to more) 100 in
    let above = cut_above d (ten_to more) 100 (ten_to-pos more) (omega arith) in
    (omega arith, below, subst (λ k. d * 100 < suc k * (ten_to more * 100)) (omega arith) above))

pub round_down-IsCut : (a : Big) → IsCut a (round_down 2 a)
unfolding round_down
round_down-IsCut a = elim (Bool-cases (leb a.places 2)) [
  | inl h ↦ rw h (short-IsCut a.digits a.places (ground arith))
  | inr h ↦ rw h (
      subst (λ k. IsCut (big a.digits k) (big (a.digits / ten_to (a.places - 2)) 2)) (ground arith)
        (long-IsCut a.digits (a.places - 2)))
]

two_places : (c : Currency) → scale_of c ≡ 2
two_places usd = refl
two_places eur = refl
two_places cad = refl
two_places gbp = refl

rounded-IsCut :
    (price kwh cost : Big) (c : Result Currency)
    → rounded_cost kwh (in_currency price c) ≡ ok cost
    → IsCut (times price kwh) cost
unfolding in_currency multiply round_to_currency_scale
rounded-IsCut price kwh cost (throw e) h = ground arith
rounded-IsCut price kwh cost (ok c) h =
    subst (IsCut (times price kwh))
      (ap (λ n. round_down n (times price kwh)) (sym (two_places c)) ∙ cc h)
      (round_down-IsCut (times price kwh))

-- Whatever the currency of the tariff, a total cost is the price times the energy, cut to two places: it
-- has two places at most, is never above the product, and is less than a hundredth below it.
pub cost_at-IsCut :
    (tariff : Tariff) (kwh cost : Big)
    → cost_at (some tariff) kwh ≡ ok cost
    → IsCut (times tariff.price_per_kwh kwh) cost
unfolding cost_at of
cost_at-IsCut tariff kwh cost h = rounded-IsCut tariff.price_per_kwh kwh cost _ h
