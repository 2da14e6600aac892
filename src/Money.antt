-- ===== src/Money.antt =====
-- Amounts of money (00_Base/src/money): Currency.ts and Money.ts. An amount of big.js is a number of
-- digits with some of them behind the point; amounts below zero are not modelled.
pub mod Rounding
mod Tests
use rexharge_citrineos_core.Prelude.{
  ℕ, zero, suc, ◌+◌, ◌-◌, ◌*◌, ◌/◌, String, Option, none, some, Bool, true, false, not, List, [],
  ◌∷◌, includes, leb, ltb, ◌==◌, str_eq, if◌then◌else◌,
}
use rexharge_citrineos_core.Prelude.Text.{concat}
use rexharge_citrineos_core.Rpc.Message.{Result, ok, throw, plain}

abbrev pub ten_to : ℕ → ℕ
ten_to zero = 1
ten_to (suc n) = ten_to n * 10

-- digits / 10 ^ places
pub record Big : Type 0 where
  pub digits : ℕ
  pub places : ℕ

abbrev pub big : ℕ → ℕ → Big
big d p = record { digits = d; places = p }

-- Two amounts at the same number of places.
abbrev pub at_places_of : Big → Big → ℕ
at_places_of b a = a.digits * ten_to b.places

unfoldable pub times : Big → Big → Big
times a b = big (a.digits * b.digits) (a.places + b.places)

unfoldable pub plus : Big → Big → Big
plus a b = big (at_places_of b a + at_places_of a b) (a.places + b.places)

unfoldable pub eq : Big → Big → Bool
eq a b = at_places_of b a == at_places_of a b

unfoldable pub lt : Big → Big → Bool
lt a b = ltb (at_places_of b a) (at_places_of a b)

-- round(scale, 0), which cuts
unfoldable pub round_down : ℕ → Big → Big
round_down scale a =
    if leb a.places scale then a else big (a.digits / ten_to (a.places - scale)) scale

-- CURRENCY_CODES
pub data Currency : Type 0 where
  usd eur cad gbp : Currency

abbrev pub currency_codes : List String
currency_codes = "USD" ∷ "EUR" ∷ "CAD" ∷ "GBP" ∷ []

abbrev pub code : Currency → String
code usd = "USD"
code eur = "EUR"
code cad = "CAD"
code gbp = "GBP"

-- currency.scale
abbrev pub scale_of : Currency → ℕ
scale_of usd = 2
scale_of eur = 2
scale_of cad = 2
scale_of gbp = 2

abbrev pub is_currency_code : String → Bool
is_currency_code s = includes currency_codes s

-- Currency.of
unfoldable pub currency_of : String → Result Currency
currency_of s =
    if str_eq s "USD"
    then ok usd
    else if str_eq s "EUR"
    then ok eur
    else if str_eq s "CAD"
    then ok cad
    else if str_eq s "GBP"
    then ok gbp
    else throw (plain (concat "Unsupported currency code: " s))

pub record Money : Type 0 where
  pub amount : Big
  pub currency : Currency

abbrev pub with_amount : Money → Big → Money
with_amount m a = record m { amount = a }

unfoldable pub in_currency : Big → Result Currency → Result Money
in_currency a (ok c) = ok (record { amount = a; currency = c })
in_currency a (throw e) = throw e

-- Money.of, for a currency given by its code
unfoldable pub of : Big → String → Result Money
unfolding currency_of in_currency
of a s = in_currency a (currency_of s)

unfoldable pub multiply : Money → Big → Money
unfolding times
multiply m b = with_amount m (times m.amount b)

unfoldable pub round_to_currency_scale : Money → Money
unfolding round_down
round_to_currency_scale m = with_amount m (round_down (scale_of m.currency) m.amount)

-- requireSameCurrency
same_currency : {A : Type 0} → Money → Money → A → Result A
same_currency m n a =
    if str_eq (code m.currency) (code n.currency) then ok a else throw (plain "Currency mismatch")

unfoldable pub add : Money → Money → Result Money
unfolding same_currency plus
add m n = same_currency m n (with_amount m (plus m.amount n.amount))

unfoldable pub greater_than : Money → Money → Result Bool
unfolding same_currency lt
greater_than m n = same_currency m n (lt n.amount m.amount)

unfoldable pub greater_than_or_equal : Money → Money → Result Bool
unfolding same_currency lt
greater_than_or_equal m n = same_currency m n (not (lt m.amount n.amount))

unfoldable pub less_than : Money → Money → Result Bool
unfolding same_currency lt
less_than m n = same_currency m n (lt m.amount n.amount)

unfoldable pub less_than_or_equal : Money → Money → Result Bool
unfolding same_currency lt
less_than_or_equal m n = same_currency m n (not (lt n.amount m.amount))

-- What the tariff of a station gives.
pub record Tariff : Type 0 where
  pub price_per_kwh : Big
  pub currency : String

abbrev pub rounded_cost : Big → Result Money → Result Big
rounded_cost kwh (ok m) = ok (round_to_currency_scale (multiply m kwh)).amount
rounded_cost kwh (throw e) = throw e

-- _calculateTotalCost of 03_Modules/Transactions/src/module/CostCalculator.ts
unfoldable pub cost_at : Option Tariff → Big → Result Big
cost_at none kwh = ok (big 0 0)
cost_at (some tariff) kwh = rounded_cost kwh (of tariff.price_per_kwh tariff.currency)

-- calculateTotalCost: `recalculated` is what the readings give where no energy is stored
unfoldable pub calculate_total_cost : Option Tariff → Result Big → Option Big → Result Big
unfolding cost_at
calculate_total_cost tariff recalculated (some kwh) = cost_at tariff kwh
calculate_total_cost tariff (ok kwh) none = cost_at tariff kwh
calculate_total_cost tariff (throw e) none = throw e
