-- ===== src/Money/Tests.antt =====
-- A price with three places, and energy with one.
use rexharge_citrineos_core.Prelude.{◌≡◌, refl, some}
use rexharge_citrineos_core.Rpc.Message.{ok}
use rexharge_citrineos_core.Money.{
  Tariff, big, times, round_down, cost_at, of, currency_of, in_currency, multiply,
  round_to_currency_scale,
}
use rexharge_citrineos_core.Money.Rounding.{IsCut, cost_at-IsCut}

abbrev tariff : Tariff
tariff = record { price_per_kwh = big 255 3; currency = "EUR" }

costs : cost_at (some tariff) (big 101 1) ≡ ok (big 257 2)
unfolding cost_at of currency_of in_currency multiply round_to_currency_scale times round_down
costs = refl

cost_at-IsCut_example : IsCut (times (big 255 3) (big 101 1)) (big 257 2)
cost_at-IsCut_example = cost_at-IsCut tariff (big 101 1) (big 257 2) costs
