-- ===== src/Energy/Tests.antt =====
-- Three readings in whole watt hours, out of order.
use rexharge_citrineos_core.Prelude.{
  ℕ, ◌+◌, ◌-◌, ◌*◌, ◌/◌, ◌≡◌, refl, none, some, List, [], ◌∷◌, arith,
}
use rexharge_citrineos_core.Money.{ten_to}
use rexharge_citrineos_core.Rpc.Message.{ok}
use rexharge_citrineos_core.Energy.{
  Numbers, SampledValue, MeterValue, register_kind, values_map, get_total_kwh,
}
use rexharge_citrineos_core.Energy.Readings.{valid_values, IsSpanned, get_total_kwh-IsSpanned}

abbrev numbers : Numbers ℕ
numbers = record {
  nought = 0;
  plus = λ m n. m + n;
  minus = λ m n. m - n;
  scaled = λ n up down. n * ten_to up / ten_to down;
}

abbrev sample : ℕ → SampledValue ℕ
sample n = record {
  value = n;
  context = none;
  measurand = none;
  phase = none;
  unit = some "KWH";
  multiplier = none;
}

abbrev reading : ℕ → ℕ → MeterValue ℕ
reading t n = record { timestamp = t; first = sample n; others = [] }

abbrev readings : List (MeterValue ℕ)
readings = reading 200 17 ∷ reading 100 12 ∷ reading 300 20 ∷ []

abbrev entries : List (ℕ × ℕ)
entries = (200, 17) ∷ (100, 12) ∷ (300, 20) ∷ []

reads : values_map numbers register_kind (valid_values numbers readings) [] ≡ ok entries
unfolding values_map
reads = refl

get_total_kwh-IsSpanned_example :
    (total : ℕ) × (get_total_kwh numbers readings ≡ ok total) × IsSpanned numbers entries total
get_total_kwh-IsSpanned_example =
    get_total_kwh-IsSpanned numbers readings entries reads (omega arith)
