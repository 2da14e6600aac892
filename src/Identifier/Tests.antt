-- ===== src/Identifier/Tests.antt =====
-- Identifiers of one station.
use rexharge_citrineos_core.Prelude.{◌≡◌, refl, arith}
use rexharge_citrineos_core.Prelude.Text.{Lacks, split}
use rexharge_citrineos_core.Prelude.Decimal.{print}
use rexharge_citrineos_core.Identifier.{create_identifier, get_station_id}

Lacks-cs : Lacks b':' "cs1"
Lacks-cs = (λ e. ground arith, (λ e. ground arith, (λ e. ground arith, tt)))

-- A station's name with a colon does not come back whole.
cut_station : get_station_id (create_identifier 1 "cs:1") ≡ "cs"
unfolding get_station_id create_identifier split print
cut_station = refl
