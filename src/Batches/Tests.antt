-- ===== src/Batches/Tests.antt =====
-- Batches of three numbers.
use rexharge_citrineos_core.Prelude.{ℕ, ◌≡◌, some, List, [], ◌∷◌, arith}
use rexharge_citrineos_core.Batches.{get_batches}
use rexharge_citrineos_core.Batches.Cuts.{joined, IsCut, get_batches_cuts}

abbrev three : List ℕ
three = 7 ∷ 8 ∷ 9 ∷ []

get_batches_cuts_example :
    (batches : List (ℕ × List ℕ)) × ((get_batches 3 three 2 ≡ some batches)
      × ((joined batches ≡ three) × IsCut 2 0 batches))
get_batches_cuts_example = get_batches_cuts 3 2 three (omega arith) (omega arith)
