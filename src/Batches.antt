-- ===== src/Batches.antt =====
-- getBatches (02_Util/src/util/parser.ts), which the monitoring and reporting APIs cut their requests
-- with. The loop runs on fuel, one unit a round, and `none` is a loop that has not ended. A size is a
-- natural number here; the map keeps the batches in the order in which they were set.
pub mod Cuts
mod Tests
use rexharge_citrineos_core.Prelude.{
  ℕ, zero, suc, ◌+◌, Option, none, some, List, [], ◌∷◌, length, take, drop,
}

module _ {ℓ} {A : Type ℓ} where
  -- batchMap.set(lastIndex, batch), with what the later rounds set
  set_batch : ℕ → List A → Option (List (ℕ × List A)) → Option (List (ℕ × List A))
  set_batch last_index batch none = none
  set_batch last_index batch (some later) = some ((last_index, batch) ∷ later)

  -- The loop, from a state of `array` and `lastIndex`.
  pub batches_from : ℕ → ℕ → List A → ℕ → Option (List (ℕ × List A))
  unfolding set_batch
  batches_from fuel size [] last_index = some []
  batches_from zero size (x ∷ xs) last_index = none
  batches_from (suc fuel) size (x ∷ xs) last_index =
      let batch = take size (x ∷ xs) in
      set_batch last_index batch
        (batches_from fuel size (drop size (x ∷ xs)) (last_index + length batch))

  pub get_batches : ℕ → List A → ℕ → Option (List (ℕ × List A))
  get_batches fuel array size = batches_from fuel size array 0
