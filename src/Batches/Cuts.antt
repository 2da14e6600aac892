-- ===== src/Batches/Cuts.antt =====
-- What the batches are, and when the loop ends.
use rexharge_citrineos_core.Prelude.{
  ℕ, zero, suc, ◌+◌, ◌≤◌, ◌<◌, ◌≡◌, refl, ap, ◌∙◌, Option, none, some, List, [], ◌∷◌, ◌++◌, length,
  take, drop, take-append-drop, length-take, length-drop, arith,
}
use rexharge_citrineos_core.Batches.{batches_from, get_batches, set_batch}

module _ {ℓ} {A : Type ℓ} where
  -- The batches, put together again.
  pub joined : List (ℕ × List A) → List A
  joined [] = []
  joined ((key, batch) ∷ batches) = batch ++ joined batches

  -- Every batch has its position as its key, and holds between one and `size` elements.
  pub IsCut : ℕ → ℕ → List (ℕ × List A) → Type 0
  IsCut size position [] = Unit
  IsCut size position ((key, batch) ∷ batches) =
      (key ≡ position)
      × (1 ≤ length batch)
      × (length batch ≤ size)
      × IsCut size (position + length batch) batches

  IsResult : ℕ → ℕ → List A → Option (List (ℕ × List A)) → Type ℓ
  IsResult size position array o =
      (batches : List (ℕ × List A)) × ((o ≡ some batches)
        × ((joined batches ≡ array) × IsCut size position batches))

  batches_from_cuts :
      (fuel size : ℕ) (array : List A) (position : ℕ)
      → 0 < size
      → length array ≤ fuel
      → IsResult size position array (batches_from fuel size array position)
  unfolding batches_from set_batch joined IsCut IsResult
  batches_from_cuts fuel size [] position pos enough = ([], (refl, (refl, tt)))
  batches_from_cuts zero size (x ∷ xs) position pos enough = absurd (omega (arith, enough))
  batches_from_cuts (suc fuel) size (x ∷ xs) position pos enough =
      let batch = take size (x ∷ xs) in
      let (later, (e, (j, cut))) =
        batches_from_cuts fuel size (drop size (x ∷ xs)) (position + length batch) pos
          (omega (arith, enough, pos, length-drop size (x ∷ xs))) in
      (
        (position, batch) ∷ later,
        (
          rw e refl,
          (
            ap (λ ys. batch ++ ys) j ∙ take-append-drop size (x ∷ xs),
            (
              refl,
              omega (arith, pos, length-take size (x ∷ xs)),
              omega (arith, length-take size (x ∷ xs)),
              cut,
            ),
          ),
        ),
      )

  -- With a size of at least one and a round for every element the loop has ended: the batches put
  -- together are the array, each has at most `size` elements and at least one, and its key is the
  -- position of its first element.
  pub get_batches_cuts :
      (fuel size : ℕ) (array : List A)
      → 0 < size
      → length array ≤ fuel
      → (batches : List (ℕ × List A)) × ((get_batches fuel array size ≡ some batches)
          × ((joined batches ≡ array) × IsCut size 0 batches))
  unfolding get_batches IsResult
  get_batches_cuts fuel size array pos enough = batches_from_cuts fuel size array 0 pos enough

  batches_from_zero :
      (fuel : ℕ) (x : A) (xs : List A) (position : ℕ) → batches_from fuel 0 (x ∷ xs) position ≡ none
  unfolding batches_from set_batch
  batches_from_zero zero x xs position = refl
  batches_from_zero (suc fuel) x xs position = rw (batches_from_zero fuel x xs (position + 0)) refl

  -- With a size of zero the loop does not end on an array that has an element, however many rounds.
  get_batches_endless : (fuel : ℕ) (x : A) (xs : List A) → get_batches fuel (x ∷ xs) 0 ≡ none
  unfolding get_batches
  get_batches_endless fuel x xs = batches_from_zero fuel x xs 0
