-- ===== src/Pipeline/Batches.antt =====
-- `for start in range(0, len(xs), size): xs[start : start + size]` of radar/runner.py.
use mathlib.Core.List.{flatten}
use scientific_research_rada.Prelude.{
  ℕ, zero, suc, ◌≤◌, List, [], ◌∷◌, ◌++◌, ◌≡◌, refl, arith, length, take, drop, All, ap, ◌∙◌,
}

module _ {ℓ} {A : Type ℓ} where
  -- One batch for each round; there are at most as many batches as elements.
  unfoldable pub batches_of : ℕ → ℕ → List A → List (List A)
  batches_of zero size xs = []
  batches_of (suc fuel) size [] = []
  batches_of (suc fuel) size (x ∷ xs) =
      take size (x ∷ xs) ∷ batches_of fuel size (drop size (x ∷ xs))

  unfoldable pub batches : ℕ → List A → List (List A)
  unfolding batches_of
  batches size xs = batches_of (length xs) size xs

  take-drop : (n : ℕ) (xs : List A) → take n xs ++ drop n xs ≡ xs
  take-drop zero xs = refl
  take-drop (suc n) [] = refl
  take-drop (suc n) (x ∷ xs) = ap (λ ys. x ∷ ys) (take-drop n xs)

  length-drop_le : (n : ℕ) (xs : List A) → length (drop n xs) ≤ length xs
  length-drop_le zero xs = omega arith
  length-drop_le (suc n) [] = omega arith
  length-drop_le (suc n) (x ∷ xs) = omega (arith, length-drop_le n xs)

  length-drop_lt : (n : ℕ) (x : A) (xs : List A) → 1 ≤ n → length (drop n (x ∷ xs)) ≤ length xs
  length-drop_lt zero x xs h = omega arith
  length-drop_lt (suc n) x xs h = length-drop_le n xs

  length-take_le : (n : ℕ) (xs : List A) → length (take n xs) ≤ n
  length-take_le zero xs = omega arith
  length-take_le (suc n) [] = omega arith
  length-take_le (suc n) (x ∷ xs) = omega (arith, length-take_le n xs)

  flatten-batches_of :
      (fuel size : ℕ) (xs : List A)
      → 1 ≤ size
      → length xs ≤ fuel
      → flatten (batches_of fuel size xs) ≡ xs
  unfolding batches_of flatten
  flatten-batches_of zero size [] pos enough = refl
  flatten-batches_of zero size (x ∷ xs) pos enough = absurd (omega arith)
  flatten-batches_of (suc fuel) size [] pos enough = refl
  flatten-batches_of (suc fuel) size (x ∷ xs) pos enough =
      ap (λ ys. take size (x ∷ xs) ++ ys)
        (flatten-batches_of fuel size (drop size (x ∷ xs)) pos
          (omega (arith, length-drop_lt size x xs)))
      ∙ take-drop size (x ∷ xs)

  All-batches_of :
      (fuel size : ℕ) (xs : List A) → All (λ b. length b ≤ size) (batches_of fuel size xs)
  unfolding batches_of
  All-batches_of zero size xs = tt
  All-batches_of (suc fuel) size [] = tt
  All-batches_of (suc fuel) size (x ∷ xs) =
      (length-take_le size (x ∷ xs), All-batches_of fuel size (drop size (x ∷ xs)))

  -- The batches hold every element, in order and once, and none is larger than the size.
  pub batches_lem :
      (size : ℕ) (xs : List A)
      → 1 ≤ size
      → (flatten (batches size xs) ≡ xs) × All (λ b. length b ≤ size) (batches size xs)
  unfolding batches
  batches_lem size xs pos =
      (flatten-batches_of (length xs) size xs pos (omega arith), All-batches_of (length xs) size xs)
