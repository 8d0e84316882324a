-- ===== src/Cases/Audits/Batches.antt =====
-- The batches of the cards of a large Case.
use shkandal.Prelude.{
  [], ◌∷◌, ◌++◌, ◌≡◌, refl, arith, zero, suc, List, ◌≤◌, ap, ℕ, length, All, take, length-take,
  drop, length-drop, ◌∙◌, take-append-drop,
}
use shkandal.Cases.Audits.{batches_of, batches_from}

-- One list after the other.
abbrev pub concat {ℓ} : {A : Type ℓ} → List (List A) → List A
concat [] = []
concat (xs ∷ rest) = xs ++ concat rest

module _ {ℓ} {A : Type ℓ} (n : ℕ) (positive : 1 ≤ n) where
  batches_from-concat :
      (fuel : ℕ) (cards : List A) → length cards ≤ fuel → concat (batches_from fuel n cards) ≡ cards
  unfolding batches_from
  batches_from-concat zero [] h = refl
  batches_from-concat zero (c ∷ cards) h = absurd (omega (arith, h))
  batches_from-concat (suc fuel) [] h = refl
  batches_from-concat (suc fuel) (c ∷ cards) h =
      ap (λ rest. take n (c ∷ cards) ++ rest)
        (batches_from-concat fuel (drop n (c ∷ cards))
          (omega (arith, length-drop n (c ∷ cards), h, positive)))
      ∙ take-append-drop n (c ∷ cards)

  batches_from-sizes :
      (fuel : ℕ) (cards : List A)
      → All (λ b. (1 ≤ length b) × (length b ≤ n)) (batches_from fuel n cards)
  unfolding batches_from
  batches_from-sizes zero cards = tt
  batches_from-sizes (suc fuel) [] = tt
  batches_from-sizes (suc fuel) (c ∷ cards) = (
    (omega (arith, length-take n (c ∷ cards), positive), omega (arith, length-take n (c ∷ cards))),
    batches_from-sizes fuel (drop n (c ∷ cards)),
  )

  -- For a batch size of at least one the batches are, one after the other, all the cards in their
  -- order, and each has a card at least and the batch size at most.
  pub batches_of-concat :
      (cards : List A)
      → (concat (batches_of n cards) ≡ cards)
        × All (λ b. (1 ≤ length b) × (length b ≤ n)) (batches_of n cards)
  unfolding batches_of
  batches_of-concat cards = (
    batches_from-concat (length cards) cards (omega arith),
    batches_from-sizes (length cards) cards,
  )
