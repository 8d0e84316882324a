-- ===== src/Budgeting/Limits.antt =====
-- The budgets are kept, and the ends of the list survive.
use shkandal.Prelude.{
  ℕ, refl, sym, ap, arith, some, [], ◌∷◌, ◌≡◌, List, Option, ◌<◌, length, take, ◌/◌, ◌++◌, drop,
  min, ◌-◌, ltb, take-append-drop, length-take, length-append, length-drop, ◌∙◌,
}
use shkandal.Budgeting.{
  first_latest_sample, budget_text, truncated, BudgetedText, text_or_empty, last_cards,
}
use shkandal.Text.{Text}

-- With a positive limit a text is cut to a beginning of itself: what was cut off follows it, it has
-- the limit's length or its own if that is less, and it is marked as truncated exactly when it was
-- longer than the limit.
pub budget_text-take :
    (value : Option Text) (limit : ℕ)
    → 0 < limit
    → (b : BudgetedText) × (cut : Text) × (budget_text value limit ≡ some b)
      × (b.text ++ cut ≡ text_or_empty value)
      × (length b.text ≡ min limit (length (text_or_empty value)))
      × (truncated b ≡ ltb limit (length (text_or_empty value)))
unfolding budget_text truncated
budget_text-take value limit h =
    let t = text_or_empty value in
    let cut : BudgetedText = record {
      text = take limit t;
      original_chars = length t;
      included_chars = length (take limit t);
    } in
    (
      cut,
      drop limit t,
      ground arith,
      take-append-drop limit t,
      length-take limit t,
      ground (arith, length-take limit t),
    )

-- With a positive limit below the number of cards, the sample has exactly as many cards as the limit
-- allows: first the earliest ones, half of the limit rounded down, and then the latest ones, each in
-- the order of the list.
pub first_latest_sample-ends {ℓ} :
    {A : Type ℓ} (cards : List A) (limit : ℕ)
    → 0 < limit
    → limit < length cards
    → (sample : List A) × (first_latest_sample cards limit ≡ some sample)
      × (length sample ≡ limit)
      × (take (limit / 2) sample ≡ take (limit / 2) cards)
      × (drop (limit / 2) sample ≡ drop (length cards - (limit - limit / 2)) cards)
unfolding first_latest_sample
first_latest_sample-ends cards limit h below =
    let first = take (limit / 2) cards in
    let latest = last_cards (limit - limit / 2) cards in
    let size : length first ≡ limit / 2 = grind (arith, length-take (limit / 2) cards) in
    (
      first ++ latest,
      ground arith,
      omega (
        arith,
        size,
        length-append first latest,
        length-drop (length cards - (limit - limit / 2)) cards,
      ),
      ap (λ n. take n (first ++ latest)) (sym size) ∙ take-front first latest,
      ap (λ n. drop n (first ++ latest)) (sym size) ∙ drop-front first latest,
    )
  where
    take-front : {A : Type ℓ} (xs ys : List A) → take (length xs) (xs ++ ys) ≡ xs
    take-front [] ys = refl
    take-front (x ∷ xs) ys = ap (λ l. x ∷ l) (take-front xs ys)

    drop-front : {A : Type ℓ} (xs ys : List A) → drop (length xs) (xs ++ ys) ≡ ys
    drop-front [] ys = refl
    drop-front (x ∷ xs) ys = drop-front xs ys
