-- ===== src/Budgeting.antt =====
-- apps/worker-ml/src/worker_ml/llm/budgeting.py: texts and lists of article cards cut to the size
-- that a prompt may have. `none` is the ValueError of a limit that is not positive.
pub mod Limits
pub mod Lifecycle
use shkandal.Prelude.{
  ◌>>=◌, ℕ, none, some, [], Bool, Option, List, ltb, take, drop, if◌then◌else◌, ◌==◌, length, ◌-◌,
  leb, ◌/◌, ◌++◌, zero, suc, ◌∷◌, ◌%◌, ◌+◌, get_elem?, ◌*◌,
}
use shkandal.Text.{Text}

pub record BudgetedText : Type 0 where
  pub text : Text
  pub original_chars : ℕ
  pub included_chars : ℕ

unfoldable pub truncated : BudgetedText → Bool
truncated b = ltb b.included_chars b.original_chars

-- `value or ""`.
abbrev pub text_or_empty : Option Text → Text
text_or_empty none = []
text_or_empty (some t) = t

unfoldable pub budget_text : Option Text → ℕ → Option BudgetedText
budget_text value limit =
    let text = text_or_empty value in
    let trimmed = take limit text in
    if limit == 0
    then none
    else some
        (record { text = trimmed; original_chars = length text; included_chars = length trimmed })

-- `cards[-n:]` for a positive `n` that is at most the length.
abbrev pub last_cards {ℓ} : {A : Type ℓ} → ℕ → List A → List A
last_cards n cards = drop (length cards - n) cards

unfoldable pub first_latest_sample {ℓ} : {A : Type ℓ} → List A → ℕ → Option (List A)
first_latest_sample cards limit =
    if limit == 0
    then none
    else if leb (length cards) limit
    then some cards
    else let first_count = limit / 2 in
      let latest_count = limit - first_count in
      some (take first_count cards ++ last_cards latest_count cards)

-- Python's `round(a / b)`: to the nearest, and to the even one of two. The quotient is exact here.
unfoldable pub round_quotient : ℕ → ℕ → ℕ
round_quotient a b =
    let q = a / b in
    let r = a % b in
    if ltb (2 * r) b then q else if ltb b (2 * r) then q + 1 else if q % 2 == 0 then q else q + 1

-- `selected.add(i)`, for a set that is kept as the list `sorted(selected)`.
unfoldable pub add_index : ℕ → List ℕ → List ℕ
add_index i [] = i ∷ []
add_index i (j ∷ js) =
    let later = add_index i js in
    if ltb i j then i ∷ j ∷ js else if i == j then j ∷ js else j ∷ later

-- The rounds of the loop from `index` on, `rounds` in number, over `last + 1` cards.
unfoldable pub add_indices : ℕ → ℕ → ℕ → ℕ → List ℕ → List ℕ
unfolding add_index round_quotient
add_indices zero index last steps selected = selected
add_indices (suc rounds) index last steps selected =
    add_indices rounds (index + 1) last steps
      (add_index (round_quotient (index * last) steps) selected)

-- `[cards[index] for index in indices]`; `none` is an IndexError.
unfoldable pub cards_at {ℓ} : {A : Type ℓ} → List A → List ℕ → Option (List A)
cards_at cards [] = some []
cards_at cards (i ∷ indices) = do
  card ← get_elem? cards i
  rest ← cards_at cards indices
  some (card ∷ rest)

unfoldable pub lifecycle_sample {ℓ} : {A : Type ℓ} → List A → ℕ → Option (List A)
unfolding add_indices cards_at
lifecycle_sample cards limit =
    let last = length cards - 1 in
    if limit == 0
    then none
    else if leb (length cards) limit
    then some cards
    else cards_at cards (add_indices (limit - 2) 1 last (limit - 1) (add_index last (0 ∷ [])))
