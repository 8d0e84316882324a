-- ===== src/Sql/Join.antt =====
-- Joins of two tables, as the queries of the program write them, and LIMIT.
pub mod Laws
use shkandal.Prelude.{ℕ, none, some, [], ◌∷◌, List, Bool, Option, map, keep_if, take, ◌++◌}

module _ {ℓ κ} {A : Type ℓ} {B : Type κ} where
  pub with_each : A → List B → List (A × B)
  with_each a [] = []
  with_each a (b ∷ bs) = (a, b) ∷ with_each a bs

  pub or_null : A → List B → List (A × Option B)
  or_null a [] = (a, none) ∷ []
  or_null a (b ∷ bs) = (a, some b) ∷ map (λ c. (a, some c)) bs

  -- JOIN: every pair of rows for which the condition holds.
  unfoldable pub join : (A → B → Bool) → List A → List B → List (A × B)
  unfolding with_each
  join on [] bs = []
  join on (a ∷ rows) bs = with_each a (keep_if (on a) bs) ++ join on rows bs

  -- LEFT OUTER JOIN: a row with no partner stands with NULL.
  unfoldable pub outer_join : (A → B → Bool) → List A → List B → List (A × Option B)
  unfolding or_null
  outer_join on [] bs = []
  outer_join on (a ∷ rows) bs = or_null a (keep_if (on a) bs) ++ outer_join on rows bs

-- LIMIT, which may be left out.
unfoldable pub limit_rows {ℓ} : {A : Type ℓ} → Option ℕ → List A → List A
limit_rows none rows = rows
limit_rows (some n) rows = take n rows
