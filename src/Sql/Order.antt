-- ===== src/Sql/Order.antt =====
-- ORDER BY: comparisons built from keys, and the rows in their order. `lt` stands first.
pub mod Laws
use Prim.Native.Nat.{compare, Ordering}
use shkandal.Prelude.{ℕ, ◌≡◌, ◌≢◌, refl, Option, none, some, List, [], ◌∷◌, arith, All}

abbrev pub Comparison {ℓ} : Type ℓ → Type ℓ
Comparison A = A → A → Ordering

abbrev pub flip_ordering : Ordering → Ordering
flip_ordering Ordering.lt = Ordering.gt
flip_ordering Ordering.eq = Ordering.eq
flip_ordering Ordering.gt = Ordering.lt

-- The second order decides where the first finds two rows equal.
abbrev pub or_then : Ordering → Ordering → Ordering
or_then Ordering.lt o = Ordering.lt
or_then Ordering.eq o = o
or_then Ordering.gt o = Ordering.gt

abbrev pub asc : Comparison ℕ
asc a b = compare a b

abbrev pub desc : Comparison ℕ
desc a b = compare b a

module _ {ℓ} {A : Type ℓ} where
  abbrev pub nulls_first : Comparison A → Comparison (Option A)
  nulls_first c none none = Ordering.eq
  nulls_first c none (some b) = Ordering.lt
  nulls_first c (some a) none = Ordering.gt
  nulls_first c (some a) (some b) = c a b

  abbrev pub nulls_last : Comparison A → Comparison (Option A)
  nulls_last c none none = Ordering.eq
  nulls_last c none (some b) = Ordering.gt
  nulls_last c (some a) none = Ordering.lt
  nulls_last c (some a) (some b) = c a b

  abbrev pub by_key {κ} : {B : Type κ} → (A → B) → Comparison B → Comparison A
  by_key key c a b = c (key a) (key b)

  infixr 20 ◌then_by◌
  abbrev pub ◌then_by◌ : Comparison A → Comparison A → Comparison A
  ◌then_by◌ c d a b = or_then (c a b) (d a b)

  -- `x` goes before the rows that do not stand strictly before it.
  pub insert_by : Comparison A → A → List A → List A
  insert_by c x [] = x ∷ []
  insert_by c x (y ∷ ys) =
      let later = y ∷ insert_by c x ys in elim (c y x) [ Ordering.lt ↦ later | _ ↦ x ∷ y ∷ ys ]

  -- ORDER BY; rows that compare equal keep the table's order.
  unfoldable pub order_by : Comparison A → List A → List A
  unfolding insert_by
  order_by c [] = []
  order_by c (x ∷ xs) = insert_by c x (order_by c xs)

  -- LIMIT 1.
  unfoldable pub first_row : List A → Option A
  first_row [] = none
  first_row (x ∷ xs) = some x

  -- What makes a comparison an order of rows in which ties are possible.
  pub record IsOrder (c : Comparison A) : Type ℓ where
    pub flips : (a b : A) → c b a ≡ flip_ordering (c a b)
    pub lt_trans : (a b d : A) → c a b ≡ Ordering.lt → c b d ≡ Ordering.lt → c a d ≡ Ordering.lt
    pub eq_left : (a b d : A) → c a b ≡ Ordering.eq → c a d ≡ c b d

  -- No row stands strictly before one that is listed before it.
  abbrev pub IsSorted : Comparison A → List A → Type 0
  IsSorted c [] = Unit
  IsSorted c (x ∷ xs) = All (λ y. c y x ≢ Ordering.lt) xs × IsSorted c xs
