-- ===== src/Sql/Order/Laws.antt =====
-- The orders that are built from keys are orders, and ORDER BY sorts and keeps the rows.
use Prim.Native.Nat.{Ordering}
use shkandal.Prelude.{
  ◌≡◌, ◌≢◌, ◌⊎◌, inl, inr, refl, Option, none, some, List, [], ◌∷◌, arith, All, In, here, there,
  All-In, All-intro,
}
use shkandal.Sql.Order.{
  Comparison, flip_ordering, asc, desc, nulls_first, nulls_last, by_key, ◌then_by◌, insert_by,
  order_by, first_row, IsOrder, IsSorted,
}

pub asc-IsOrder : IsOrder asc
asc-IsOrder = record {
  flips = λ a b. ground arith;
  lt_trans = λ a b d p q. ground arith;
  eq_left = λ a b d p. ground arith;
}

pub desc-IsOrder : IsOrder desc
desc-IsOrder = record {
  flips = λ a b. ground arith;
  lt_trans = λ a b d p q. ground arith;
  eq_left = λ a b d p. ground arith;
}

module _ {ℓ} {A : Type ℓ} {c : Comparison A} (o : IsOrder c) where
  nulls_first-flips : (a b : Option A) → nulls_first c b a ≡ flip_ordering (nulls_first c a b)
  nulls_first-flips none none = refl
  nulls_first-flips none (some b) = refl
  nulls_first-flips (some a) none = refl
  nulls_first-flips (some a) (some b) = o.flips a b

  nulls_first-lt_trans :
      (a b d : Option A)
      → nulls_first c a b ≡ Ordering.lt
      → nulls_first c b d ≡ Ordering.lt
      → nulls_first c a d ≡ Ordering.lt
  nulls_first-lt_trans none none d p q = cc
  nulls_first-lt_trans none (some b) none p q = cc
  nulls_first-lt_trans none (some b) (some d) p q = refl
  nulls_first-lt_trans (some a) none d p q = cc
  nulls_first-lt_trans (some a) (some b) none p q = cc
  nulls_first-lt_trans (some a) (some b) (some d) p q = o.lt_trans a b d p q

  nulls_first-eq_left :
      (a b d : Option A) → nulls_first c a b ≡ Ordering.eq → nulls_first c a d ≡ nulls_first c b d
  nulls_first-eq_left none none d p = refl
  nulls_first-eq_left none (some b) d p = cc
  nulls_first-eq_left (some a) none d p = cc
  nulls_first-eq_left (some a) (some b) none p = refl
  nulls_first-eq_left (some a) (some b) (some d) p = o.eq_left a b d p

  pub nulls_first-IsOrder : IsOrder (nulls_first c)
  nulls_first-IsOrder = record {
    flips = nulls_first-flips;
    lt_trans = nulls_first-lt_trans;
    eq_left = nulls_first-eq_left;
  }

  nulls_last-flips : (a b : Option A) → nulls_last c b a ≡ flip_ordering (nulls_last c a b)
  nulls_last-flips none none = refl
  nulls_last-flips none (some b) = refl
  nulls_last-flips (some a) none = refl
  nulls_last-flips (some a) (some b) = o.flips a b

  nulls_last-lt_trans :
      (a b d : Option A)
      → nulls_last c a b ≡ Ordering.lt
      → nulls_last c b d ≡ Ordering.lt
      → nulls_last c a d ≡ Ordering.lt
  nulls_last-lt_trans none none d p q = cc
  nulls_last-lt_trans none (some b) d p q = cc
  nulls_last-lt_trans (some a) none none p q = cc
  nulls_last-lt_trans (some a) none (some d) p q = cc
  nulls_last-lt_trans (some a) (some b) none p q = refl
  nulls_last-lt_trans (some a) (some b) (some d) p q = o.lt_trans a b d p q

  nulls_last-eq_left :
      (a b d : Option A) → nulls_last c a b ≡ Ordering.eq → nulls_last c a d ≡ nulls_last c b d
  nulls_last-eq_left none none d p = refl
  nulls_last-eq_left none (some b) d p = cc
  nulls_last-eq_left (some a) none d p = cc
  nulls_last-eq_left (some a) (some b) none p = refl
  nulls_last-eq_left (some a) (some b) (some d) p = o.eq_left a b d p

  pub nulls_last-IsOrder : IsOrder (nulls_last c)
  nulls_last-IsOrder = record {
    flips = nulls_last-flips;
    lt_trans = nulls_last-lt_trans;
    eq_left = nulls_last-eq_left;
  }

  pub by_key-IsOrder {κ} : {B : Type κ} (key : B → A) → IsOrder (by_key key c)
  by_key-IsOrder key = record {
    flips = λ a b. o.flips (key a) (key b);
    lt_trans = λ a b d. o.lt_trans (key a) (key b) (key d);
    eq_left = λ a b d. o.eq_left (key a) (key b) (key d);
  }

module _ {ℓ} {A : Type ℓ} {c d : Comparison A} (o : IsOrder c) (p : IsOrder d) where
  then_by-lt_trans :
      (x y z : A)
      → (c then_by d) x y ≡ Ordering.lt
      → (c then_by d) y z ≡ Ordering.lt
      → (c then_by d) x z ≡ Ordering.lt
  then_by-lt_trans x y z h k = ground (
    arith,
    o.lt_trans x y z,
    o.eq_left x y z,
    p.lt_trans x y z,
    o.flips y z,
    o.eq_left z y x,
    o.flips x y,
    o.flips x z,
  )

  pub then_by-IsOrder : IsOrder (c then_by d)
  then_by-IsOrder = record {
    flips = λ x y. ground (arith, o.flips x y, p.flips x y);
    lt_trans = then_by-lt_trans;
    eq_left = λ x y z h. ground (arith, o.eq_left x y z, p.eq_left x y z);
  }

Ordering-cases :
    (o : Ordering)
    → (o ≡ Ordering.lt) ⊎ ((o ≢ Ordering.lt) × ((o ≡ Ordering.eq) ⊎ (o ≡ Ordering.gt)))
Ordering-cases Ordering.lt = inl refl
Ordering-cases Ordering.eq = inr ((λ e. cc), inl refl)
Ordering-cases Ordering.gt = inr ((λ e. cc), inr refl)

module _ {ℓ} {A : Type ℓ} (c : Comparison A) where
  -- The two results of an insertion into a list that is not empty.
  insert_by-cases :
      (x y : A) (ys : List A)
      → (c y x ≡ Ordering.lt) × (insert_by c x (y ∷ ys) ≡ y ∷ insert_by c x ys)
        ⊎ (c y x ≢ Ordering.lt) × (insert_by c x (y ∷ ys) ≡ x ∷ y ∷ ys)
  unfolding insert_by
  insert_by-cases x y ys = elim (Ordering-cases (c y x)) [
    | inl e ↦ inl (e, rw (e, insert_by))
    | inr (n, inl e) ↦ inr (n, rw (e, insert_by))
    | inr (n, inr e) ↦ inr (n, rw (e, insert_by))
  ]

  In-insert_by : (x : A) {a : A} (ys : List A) → In a (insert_by c x ys) → In a (x ∷ ys)
  unfolding insert_by
  In-insert_by x [] m = m
  In-insert_by x {a} (y ∷ ys) m = elim (insert_by-cases x y ys) [
    | inl (_, e) ↦ In-later (In-insert_by x ys) (rw e at m)
    | inr (_, e) ↦ rw e at m
  ]
    where
      In-later :
          (In a (insert_by c x ys) → In a (x ∷ ys))
          → In a (y ∷ insert_by c x ys)
          → In a (x ∷ y ∷ ys)
      In-later ih (here e) = there (here e)
      In-later ih (there n) = elim (ih n) [ here e ↦ here e | there k ↦ there (there k) ]

  insert_by-In : (x : A) {a : A} (ys : List A) → In a (x ∷ ys) → In a (insert_by c x ys)
  unfolding insert_by
  insert_by-In x [] m = m
  insert_by-In x {a} (y ∷ ys) m = elim (insert_by-cases x y ys) [
    | inl (_, e) ↦ rw e (later (λ k. insert_by-In x ys k) m)
    | inr (_, e) ↦ rw e m
  ]
    where
      later :
          (In a (x ∷ ys) → In a (insert_by c x ys))
          → In a (x ∷ y ∷ ys)
          → In a (y ∷ insert_by c x ys)
      later ih (here e) = there (ih (here e))
      later ih (there (here e)) = here e
      later ih (there (there k)) = there (ih (there k))

  pub In-order_by : {a : A} (xs : List A) → In a (order_by c xs) → In a xs
  unfolding order_by
  In-order_by [] m = m
  In-order_by {a} (x ∷ xs) m = lift (In-order_by xs) (In-insert_by x (order_by c xs) m)
    where
      lift : (In a (order_by c xs) → In a xs) → In a (x ∷ order_by c xs) → In a (x ∷ xs)
      lift ih (here e) = here e
      lift ih (there n) = there (ih n)

  pub order_by-In : {a : A} (xs : List A) → In a xs → In a (order_by c xs)
  unfolding order_by
  order_by-In [] m = m
  order_by-In (x ∷ xs) (here e) = insert_by-In x (order_by c xs) (here e)
  order_by-In (x ∷ xs) (there m) = insert_by-In x (order_by c xs) (there (order_by-In xs m))

module _ {ℓ} {A : Type ℓ} (c : Comparison A) (o : IsOrder c) where
  -- What does not stand before `y` does not stand before what does not stand after `y`.
  not-lt_trans : (x y z : A) → c z y ≢ Ordering.lt → c y x ≢ Ordering.lt → c z x ≢ Ordering.lt
  not-lt_trans x y z p q h = ground (
    arith,
    o.flips y z,
    o.flips x y,
    o.flips x z,
    o.lt_trans z x y,
    o.eq_left x y z,
    o.eq_left y x z,
    o.eq_left z x y,
    o.eq_left y z x,
  )

  insert_by-IsSorted : (x : A) (ys : List A) → IsSorted c ys → IsSorted c (insert_by c x ys)
  unfolding insert_by
  insert_by-IsSorted x [] s = (tt, tt)
  insert_by-IsSorted x (y ∷ ys) s = elim (insert_by-cases c x y ys) [
    | inl (before, e) ↦ rw e (
      All-intro _ (insert_by c x ys) (λ z m. from before (In-insert_by c x ys m)),
      insert_by-IsSorted x ys s.1,
    )
    | inr (after, e) ↦
        rw e ((after, All-intro _ ys (λ z m. not-lt_trans x y z (All-In _ ys s.0 m) after)), s)
  ]
    where
      from : {z : A} → c y x ≡ Ordering.lt → In z (x ∷ ys) → c z y ≢ Ordering.lt
      from before (here e) = rw (← e) (λ h. ground (arith, o.flips y x))
      from before (there m) = All-In _ ys s.0 m

  pub order_by-IsSorted : (xs : List A) → IsSorted c (order_by c xs)
  unfolding order_by
  order_by-IsSorted [] = tt
  order_by-IsSorted (x ∷ xs) = insert_by-IsSorted x (order_by c xs) (order_by-IsSorted xs)

  irreflexive : (x : A) → c x x ≢ Ordering.lt
  irreflexive x h = ground (arith, o.flips x x)

  first_row-In : {a : A} (ys : List A) → first_row ys ≡ some a → In a ys
  unfolding first_row
  first_row-In [] e = cc
  first_row-In (y ∷ ys) e = here (cc)

  first_row-least :
      {a y : A} (ys : List A)
      → IsSorted c ys
      → first_row ys ≡ some a
      → In y ys
      → c y a ≢ Ordering.lt
  unfolding first_row
  first_row-least [] s e m = elim m [ ]
  first_row-least (x ∷ ys) s e (here p) = λ h. irreflexive x (cc)
  first_row-least (x ∷ ys) s e (there m) = λ h. All-In _ ys s.0 m (cc)

  -- LIMIT 1 gives a row of the table that no row stands before.
  pub first_row-order_by :
      (xs : List A) {a : A}
      → first_row (order_by c xs) ≡ some a
      → In a xs × All (λ y. c y a ≢ Ordering.lt) xs
  first_row-order_by xs e = (
    In-order_by c xs (first_row-In (order_by c xs) e),
    All-intro _ xs
        (λ y m. first_row-least (order_by c xs) (order_by-IsSorted xs) e (order_by-In c xs m)),
  )

  -- It gives nothing only where there is no row.
  pub first_row-order_by-none : (xs : List A) → first_row (order_by c xs) ≡ none → xs ≡ []
  unfolding first_row
  first_row-order_by-none [] e = refl
  first_row-order_by-none (x ∷ xs) e =
      absurd (no_row (order_by c (x ∷ xs)) e (order_by-In c (x ∷ xs) (here refl)))
    where
      no_row : (ys : List A) → first_row ys ≡ none → In x ys → ⊥
      no_row [] e m = elim m [ ]
      no_row (y ∷ ys) e m = cc
