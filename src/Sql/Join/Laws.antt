-- ===== src/Sql/Join/Laws.antt =====
-- The rows of a join, and of a query with a limit.
use shkandal.Prelude.{
  ℕ, here, there, refl, sym, ap, subst, arith, none, some, [], true, false, zero, suc, inl, inr,
  ◌∷◌, List, Bool, In, length, Option, keep_if, All, take, ◌<◌, map, ◌≡◌, ◌++◌, ◌⊎◌, In-keep_if,
  keep_if-In, Bool-cases, ◌≢◌,
}
use shkandal.Sql.Join.{join, limit_rows, outer_join, with_each, or_null}

module _ {ℓ} {A : Type ℓ} where
  pub In-append : {a : A} (xs ys : List A) → In a (xs ++ ys) → In a xs ⊎ In a ys
  In-append [] ys m = inr m
  In-append (x ∷ xs) ys (here e) = inl (here e)
  In-append (x ∷ xs) ys (there m) = elim (In-append xs ys m) [
    | inl k ↦ inl (there k)
    | inr k ↦ inr k
  ]

  pub append-In_left : {a : A} (xs ys : List A) → In a xs → In a (xs ++ ys)
  append-In_left [] ys m = elim m [ ]
  append-In_left (x ∷ xs) ys (here e) = here e
  append-In_left (x ∷ xs) ys (there m) = there (append-In_left xs ys m)

  pub append-In_right : {a : A} (xs ys : List A) → In a ys → In a (xs ++ ys)
  append-In_right [] ys m = m
  append-In_right (x ∷ xs) ys m = there (append-In_right xs ys m)

  In-take : {a : A} (n : ℕ) (xs : List A) → In a (take n xs) → In a xs
  In-take zero xs m = elim m [ ]
  In-take (suc n) [] m = elim m [ ]
  In-take (suc n) (x ∷ xs) (here e) = here e
  In-take (suc n) (x ∷ xs) (there m) = there (In-take n xs m)

  take-whole : (n : ℕ) (xs : List A) → length (take n xs) < n → take n xs ≡ xs
  take-whole zero xs h = absurd (omega arith)
  take-whole (suc n) [] h = refl
  take-whole (suc n) (x ∷ xs) h = ap (λ l. x ∷ l) (take-whole n xs (omega arith))

  pub In-limit_rows :
      {a : A} (limit : Option ℕ) (xs : List A) → In a (limit_rows limit xs) → In a xs
  unfolding limit_rows
  In-limit_rows none xs m = m
  In-limit_rows (some n) xs m = In-take n xs m

  pub limit_rows-whole :
      (n : ℕ) (xs : List A) → length (limit_rows (some n) xs) < n → limit_rows (some n) xs ≡ xs
  unfolding limit_rows
  limit_rows-whole n xs h = take-whole n xs h

  none_kept : (p : A → Bool) (ys : List A) → keep_if p ys ≡ [] → All (λ y. p y ≡ false) ys
  none_kept p [] e = tt
  none_kept p (y ∷ ys) e = elim (Bool-cases (p y)) [
    | inl h ↦ absurd (ground arith)
    | inr h ↦ (h, none_kept p ys (ground arith))
  ]

  kept_none : (p : A → Bool) (ys : List A) → All (λ y. p y ≡ false) ys → keep_if p ys ≡ []
  kept_none p [] h = refl
  kept_none p (y ∷ ys) h = rw (h.0) (kept_none p ys h.1)

module _ {ℓ κ} {A : Type ℓ} {B : Type κ} where
  pub In-map : {b : B} (f : A → B) (xs : List A) → In b (map f xs) → (a : A) × In a xs × (f a ≡ b)
  In-map f [] m = elim m [ ]
  In-map f (x ∷ xs) (here e) = (x, here refl, e)
  In-map f (x ∷ xs) (there m) = let (a, n, e) = In-map f xs m in (a, there n, e)

  pub map-In : {a : A} (f : A → B) (xs : List A) → In a xs → In (f a) (map f xs)
  map-In f [] m = elim m [ ]
  map-In f (x ∷ xs) (here e) = here (ap f e)
  map-In f (x ∷ xs) (there m) = there (map-In f xs m)

  pub length-map : (f : A → B) (xs : List A) → length (map f xs) ≡ length xs
  length-map f [] = refl
  length-map f (x ∷ xs) = ap suc (length-map f xs)

  In-with_each : {p : A × B} (a : A) (bs : List B) → In p (with_each a bs) → (a ≡ p.0) × In (p.1) bs
  unfolding with_each
  In-with_each a [] m = elim m [ ]
  In-with_each a (b ∷ bs) (here e) = (ap (λ q. q.0) e, here (ap (λ q. q.1) e))
  In-with_each a (b ∷ bs) (there m) = let (e, n) = In-with_each a bs m in (e, there n)

  with_each-In : {b : B} (a : A) (bs : List B) → In b bs → In (a, b) (with_each a bs)
  unfolding with_each
  with_each-In a [] m = elim m [ ]
  with_each-In a (x ∷ bs) (here e) = here (ap (λ y. (a, y)) e)
  with_each-In a (x ∷ bs) (there m) = there (with_each-In a bs m)

  pub In-join :
      {p : A × B} (on : A → B → Bool) (xs : List A) (ys : List B)
      → In p (join on xs ys)
      → In (p.0) xs × In (p.1) ys × (on (p.0) (p.1) ≡ true)
  unfolding join
  In-join on [] ys m = elim m [ ]
  In-join {p} on (x ∷ xs) ys m =
      elim (In-append (with_each x (keep_if (on x) ys)) (join on xs ys) m) [
        | inl k ↦
            let (e, n) = In-with_each x (keep_if (on x) ys) k in
            let (inside, fits) = In-keep_if (on x) ys n in
            (here e, inside, subst (λ a. on a (p.1) ≡ true) e fits)
        | inr k ↦ let (l, r, h) = In-join on xs ys k in (there l, r, h)
      ]

  pub join-In :
      {a : A} {b : B} (on : A → B → Bool) (xs : List A) (ys : List B)
      → In a xs
      → In b ys
      → on a b ≡ true
      → In (a, b) (join on xs ys)
  unfolding join
  join-In on [] ys m n h = elim m [ ]
  join-In {a} {b} on (x ∷ xs) ys (here e) n h =
      append-In_left (with_each x (keep_if (on x) ys)) (join on xs ys) (
        subst (λ z. In (a, b) (with_each z (keep_if (on z) ys))) (sym e)
          (with_each-In a (keep_if (on a) ys) (keep_if-In (on a) ys n h)))
  join-In on (x ∷ xs) ys (there m) n h =
      append-In_right (with_each x (keep_if (on x) ys)) (join on xs ys) (join-In on xs ys m n h)

  In-with_partner :
      {a : A} (x : A) (cs : List B)
      → In {A = A × Option B} (a, none) (map (λ c. (x, some c)) cs)
      → ⊥
  In-with_partner x [] m = elim m [ ]
  In-with_partner x (c ∷ cs) (here e) = no_partner c (ap (λ q. q.1) e)
    where
      no_partner : (c : B) → some c ≢ none
      no_partner c e = cc
  In-with_partner x (c ∷ cs) (there m) = In-with_partner x cs m

  -- The pairs of an outer join with no partner.
  In-or_null :
      {a : A} (x : A) (bs : List B)
      → In {A = A × Option B} (a, none) (or_null x bs)
      → (x ≡ a) × (bs ≡ [])
  unfolding or_null
  In-or_null x [] (here e) = (ap (λ q. q.0) e, refl)
  In-or_null x [] (there m) = elim m [ ]
  In-or_null x (b ∷ bs) m = absurd (In-with_partner x (b ∷ bs) m)

  pub In-outer_join :
      {a : A} (on : A → B → Bool) (xs : List A) (ys : List B)
      → In (a, none) (outer_join on xs ys)
      → In a xs × All (λ b. on a b ≡ false) ys
  unfolding outer_join
  In-outer_join on [] ys m = elim m [ ]
  In-outer_join {a} on (x ∷ xs) ys m =
      elim (In-append (or_null x (keep_if (on x) ys)) (outer_join on xs ys) m) [
        | inl k ↦
            let (e, empty) = In-or_null x (keep_if (on x) ys) k in
            (here e, subst (λ z. All (λ b. on z b ≡ false) ys) e (none_kept (on x) ys empty))
        | inr k ↦ let (l, h) = In-outer_join on xs ys k in (there l, h)
      ]

  pub outer_join-In :
      {a : A} (on : A → B → Bool) (xs : List A) (ys : List B)
      → In a xs
      → All (λ b. on a b ≡ false) ys
      → In (a, none) (outer_join on xs ys)
  unfolding outer_join
  outer_join-In on [] ys m h = elim m [ ]
  outer_join-In {a} on (x ∷ xs) ys (here e) h =
      append-In_left (or_null x (keep_if (on x) ys)) (outer_join on xs ys) (
        subst (λ z. In (a, none) (or_null z (keep_if (on z) ys))) (sym e)
          (rw (kept_none (on a) ys h) (here refl)))
  outer_join-In on (x ∷ xs) ys (there m) h =
      append-In_right (or_null x (keep_if (on x) ys)) (outer_join on xs ys)
        (outer_join-In on xs ys m h)
