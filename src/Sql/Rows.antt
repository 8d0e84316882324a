-- ===== src/Sql/Rows.antt =====
-- UPDATE ... WHERE, SELECT ... WHERE and count(*) FILTER over the rows of a table.
use shkandal.Prelude.{
  ℕ, suc, ◌+◌, ◌≡◌, refl, ap, Option, none, some, Bool, true, List, [], ◌∷◌, ◌++◌, map,
  if◌then◌else◌, Bool-cases, All, length, In, here, there, any, inl, inr, ◌≢◌, subst, false, ◌∙◌,
}

module _ {ℓ} {Row : Type ℓ} where
  unfoldable pub update_where : (Row → Bool) → (Row → Row) → List Row → List Row
  update_where p f [] = []
  update_where p f (r ∷ rows) = (if p r then f r else r) ∷ update_where p f rows

  -- The rows that an update wrote, as it left them (RETURNING).
  unfoldable pub returning : (Row → Bool) → (Row → Row) → List Row → List Row
  returning p f [] = []
  returning p f (r ∷ rows) = let rest = returning p f rows in if p r then f r ∷ rest else rest

  unfoldable pub find_row : (Row → Bool) → List Row → Option Row
  find_row p [] = none
  find_row p (r ∷ rows) = if p r then some r else find_row p rows

  unfoldable pub count_where : (Row → Bool) → List Row → ℕ
  count_where p [] = 0
  count_where p (r ∷ rows) = (if p r then 1 else 0) + count_where p rows

  pub find_row-In :
      (p : Row → Bool) (rows : List Row) {r : Row}
      → find_row p rows ≡ some r
      → In r rows × (p r ≡ true)
  unfolding find_row
  find_row-In p [] e = cc
  find_row-In p (x ∷ rows) e = elim (Bool-cases (p x)) [
    | inl h ↦ let same = some_eq (rw h at e) in (here same, rw same at h)
    | inr h ↦ let r = find_row-In p rows (rw h at e) in (there r.0, r.1)
  ]
    where
      some_eq : {a b : Row} → some a ≡ some b → a ≡ b
      some_eq q = cc

  pub find_row-of-any :
      (p : Row → Bool) (rows : List Row)
      → any p rows ≡ true
      → (r : Row) × (find_row p rows ≡ some r)
  unfolding find_row
  find_row-of-any p [] h = cc
  find_row-of-any p (x ∷ rows) h = elim (Bool-cases (p x)) [
    | inl e ↦ (x, rw e)
    | inr e ↦ rw e (find_row-of-any p rows (rw e at h))
  ]

  pub length-update_where :
      (p : Row → Bool) (f : Row → Row) (rows : List Row)
      → length (update_where p f rows) ≡ length rows
  unfolding update_where
  length-update_where p f [] = refl
  length-update_where p f (r ∷ rows) = ap suc (length-update_where p f rows)

  -- An update that leaves a column alone leaves that column of the table alone.
  pub map-update_where {κ} :
      {K : Type κ} (column : Row → K) (p : Row → Bool) (f : Row → Row) (rows : List Row)
      → ((r : Row) → column (f r) ≡ column r)
      → map column (update_where p f rows) ≡ map column rows
  unfolding update_where
  map-update_where column p f [] h = refl
  map-update_where column p f (r ∷ rows) h = elim (Bool-cases (p r)) [
    | inl e ↦ rw (e, h r, map-update_where column p f rows h) refl
    | inr e ↦ rw (e, map-update_where column p f rows h) refl
  ]

  -- A property of every row that the written rows keep.
  pub All-update_where {κ} :
      (P : Row → Type κ) (p : Row → Bool) (f : Row → Row) (rows : List Row)
      → ((r : Row) → In r rows → P r → p r ≡ true → P (f r))
      → All P rows
      → All P (update_where p f rows)
  unfolding update_where
  All-update_where P p f [] keep h = tt
  All-update_where P p f (r ∷ rows) keep h =
      let rest = All-update_where P p f rows (λ x m. keep x (there m)) h.1 in
      elim (Bool-cases (p r)) [
        | inl e ↦ rw e (keep r (here refl) h.0 e, rest)
        | inr e ↦ rw e (h.0, rest)
      ]

  pub update_where-written :
      (p : Row → Bool) (f : Row → Row) (rows : List Row) {j : Row}
      → In j rows
      → p j ≡ true
      → In (f j) (update_where p f rows)
  unfolding update_where
  update_where-written p f [] m h = elim m [ ]
  update_where-written p f (x ∷ rows) (here e) h = rw (ap p e ∙ h) (here (ap f e))
  update_where-written p f (x ∷ rows) (there m) h = there (update_where-written p f rows m h)

  pub update_where-others :
      (p : Row → Bool) (f : Row → Row) (rows : List Row) {j : Row}
      → In j rows
      → p j ≡ false
      → In j (update_where p f rows)
  unfolding update_where
  update_where-others p f [] m h = elim m [ ]
  update_where-others p f (x ∷ rows) (here e) h = rw (ap p e ∙ h) (here e)
  update_where-others p f (x ∷ rows) (there m) h = there (update_where-others p f rows m h)

  pub All-append {κ} :
      (P : Row → Type κ) (xs ys : List Row) → All P xs → All P ys → All P (xs ++ ys)
  All-append P [] ys h k = k
  All-append P (x ∷ xs) ys h k = (h.0, All-append P xs ys h.1 k)

-- A property of every row, from the written rows and from the others.
pub update_where-All {ℓ κ} :
    {Row : Type ℓ} (P : Row → Type κ) (p : Row → Bool) (f : Row → Row) (rows : List Row)
    → ((r : Row) → In r rows → p r ≡ true → P (f r))
    → ((r : Row) → p r ≡ false → P r)
    → All P (update_where p f rows)
unfolding update_where
update_where-All P p f [] h k = tt
update_where-All P p f (r ∷ rows) h k = elim (Bool-cases (p r)) [
  | inl e ↦ rw e (h r (here refl) e, update_where-All P p f rows (λ x m. h x (there m)) k)
  | inr e ↦ rw e (k r e, update_where-All P p f rows (λ x m. h x (there m)) k)
]

-- Values that stand in a list once each, as a unique index requires.
abbrev pub IsUnique {ℓ} : {A : Type ℓ} → List A → Type ℓ
IsUnique [] = Unit
IsUnique (k ∷ rest) = All (λ i. i ≢ k) rest × IsUnique rest

module _ {ℓ κ} {Row : Type ℓ} {K : Type κ} (column : Row → K) where
  pub All-map-In {μ} :
      (P : K → Type μ) (rows : List Row) {r : Row}
      → All P (map column rows)
      → In r rows
      → P (column r)
  All-map-In P [] h m = elim m [ ]
  All-map-In P (x ∷ rows) h (here e) = subst (λ y. P (column y)) e (h.0)
  All-map-In P (x ∷ rows) h (there m) = All-map-In P rows h.1 m

  pub All-map-intro {μ} :
      (P : K → Type μ) (rows : List Row)
      → ((r : Row) → In r rows → P (column r))
      → All P (map column rows)
  All-map-intro P [] h = tt
  All-map-intro P (x ∷ rows) h = (h x (here refl), All-map-intro P rows (λ r m. h r (there m)))

  -- Two rows with one key are one row.
  pub row_of_key :
      (rows : List Row) {a b : Row}
      → IsUnique (map column rows)
      → In a rows
      → In b rows
      → column a ≡ column b
      → a ≡ b
  row_of_key [] u m n e = elim m [ ]
  row_of_key (x ∷ rows) u (here p) (here q) e = cc
  row_of_key (x ∷ rows) u (here p) (there n) e =
      absurd (All-map-In (λ i. i ≢ column x) rows u.0 n (cc))
  row_of_key (x ∷ rows) u (there m) (here q) e =
      absurd (All-map-In (λ i. i ≢ column x) rows u.0 m (cc))
  row_of_key (x ∷ rows) u (there m) (there n) e = row_of_key rows u.1 m n e

  -- A new row whose key is not in the table may be appended.
  pub IsUnique-append_row :
      (rows : List Row) (new : Row)
      → IsUnique (map column rows)
      → All (λ k. column new ≢ k) (map column rows)
      → IsUnique (map column (rows ++ new ∷ []))
  IsUnique-append_row [] new u h = (tt, tt)
  IsUnique-append_row (x ∷ rows) new u h = (kept rows u.0, IsUnique-append_row rows new u.1 h.1)
    where
      kept :
          (ys : List Row)
          → All (λ i. i ≢ column x) (map column ys)
          → All (λ i. i ≢ column x) (map column (ys ++ new ∷ []))
      kept [] k = (h.0, tt)
      kept (y ∷ ys) k = (k.0, kept ys k.1)
