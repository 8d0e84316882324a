-- ===== src/Budgeting/Lifecycle.antt =====
-- The sample of a Case's lifecycle stays within its limit and keeps both ends.
use native.Mathlib.Nat.{mul-le-mul, div-lt_iff_lt-mul}
use shkandal.Prelude.{
  ℕ, arith, [], true, ◌∷◌, ◌≡◌, ◌<◌, ◌≤◌, List, Bool, ◌*◌, length, all, any, ◌/◌, ◌+◌, ◌==◌, refl,
  ap, subst, some, zero, suc, inl, inr, here, there, get_elem?, leb, In, ◌-◌, le→leb, Option-cases,
  Bool-cases, ==_iff,
}
use shkandal.Budgeting.{round_quotient, add_index, add_indices, cards_at, lifecycle_sample}

round_quotient-le : (a b : ℕ) → round_quotient a b ≤ a / b + 1
unfolding round_quotient
round_quotient-le a b = ground arith

-- An index below the last step falls short of the last card, or on it.
round_quotient-inside :
    (index last steps : ℕ) → 0 < last → index < steps → round_quotient (index * last) steps ≤ last
round_quotient-inside index last steps some_card below =
    let more : index + 1 ≤ steps = omega arith in
    let same : last ≤ last = omega arith in
    let product : (index + 1) * last ≤ steps * last = mul-le-mul more same in
    let short : index * last / steps < last =
      (div-lt_iff_lt-mul {k = steps} {x = index * last} {y = last} (omega arith)).1
        (omega (arith, product)) in
    omega (arith, round_quotient-le (index * last) steps, short)

length-add_index : (i : ℕ) (js : List ℕ) → length (add_index i js) ≤ length js + 1
unfolding add_index
length-add_index i [] = omega arith
length-add_index i (j ∷ js) = ground (arith, length-add_index i js)

all-add_index :
    (p : ℕ → Bool) (i : ℕ) (js : List ℕ)
    → p i ≡ true
    → all p js ≡ true
    → all p (add_index i js) ≡ true
unfolding add_index
all-add_index p i [] h k = ground arith
all-add_index p i (j ∷ js) h k = ground (arith, all-add_index p i js h)

any-add_index :
    (p : ℕ → Bool) (i : ℕ) (js : List ℕ) → any p js ≡ true → any p (add_index i js) ≡ true
unfolding add_index
any-add_index p i [] h = ground arith
any-add_index p i (j ∷ js) h = ground (arith, any-add_index p i js)

added-add_index : (i : ℕ) (js : List ℕ) → any (λ j. j == i) (add_index i js) ≡ true
unfolding add_index
added-add_index i [] = ground arith
added-add_index i (j ∷ js) = ground (arith, added-add_index i js)

module _ (last steps : ℕ) where
  -- The loop adds at most one index in each round.
  length-add_indices :
      (rounds index : ℕ) (selected : List ℕ)
      → length (add_indices rounds index last steps selected) ≤ length selected + rounds
  unfolding add_indices
  length-add_indices zero index selected = omega arith
  length-add_indices (suc rounds) index selected =
      let i = round_quotient (index * last) steps in
      omega (
        arith,
        length-add_indices rounds (index + 1) (add_index i selected),
        length-add_index i selected,
      )

  all-add_indices :
      (rounds index : ℕ) (selected : List ℕ)
      → 0 < last
      → index + rounds ≤ steps
      → all (λ i. leb i last) selected ≡ true
      → all (λ i. leb i last) (add_indices rounds index last steps selected) ≡ true
  unfolding add_indices
  all-add_indices zero index selected some_card room h = h
  all-add_indices (suc rounds) index selected some_card room h =
      let i = round_quotient (index * last) steps in
      let inside = le→leb i last (round_quotient-inside index last steps some_card (omega arith)) in
      all-add_indices rounds (index + 1) (add_index i selected) some_card (omega arith)
        (all-add_index (λ i. leb i last) i selected inside h)

  any-add_indices :
      (p : ℕ → Bool) (rounds index : ℕ) (selected : List ℕ)
      → any p selected ≡ true
      → any p (add_indices rounds index last steps selected) ≡ true
  unfolding add_indices
  any-add_indices p zero index selected h = h
  any-add_indices p (suc rounds) index selected h =
      any-add_indices p rounds (index + 1) _
        (any-add_index p (round_quotient (index * last) steps) selected h)

module _ {ℓ} {A : Type ℓ} (cards : List A) where
  card_at : (xs : List A) (i : ℕ) → i < length xs → (a : A) × (get_elem? xs i ≡ some a)
  card_at [] i h = absurd (omega arith)
  card_at (x ∷ xs) zero h = (x, refl)
  card_at (x ∷ xs) (suc i) h = card_at xs i (omega arith)

  -- Indices of cards give a sample, one card for each.
  cards_at-returns :
      (indices : List ℕ) (last : ℕ)
      → last < length cards
      → all (λ i. leb i last) indices ≡ true
      → (sample : List A) × (cards_at cards indices ≡ some sample)
        × (length sample ≡ length indices)
  unfolding cards_at
  cards_at-returns [] last inside h = ([], refl, refl)
  cards_at-returns (i ∷ indices) last inside h =
      let (a, e) = card_at cards i (ground arith) in
      let (sample, f, size) = cards_at-returns indices last inside (ground arith) in
      (a ∷ sample, rw (e, f) refl, omega (arith, size))

  cards_at-In :
      (indices : List ℕ) (sample : List A) (i : ℕ) (a : A)
      → cards_at cards indices ≡ some sample
      → any (λ j. j == i) indices ≡ true
      → get_elem? cards i ≡ some a
      → In a sample
  unfolding cards_at
  cards_at-In [] sample i a e h at = cc
  cards_at-In (j ∷ indices) sample i a e h at = elim (Option-cases (get_elem? cards j)) [
    | inl gone ↦ absurd (ground arith)
    | inr (card, f) ↦ elim (Option-cases (cards_at cards indices)) [
      | inl gone ↦ absurd (ground arith)
      | inr (rest, g) ↦
          let whole : card ∷ rest ≡ sample = ground arith in
          subst (In a) whole (elim (Bool-cases (j == i)) [
            | inl same ↦
                let this : get_elem? cards j ≡ get_elem? cards i =
                  ap (get_elem? cards) ((==_iff j i).0 same) in
                here (ground arith)
            | inr other ↦ there (cards_at-In indices rest i a g (ground arith) at)
          ])
    ]
  ]

  -- With a limit of at least two and more cards than that, the lifecycle sample exists, has at most
  -- as many cards as the limit, and holds both the first card and the last one.
  pub lifecycle_sample-ends :
      (limit : ℕ) (first latest : A)
      → 2 ≤ limit
      → limit < length cards
      → get_elem? cards 0 ≡ some first
      → get_elem? cards (length cards - 1) ≡ some latest
      → (sample : List A) × (lifecycle_sample cards limit ≡ some sample)
        × (length sample ≤ limit)
        × In first sample
        × In latest sample
  unfolding lifecycle_sample
  lifecycle_sample-ends limit first latest two below at_first at_last =
      let last = length cards - 1 in
      let ends = add_index last (0 ∷ []) in
      let indices = add_indices (limit - 2) 1 last (limit - 1) ends in
      let inside = all-add_indices last (limit - 1) (limit - 2) 1 ends (omega arith) (omega arith) (
        all-add_index (λ i. leb i last) last (0 ∷ []) (le→leb last last (omega arith))
          (ground arith)) in
      let (sample, e, size) = cards_at-returns indices last (omega arith) inside in
      let has_first =
        any-add_indices last (limit - 1) (λ j. j == 0) (limit - 2) 1 ends
          (any-add_index (λ j. j == 0) last (0 ∷ []) refl) in
      let has_last =
        any-add_indices last (limit - 1) (λ j. j == last) (limit - 2) 1 ends
          (added-add_index last (0 ∷ [])) in
      (
        sample,
        ground arith,
        omega (
          arith,
          size,
          length-add_indices last (limit - 1) (limit - 2) 1 ends,
          length-add_index last (0 ∷ []),
        ),
        cards_at-In indices sample 0 first e has_first at_first,
        cards_at-In indices sample last latest e has_last at_last,
      )
