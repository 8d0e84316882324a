-- ===== src/Planning/Refresh.antt =====
-- When a Case is due for a new text: at the perfect squares of its article count.
use native.Mathlib.Nat.{mul-le-mul}
use shkandal.Prelude.{
  ℕ, ap, arith, [], true, zero, suc, inl, inr, ◌∷◌, ◌+◌, List, Bool, ◌*◌, ◌≤◌, any, ◌≡◌, ◌<◌,
  Bool-cases, leb, ◌==◌, leb→le, ==_iff, ltb, ◌&&◌,
}
use shkandal.Planning.Queries.{floor_sqrt, due_square_threshold}
use shkandal.Planning.Tables.{Case}

-- The square of a number and that of the next.
square_suc : (m : ℕ) → (m + 1) * (m + 1) ≡ m * m + 2 * m + 1
square_suc m = omega arith

floor_sqrt-bounds :
    (n : ℕ) → (floor_sqrt n * floor_sqrt n ≤ n) × (n < (floor_sqrt n + 1) * (floor_sqrt n + 1))
unfolding floor_sqrt
floor_sqrt-bounds zero = omega arith
floor_sqrt-bounds (suc n) =
    let m = floor_sqrt n in
    let (below, above) = floor_sqrt-bounds n in
    elim (Bool-cases (leb ((m + 1) * (m + 1)) (suc n))) [
      | inl next ↦
          let here' = leb→le _ _ next in
          rw next (omega (arith, here'), omega (arith, above, square_suc (m + 1), square_suc m))
      | inr same ↦ rw same (omega (arith, below), ground (arith, same))
    ]

-- The numbers from 0 to `n`.
unfoldable pub up_to : ℕ → List ℕ
up_to zero = 0 ∷ []
up_to (suc n) = suc n ∷ up_to n

any-up_to : (p : ℕ → Bool) (n k : ℕ) → k ≤ n → p k ≡ true → any p (up_to n) ≡ true
unfolding up_to
any-up_to p zero k h e = let k0 : k ≡ 0 = omega arith in ground (arith, ap p k0)
any-up_to p (suc n) k h e = elim (Bool-cases (k == suc n)) [
  | inl last ↦ ground (arith, ap p ((==_iff k (suc n)).0 last))
  | inr other ↦ ground (arith, any-up_to p n k (ground arith) e)
]

of_any-up_to : (p : ℕ → Bool) (n : ℕ) → any p (up_to n) ≡ true → (k : ℕ) × (p k ≡ true)
unfolding up_to
of_any-up_to p zero h = (0, ground arith)
of_any-up_to p (suc n) h = elim (Bool-cases (p (suc n))) [
  | inl last ↦ (suc n, last)
  | inr other ↦ of_any-up_to p n (ground arith)
]

-- Squares keep the order of their roots.
square_le : (a b : ℕ) → a ≤ b → a * a ≤ b * b
square_le a b h = mul-le-mul h h

le_square : (r : ℕ) → r ≤ r * r
le_square zero = omega arith
le_square (suc m) = omega (arith, square_suc m)

root_lt : (a b : ℕ) → a * a < b * b → a < b
root_lt a b h = elim (Bool-cases (ltb a b)) [
  | inl less ↦ ground arith
  | inr more ↦ absurd (omega (arith, square_le b a (ground arith)))
]

-- Some perfect square lies above `seen` and is at most `count`.
abbrev pub passes_square : ℕ → ℕ → Bool
passes_square seen count = any (λ k. ltb seen (k * k) && leb (k * k) count) (up_to count)

-- A Case is over the square threshold exactly when its article count has reached a perfect square
-- (1, 4, 9, ...) that is greater than the count at its last refresh.
pub due_square_threshold-passes_square :
    (c : Case)
    → due_square_threshold c ≡ passes_square c.last_refreshed_article_count c.article_count
unfolding due_square_threshold
due_square_threshold-passes_square c =
    let seen = c.last_refreshed_article_count in
    let count = c.article_count in
    let (low, high) = floor_sqrt-bounds seen in
    let (below, above) = floor_sqrt-bounds count in
    elim (Bool-cases (passes_square seen count)) [
      | inl passed ↦
          let (k, at) = of_any-up_to _ count passed in
          let up : seen < k * k = ground arith in
          let down : k * k ≤ count = ground arith in
          let left = root_lt (floor_sqrt seen) k (omega arith) in
          let right = root_lt k (floor_sqrt count + 1) (omega arith) in ground arith
      | inr not_passed ↦ elim (Bool-cases (due_square_threshold c)) [
        | inr not_due ↦ ground arith
        | inl due ↦
            let r = floor_sqrt count in
            let grew : floor_sqrt seen + 1 ≤ r = ground arith in
            let up : seen < r * r = omega (arith, square_le (floor_sqrt seen + 1) r grew) in
            let small : r ≤ count = omega (arith, le_square r, below) in
            let passes : passes_square seen count ≡ true =
              any-up_to (λ k. ltb seen (k * k) && leb (k * k) count) count r small (ground arith) in
            absurd (ground arith)
      ]
    ]
