-- ===== src/Prelude/Rotate.antt =====
-- Reading a list by index, and from an index on in a circle.
use Prim.Native.Nat.{ℕ, zero, suc, ◌+◌, ◌-◌, ◌%◌, ◌<◌, ◌≤◌}
use mathlib.Core.Path.{◌≡◌, refl, ap, ◌∙◌}
use mathlib.Core.Logic.{inl, inr}
use mathlib.Core.List.{List, [], ◌∷◌, ◌++◌}
use native.Mathlib.Nat.{mod-eq-sub-mod, mod-eq_of_lt}
use native.Mathlib.Omega.{arith}
use shkandal.Prelude.Tests.{ltb, if◌then◌else◌, Bool-cases}
use shkandal.Prelude.Lists.{length-take, length-append, length, take, drop, get_elem?, length-drop}

wrap_once : (n k l : ℕ) → n < l → k < l → l ≤ n + k → (n + k) % l ≡ n + k - l
wrap_once n k l hn hk h = mod-eq-sub-mod h ∙ mod-eq_of_lt (omega arith)

module _ {ℓ} {A : Type ℓ} where
  pub get_elem?-append :
      (xs ys : List A) (i : ℕ)
      → get_elem? (xs ++ ys) i
        ≡ (if ltb i (length xs) then get_elem? xs i else get_elem? ys (i - length xs))
  get_elem?-append [] ys i = ground (arith, no_shift)
    where
      no_shift : get_elem? ys (i - 0) ≡ get_elem? ys i
      no_shift = ap (get_elem? ys) (omega arith)
  get_elem?-append (x ∷ xs) ys zero = ground arith
  get_elem?-append (x ∷ xs) ys (suc i) = ground (arith, get_elem?-append xs ys i)

  pub get_elem?-drop : (n i : ℕ) (xs : List A) → get_elem? (drop n xs) i ≡ get_elem? xs (n + i)
  get_elem?-drop zero i xs = ap (get_elem? xs) (omega arith)
  get_elem?-drop (suc n) i [] = refl
  get_elem?-drop (suc n) i (x ∷ xs) =
      let e : suc n + i ≡ suc (n + i) = omega arith in rw e (get_elem?-drop n i xs)

  pub get_elem?-take : (n i : ℕ) (xs : List A) → i < n → get_elem? (take n xs) i ≡ get_elem? xs i
  get_elem?-take zero i xs h = absurd (omega arith)
  get_elem?-take (suc n) i [] h = refl
  get_elem?-take (suc n) zero (x ∷ xs) h = refl
  get_elem?-take (suc n) (suc i) (x ∷ xs) h = get_elem?-take n i xs (omega arith)

  -- The list read from index `n` on, and then from its start.
  abbrev pub rotate : ℕ → List A → List A
  rotate n xs = drop n xs ++ take n xs

  pub get_elem?-rotate :
      (n k : ℕ) (xs : List A)
      → n < length xs
      → k < length xs
      → get_elem? (rotate n xs) k ≡ get_elem? xs ((n + k) % length xs)
  get_elem?-rotate n k xs hn hk = elim (Bool-cases (ltb k (length (drop n xs)))) [
    | inl near ↦
        let e : (n + k) % length xs ≡ n + k = grind (arith, length-drop n xs) in
        rw (get_elem?-append (drop n xs) (take n xs) k, near, e) (get_elem?-drop n k xs)
    | inr far ↦
        let e : (n + k) % length xs ≡ k - length (drop n xs) =
          ground (arith, length-drop n xs, wrap_once n k (length xs)) in
        rw (get_elem?-append (drop n xs) (take n xs) k, far, e)
          (get_elem?-take n (k - length (drop n xs)) xs (ground (arith, length-drop n xs)))
  ]

  pub length-rotate : (n : ℕ) (xs : List A) → length (rotate n xs) ≡ length xs
  length-rotate n xs =
      omega (arith, length-append (drop n xs) (take n xs), length-drop n xs, length-take n xs)
