-- ===== src/Results.antt =====
-- Errors as values: what Python's `raise` ends with, and the rest of a function after a call.
use shkandal.Prelude.{◌≡◌, refl, inl, inr, ◌⊎◌}

pub data Result {ℓ κ} (E : Type κ) (A : Type ℓ) : Type (ℓ ⊔ κ) where
  ok : A → Result E A
  err : E → Result E A

infixl 5 ◌>>=◌
abbrev pub ◌>>=◌ {ℓ κ μ} :
    {E : Type μ} {A : Type ℓ} {B : Type κ} → Result E A → (A → Result E B) → Result E B
ok a >>= f = f a
err e >>= f = err e

-- A call chain that ends well went well at its first call.
pub >>=-ok {ℓ κ μ} :
    {E : Type μ} {A : Type ℓ} {B : Type κ} (m : Result E A) (f : A → Result E B) {b : B}
    → (m >>= f) ≡ ok b
    → (a : A) × (m ≡ ok a) × (f a ≡ ok b)
>>=-ok (ok a) f h = (a, refl, h)
>>=-ok (err e) f h = cc

module _ {ℓ κ} {E : Type κ} {A : Type ℓ} where
  pub ok_eq : {a b : A} → Path (Result E A) (ok a) (ok b) → a ≡ b
  ok_eq q = cc

  pub not_ok {μ} : {C : Type μ} {e : E} {b : A} → Path (Result E A) (err e) (ok b) → C
  not_ok q = cc

-- To split on a result and keep the equation.
pub Result-cases {ℓ κ} :
    {E : Type ℓ} {A : Type κ} (r : Result E A) → ((e : E) × (r ≡ err e)) ⊎ ((a : A) × (r ≡ ok a))
Result-cases (err e) = inl (e, refl)
Result-cases (ok a) = inr (a, refl)
