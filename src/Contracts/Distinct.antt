-- ===== src/Contracts/Distinct.antt =====
-- `len(items) == len(set(items))` holds for items without repetition.
use shkandal.Prelude.{
  refl, sym, subst, arith, [], true, false, inl, inr, ◌∷◌, List, length, any, ◌≡◌, ◌≤◌, Bool-cases,
  All, ◌≢◌,
}
use shkandal.Contracts.{to_set, all_distinct}
use shkandal.Text.{Text, text_eq, text_eq_iff}
use shkandal.Sql.Rows.{IsUnique}

length-to_set : (ts : List Text) → length (to_set ts) ≤ length ts
unfolding to_set
length-to_set [] = omega arith
length-to_set (t ∷ ts) = ground (arith, length-to_set ts)

to_set-any :
    (u : Text) (ts : List Text) → any (text_eq u) ts ≡ true → any (text_eq u) (to_set ts) ≡ true
unfolding to_set
to_set-any u [] h = h
to_set-any u (t ∷ ts) h = elim (Bool-cases (text_eq u t)) [
  | inl same ↦ elim (Bool-cases (any (text_eq t) (to_set ts))) [
    | inl seen ↦
        rw seen
          (subst (λ v. any (text_eq v) (to_set ts) ≡ true) (sym ((text_eq_iff u t).0 same)) seen)
    | inr new ↦ rw (new, same) refl
  ]
  | inr other ↦ elim (Bool-cases (any (text_eq t) (to_set ts))) [
    | inl seen ↦ rw seen (to_set-any u ts (ground arith))
    | inr new ↦ rw (new, other) (to_set-any u ts (ground arith))
  ]
]

any_text : (t : Text) (ts : List Text) → any (text_eq t) ts ≡ false → All (λ u. u ≢ t) ts
any_text t [] h = tt
any_text t (u ∷ ts) h =
    (λ e. ground (arith, (text_eq_iff t u).1 (sym e)), any_text t ts (ground arith))

pub all_distinct-IsUnique : (ts : List Text) → all_distinct ts ≡ true → IsUnique ts
unfolding all_distinct to_set
all_distinct-IsUnique [] h = tt
all_distinct-IsUnique (t ∷ ts) h = elim (Bool-cases (any (text_eq t) (to_set ts))) [
  | inl seen ↦ absurd (ground (arith, length-to_set ts))
  | inr new ↦
      let apart : any (text_eq t) ts ≡ false = ground (arith, to_set-any t ts) in
      (any_text t ts apart, all_distinct-IsUnique ts (ground arith))
]

-- A text that none of the others is equal to.
pub apart-intro :
    (ts us : List Text)
    → any (λ t. any (text_eq t) us) ts ≡ false
    → All (λ t. All (λ u. u ≢ t) us) ts
apart-intro [] us h = tt
apart-intro (t ∷ ts) us h = (any_text t us (ground arith), apart-intro ts us (ground arith))
