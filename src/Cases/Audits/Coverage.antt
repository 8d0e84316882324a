-- ===== src/Cases/Audits/Coverage.antt =====
-- What an audit that passes the coverage check says of the articles of its Case.
use shkandal.Prelude.{
  none, [], ◌∷◌, ◌++◌, inl, inr, true, false, ◌≡◌, ◌≢◌, ◌↔◌, ◌⊎◌, refl, here, there, In, arith, sym,
  List, Bool, is_empty, keep_if, Bool-cases, keep_if-In, not, ◌&&◌, subst, some, Option, ℕ,
  Option-cases,
}
use shkandal.Cases.Audits.{
  validate_article_coverage, mem, invoke_with_coverage_retry, Invoke, AuditRequest, card_ids,
  inconclusive_coverage_fallback,
}
use shkandal.Cases.Audits.Handle.{run_prepared, AuditServices, Prepared}
use shkandal.Cases.Audits.Reconcile.{run_audit}
use shkandal.Contracts.Audits.{inconclusive, CaseCoherenceAuditOutput, assigned_ids, detached_ids}
use shkandal.Results.{ok, >>=-ok, ok_eq, not_ok}
use shkandal.Sql.Join.Laws.{append-In_left, append-In_right, In-append}
use shkandal.Text.{Text, text_eq, text_eq_iff}

pub mem_iff : (ids : List Text) (a : Text) → (mem ids a ≡ true) ↔ In a ids
mem_iff [] a = (λ h. cc, λ m. elim m [ ])
mem_iff (i ∷ ids) a = (
  λ h. elim (Bool-cases (text_eq a i)) [
    | inl same ↦ here (sym ((text_eq_iff a i).0 same))
    | inr other ↦ there ((mem_iff ids a).0 (ground arith))
  ],
  λ m. elim m [
    | here same ↦ rw ((text_eq_iff a i).1 (sym same)) refl
    | there m' ↦ ground (arith, (mem_iff ids a).1 m')
  ],
)

module _ {ℓ} {A : Type ℓ} (p : A → Bool) where
  none_kept : (xs : List A) → is_empty (keep_if p xs) ≡ true → (a : A) → In a xs → p a ≡ false
  none_kept xs h a m = elim (Bool-cases (p a)) [
    | inl holds ↦ absurd (nowhere (keep_if p xs) h (keep_if-In p xs m holds))
    | inr fails ↦ fails
  ]
    where
      nowhere : (ys : List A) → is_empty ys ≡ true → In a ys → ⊥
      nowhere [] k n = elim n [ ]
      nowhere (y ∷ ys) k n = cc

  kept_none : (xs : List A) → ((a : A) → In a xs → p a ≡ false) → is_empty (keep_if p xs) ≡ true
  kept_none [] h = refl
  kept_none (x ∷ xs) h = rw (h x (here refl)) (kept_none xs (λ a m. h a (there m)))

-- Every article is in a story or detached, never both, and no other article is.
abbrev pub IsPartition : CaseCoherenceAuditOutput → List Text → Type 0
IsPartition output ids =
    ((a : Text) → In a ids ↔ (In a (assigned_ids output.stories) ⊎ In a (detached_ids output)))
    × ((a : Text) → In a (assigned_ids output.stories) → mem (detached_ids output) a ≡ false)

module _ (output : CaseCoherenceAuditOutput) (ids : List Text)
    (decisive : output.outcome ≢ inconclusive) where
  checks :
      validate_article_coverage output ids ≡ none
      → (is_empty (keep_if (mem (detached_ids output)) (assigned_ids output.stories)) ≡ true)
        × (is_empty
              (keep_if (λ a. not (mem ids a)) (assigned_ids output.stories ++ detached_ids output))
            ≡ true)
        × (is_empty (
              keep_if
                (λ a.
                  not (mem (assigned_ids output.stories) a) && not (mem (detached_ids output) a))
                ids)
            ≡ true)
  unfolding validate_article_coverage
  checks h = ground arith

  coverage-IsPartition : validate_article_coverage output ids ≡ none → IsPartition output ids
  coverage-IsPartition h =
      let assigned = assigned_ids output.stories in
      let detached = detached_ids output in
      let (both, unknown, missing) = checks h in
      (
        λ a. (
          λ m. elim (Bool-cases (mem assigned a)) [
            | inl yes_assigned ↦ inl ((mem_iff assigned a).0 yes_assigned)
            | inr not_assigned ↦
                inr ((mem_iff detached a).0 (ground (arith, none_kept _ ids missing a m)))
          ],
          λ m. (mem_iff ids a).0 (
              ground (
                arith,
                none_kept _ (assigned ++ detached) unknown a (elim m [
                  | inl n ↦ append-In_left assigned detached n
                  | inr n ↦ append-In_right assigned detached n
                ]),
              )),
        ),
        λ a m. none_kept (mem detached) assigned both a m,
      )

  IsPartition-coverage : IsPartition output ids → validate_article_coverage output ids ≡ none
  unfolding validate_article_coverage
  IsPartition-coverage (covers, apart) =
      let assigned = assigned_ids output.stories in
      let detached = detached_ids output in
      let both = kept_none (mem detached) assigned apart in
      let unknown =
        kept_none (λ a. not (mem ids a)) (assigned ++ detached)
          (λ a m. rw ((mem_iff ids a).1 ((covers a).1 (In-append assigned detached m))) refl) in
      let missing =
        kept_none (λ a. not (mem assigned a) && not (mem detached a)) ids
          (λ a m. elim ((covers a).0 m) [
            | inl n ↦ rw ((mem_iff assigned a).1 n) refl
            | inr n ↦ ground (arith, (mem_iff detached a).1 n)
          ]) in
      by_checks both unknown missing
    where
      by_checks :
          is_empty (keep_if (mem (detached_ids output)) (assigned_ids output.stories)) ≡ true
          → is_empty
              (keep_if (λ a. not (mem ids a)) (assigned_ids output.stories ++ detached_ids output))
            ≡ true
          → is_empty (
              keep_if
                (λ a.
                  not (mem (assigned_ids output.stories) a) && not (mem (detached_ids output) a))
                ids)
            ≡ true
          → validate_article_coverage output ids ≡ none
      by_checks h k l = rw (validate_article_coverage, h, k, l) (ground arith)

  -- A decisive audit passes the coverage check exactly when its stories and its detached articles are
  -- together the articles that were asked about, and no article is both in a story and detached.
  pub validate_article_coverage_iff :
      (validate_article_coverage output ids ≡ none) ↔ IsPartition output ids
  validate_article_coverage_iff = (coverage-IsPartition, IsPartition-coverage)

fallback-covers :
    (ids : List Text) → validate_article_coverage inconclusive_coverage_fallback ids ≡ none
unfolding validate_article_coverage
fallback-covers ids = refl

-- A run with its repetition gives an audit that passes the check: its first answer, its second, or
-- the inconclusive one that stands in for them.
pub invoke_with_coverage_retry-covers :
    (invoke : Invoke) (request : AuditRequest) (r : CaseCoherenceAuditOutput × Option ℕ)
    → invoke_with_coverage_retry invoke request ≡ ok r
    → validate_article_coverage r.0 (card_ids request.cards) ≡ none
unfolding invoke_with_coverage_retry
invoke_with_coverage_retry-covers invoke request r e =
    let (first, ran, rest) = >>=-ok (invoke request) _ e in
    elim (Option-cases (validate_article_coverage first.0 (card_ids request.cards))) [
      | inl good ↦ passes first good (ok_eq (rw good at rest))
      | inr (why, bad) ↦
          let (second, again, last) =
            >>=-ok (invoke (record request { previous_invalid_audit = some (first.0, why) })) _
              (rw bad at rest) in
          elim (Option-cases (validate_article_coverage second.0 (card_ids request.cards))) [
            | inl good ↦ passes second good (ok_eq (rw good at last))
            | inr (why', bad') ↦
                passes (inconclusive_coverage_fallback, second.1)
                  (fallback-covers (card_ids request.cards)) (ok_eq (rw bad' at last))
          ]
    ]
  where
    passes :
        (s : CaseCoherenceAuditOutput × Option ℕ)
        → validate_article_coverage s.0 (card_ids request.cards) ≡ none
        → s ≡ r
        → validate_article_coverage r.0 (card_ids request.cards) ≡ none
    passes s h same =
        subst (λ q. validate_article_coverage q.0 (card_ids request.cards) ≡ none) same h

-- Whatever the model answers, an audit of a Case that ends without an error is inconclusive or a
-- partition of the Case's articles: each is in a story or detached, none is both, no other is named.
pub run_prepared-IsPartition :
    (s : AuditServices) (p : Prepared) (r : CaseCoherenceAuditOutput × Option ℕ)
    → r.0.outcome ≢ inconclusive
    → run_prepared s p ≡ ok r
    → IsPartition r.0 (card_ids p.cards)
unfolding run_prepared
run_prepared-IsPartition s p r decisive e =
    let (result, ran, rest) = >>=-ok (run_audit (s.invoke p.case) s.card_batch_size p.cards) _ e in
    elim (Option-cases (validate_article_coverage result.0 (card_ids p.cards))) [
      | inl good ↦
          let same = ok_eq (rw good at rest) in
          (validate_article_coverage_iff r.0 (card_ids p.cards) decisive).0
            (subst (λ q. validate_article_coverage q.0 (card_ids p.cards) ≡ none) same good)
      | inr (why, bad) ↦ not_ok (rw bad at rest)
    ]
