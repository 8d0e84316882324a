-- ===== src/Contracts/Partition.antt =====
-- What an accepted coherence audit says about the articles of its Case.
use shkandal.Prelude.{
  refl, arith, none, [], true, false, inl, inr, ◌∷◌, List, length, ◌≡◌, ◌≢◌, is_some, all,
  Bool-cases, ◌≤◌, All, Option-cases, any, ◌==◌, ==_iff,
}
use shkandal.Contracts.Audits.{
  coherent, split, inconclusive, CaseCoherenceAuditOutput, CoherenceOutcome, validate_articles,
  validate_coherence, validate_decision, accept_coherence, CaseAuditStory, original,
  coherence_fields, story_refs, detached_ids, assigned_ids,
}
use shkandal.Sql.Rows.{count_where, IsUnique}
use shkandal.Contracts.{model_validate, all_distinct}
use shkandal.Text.{text_eq}
use shkandal.Contracts.Distinct.{all_distinct-IsUnique, apart-intro}

-- One story is the original one, no two have the same reference, each story lists an article once,
-- no article is detached twice, and none is both in a story and detached.
abbrev pub IsDecision : CaseCoherenceAuditOutput → Type 0
IsDecision o =
    (count_where (text_eq original) (story_refs o) ≡ 1)
    × IsUnique (story_refs o)
    × All (λ s. IsUnique s.article_ids) o.stories
    × IsUnique (detached_ids o)
    × All (λ a. All (λ d. d ≢ a) (detached_ids o)) (assigned_ids o.stories)

-- A coherent Case is one story with a specific core that the audit names and nothing against it; a
-- split one has two stories or more.
abbrev pub Supports : CaseCoherenceAuditOutput → CoherenceOutcome → Type 0
Supports o coherent =
    (length o.stories ≡ 1)
    × (is_some o.diagnosis.shared_specific_core_uk ≡ true)
    × (o.diagnosis.merge_blockers_uk ≡ [])
Supports o split = (2 ≤ length o.stories) × (2 ≤ length o.diagnosis.split_story_cores_uk)
Supports o inconclusive = (o.stories ≡ []) × (o.detached_articles ≡ [])

articles_distinct :
    (o : CaseCoherenceAuditOutput)
    → validate_articles o ≡ none
    → (all (λ s. all_distinct s.article_ids) o.stories ≡ true)
      × (all_distinct (detached_ids o) ≡ true)
      × (any (λ a. any (text_eq a) (detached_ids o)) (assigned_ids o.stories) ≡ false)
unfolding validate_articles
articles_distinct o h = ground arith

all_stories :
    (stories : List CaseAuditStory)
    → all (λ s. all_distinct s.article_ids) stories ≡ true
    → All (λ s. IsUnique s.article_ids) stories
all_stories [] h = tt
all_stories (s ∷ stories) h =
    (all_distinct-IsUnique s.article_ids (ground arith), all_stories stories (ground arith))

decided :
    (o : CaseCoherenceAuditOutput) (outcome : CoherenceOutcome)
    → (count_where (text_eq original) (story_refs o) == 1) ≡ true
    → all_distinct (story_refs o) ≡ true
    → validate_articles o ≡ none
    → IsDecision o
decided o outcome once refs articles =
    let (stories, detached, apart) = articles_distinct o articles in
    (
      (==_iff _ 1).0 once,
      all_distinct-IsUnique _ refs,
      all_stories o.stories stories,
      all_distinct-IsUnique _ detached,
      apart-intro (assigned_ids o.stories) (detached_ids o) apart,
    )

-- The checks of a decisive audit, taken apart.
decisive_checks :
    (o : CaseCoherenceAuditOutput)
    → o.outcome ≢ inconclusive
    → validate_coherence o ≡ none
    → ((count_where (text_eq original) (story_refs o) == 1) ≡ true)
      × (all_distinct (story_refs o) ≡ true)
      × (validate_decision o o.outcome ≡ none)
      × (validate_articles o ≡ none)
unfolding validate_coherence
decisive_checks o decisive h = ground arith

supported :
    (o : CaseCoherenceAuditOutput) (outcome : CoherenceOutcome)
    → outcome ≢ inconclusive
    → validate_decision o outcome ≡ none
    → Supports o outcome
unfolding validate_decision
supported o coherent decisive h = ground arith
supported o split decisive h = ground arith
supported o inconclusive decisive h = absurd (decisive refl)

-- An accepted coherence audit with a verdict has exactly one original story and no reference twice;
-- no story lists an article twice, no article is detached twice, and none is both in a story and
-- detached. A coherent Case is one story, with a specific core and no blocker; a split one has at
-- least two stories and two story cores.
pub accept_coherence-IsDecision :
    (o : CaseCoherenceAuditOutput)
    → accept_coherence o ≡ none
    → o.outcome ≢ inconclusive
    → IsDecision o × Supports o o.outcome
unfolding accept_coherence model_validate
accept_coherence-IsDecision o h decisive =
    let valid : validate_coherence o ≡ none = elim (Bool-cases (coherence_fields o)) [
      | inl fit ↦ elim (Option-cases (validate_coherence o)) [
        | inl e ↦ ground arith
        | inr e ↦ ground arith
      ]
      | inr unfit ↦ ground arith
    ] in
    let (once, refs, verdict, articles) = decisive_checks o decisive valid in
    (decided o o.outcome once refs articles, supported o o.outcome decisive verdict)
