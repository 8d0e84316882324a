-- ===== src/Contracts/Accepted.antt =====
-- What an accepted resolution of an article says.
use shkandal.Prelude.{
  arith, none, [], true, inl, inr, ◌≡◌, not, map, ◌⊎◌, Bool-cases, is_empty, Option-cases, ◌||◌,
  is_some, is_none,
}
use shkandal.Contracts.{model_validate, all_distinct}
use shkandal.Contracts.Distinct.{all_distinct-IsUnique}
use shkandal.Contracts.Resolution.{
  accept_resolution, CaseResolutionOutput, validate_resolution, is_resolved, is_rejected,
  resolution_fields, is_truthy,
}
use shkandal.Sql.Rows.{IsUnique}

-- The article goes to some Case: it has a concrete story, a specific core, a Case that matches or
-- the core of a new one, and at least one link or new Case.
abbrev pub IsResolved : CaseResolutionOutput → Type 0
IsResolved o =
    (is_resolved o.outcome ≡ true)
    × (not (is_empty o.existing_case_links) || not (is_empty o.new_cases) ≡ true)
    × (is_some o.diagnosis.article_story_core_uk ≡ true)
    × (is_some o.diagnosis.specific_case_core_uk ≡ true)
    × (not (is_empty o.diagnosis.matching_existing_case_ids)
          || is_truthy o.diagnosis.new_case_core_uk
        ≡ true)

-- The article goes to no Case, for a reason.
abbrev pub IsRejected : CaseResolutionOutput → Type 0
IsRejected o =
    (is_rejected o.outcome ≡ true)
    × (o.existing_case_links ≡ [])
    × (o.new_cases ≡ [])
    × (not (is_empty o.diagnosis.rejection_signals_uk) || is_none o.diagnosis.article_story_core_uk
        ≡ true)

-- No Case is linked twice, and no reference names two new Cases.
abbrev pub HasDistinctTargets : CaseResolutionOutput → Type 0
HasDistinctTargets o =
    IsUnique (map (λ l. l.case_id) o.existing_case_links)
    × IsUnique (map (λ c. c.new_case_ref) o.new_cases)

validate_resolution-decided :
    (o : CaseResolutionOutput) → validate_resolution o ≡ none → IsResolved o ⊎ IsRejected o
unfolding validate_resolution
validate_resolution-decided o h = elim (Bool-cases (is_resolved o.outcome)) [
  | inl goes ↦ inl (ground arith)
  | inr not_resolved ↦ inr (ground arith)
]

validate_resolution-distinct :
    (o : CaseResolutionOutput)
    → validate_resolution o ≡ none
    → (all_distinct (map (λ l. l.case_id) o.existing_case_links) ≡ true)
      × (all_distinct (map (λ c. c.new_case_ref) o.new_cases) ≡ true)
unfolding validate_resolution
validate_resolution-distinct o h = ground arith

accepted-valid :
    (o : CaseResolutionOutput) → accept_resolution o ≡ none → validate_resolution o ≡ none
unfolding accept_resolution model_validate
accepted-valid o h = elim (Bool-cases (resolution_fields o)) [
  | inl fit ↦ elim (Option-cases (validate_resolution o)) [
    | inl e ↦ ground arith
    | inr e ↦ ground arith
  ]
  | inr unfit ↦ ground arith
]

-- An accepted resolution either sends the article to at least one Case, with a concrete story, a
-- specific core and a matching or new Case, or it rejects the article for a reason and touches no
-- Case; in both, no Case is linked twice and no reference names two new Cases.
pub accept_resolution-decides :
    (o : CaseResolutionOutput)
    → accept_resolution o ≡ none
    → (IsResolved o ⊎ IsRejected o) × HasDistinctTargets o
accept_resolution-decides o h =
    let valid = accepted-valid o h in
    let (links, refs) = validate_resolution-distinct o valid in
    (
      validate_resolution-decided o valid,
      (all_distinct-IsUnique _ links, all_distinct-IsUnique _ refs),
    )
