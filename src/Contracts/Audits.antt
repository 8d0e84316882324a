-- ===== src/Contracts/Audits.antt =====
-- The three audits of Cases: coherence, public interest, duplicates. `str.casefold` is an argument.
use shkandal.Prelude.{
  none, some, [], true, false, ◌∷◌, Option, List, Bool, map, ◌++◌, String, is_empty, is_some, ◌||◌,
  ◌&&◌, if◌then◌else◌, is_none, not, length, all, holds_of, ◌==◌, ltb, any,
}
use shkandal.Contracts.{
  model_validate, after_prefix, matches_ref, all_distinct, none_or_at_most, ContractError,
  not_blank, items_at_most, at_most,
}
use shkandal.Sql.Rows.{count_where}
use shkandal.Text.{Text, codes, text_eq}

pub record CaseAuditStory : Type 0 where
  pub story_ref : Text
  pub title_uk : Text
  pub summary_uk : Text
  pub article_ids : List Text
  pub reason_uk : Text

pub record CaseAuditDetachedArticle : Type 0 where
  pub article_id : Text
  pub reason_uk : Text

pub record CaseCoherenceDiagnosis : Type 0 where
  pub shared_specific_core_uk : Option Text
  pub shared_only_broad_theme_uk : Option Text
  pub merge_blockers_uk : List Text
  pub split_story_cores_uk : List Text
  pub detached_article_signals_uk : List Text
  pub coherence_test_uk : Text

pub data CoherenceOutcome : Type 0 where
  coherent : CoherenceOutcome
  split : CoherenceOutcome
  inconclusive : CoherenceOutcome

pub record CaseCoherenceAuditOutput : Type 0 where
  pub diagnosis : CaseCoherenceDiagnosis
  pub stories : List CaseAuditStory
  pub detached_articles : List CaseAuditDetachedArticle
  pub reason_uk : Text
  pub outcome : CoherenceOutcome

abbrev pub original : Text
original = codes "original"

-- `^(original|story_[a-z0-9_]+)$`.
unfoldable pub story_fields : CaseAuditStory → Bool
unfolding matches_ref
story_fields s =
    (text_eq s.story_ref original || matches_ref (codes "story_") s.story_ref)
    && not_blank s.title_uk
    && not_blank s.summary_uk
    && not (is_empty s.article_ids)
    && not_blank s.reason_uk

unfoldable pub coherence_fields : CaseCoherenceAuditOutput → Bool
unfolding story_fields
coherence_fields o =
    none_or_at_most 240 o.diagnosis.shared_specific_core_uk
    && none_or_at_most 240 o.diagnosis.shared_only_broad_theme_uk
    && items_at_most 8 o.diagnosis.merge_blockers_uk
    && items_at_most 8 o.diagnosis.split_story_cores_uk
    && items_at_most 8 o.diagnosis.detached_article_signals_uk
    && not_blank o.diagnosis.coherence_test_uk
    && at_most 240 o.diagnosis.coherence_test_uk
    && all story_fields o.stories
    && all (λ a. not_blank a.reason_uk) o.detached_articles
    && not_blank o.reason_uk
    && at_most 320 o.reason_uk

abbrev pub story_refs : CaseCoherenceAuditOutput → List Text
story_refs o = map (λ s. s.story_ref) o.stories

abbrev pub detached_ids : CaseCoherenceAuditOutput → List Text
detached_ids o = map (λ a. a.article_id) o.detached_articles

-- The article ids of all stories.
unfoldable pub assigned_ids : List CaseAuditStory → List Text
assigned_ids [] = []
assigned_ids (s ∷ stories) = s.article_ids ++ assigned_ids stories

-- What only the coherent outcome, and only the split one, asks for.
unfoldable pub validate_decision : CaseCoherenceAuditOutput → CoherenceOutcome → Option String
validate_decision o coherent =
    if is_none o.diagnosis.shared_specific_core_uk
    then some "coherent audit requires a shared specific core"
    else if is_some o.diagnosis.shared_only_broad_theme_uk
    then some "coherent audit cannot rely on only a broad theme"
    else if not (is_empty o.diagnosis.merge_blockers_uk)
    then some "coherent audit cannot contain merge blockers"
    else if not (length o.stories == 1)
    then some "coherent audit requires only the original story"
    else none
validate_decision o split =
    if ltb (length o.diagnosis.split_story_cores_uk) 2
    then some "split audit requires at least two split story cores"
    else if ltb (length o.stories) 2
    then some "split audit requires at least two stories"
    else none
validate_decision o inconclusive = none

-- The articles of the stories and the detached ones.
unfoldable pub validate_articles : CaseCoherenceAuditOutput → Option String
unfolding all_distinct assigned_ids
validate_articles o =
    if not (all (λ s. all_distinct s.article_ids) o.stories)
    then some "story article ids must be unique"
    else if not (all_distinct (detached_ids o))
    then some "detached article ids must be unique"
    else if any (λ a. any (text_eq a) (detached_ids o)) (assigned_ids o.stories)
    then some "audit cannot both assign and detach an article"
    else none

unfoldable pub validate_coherence : CaseCoherenceAuditOutput → Option String
unfolding all_distinct validate_decision validate_articles count_where
validate_coherence o =
    let is_inconclusive : Bool = elim o.outcome [ inconclusive ↦ true | _ ↦ false ] in
    if is_inconclusive
    then (if not (is_empty o.stories) || not (is_empty o.detached_articles)
        then some "inconclusive audit cannot contain decisions"
        else none)
    else if not (count_where (text_eq original) (story_refs o) == 1)
    then some "decisive audit requires exactly one original story"
    else if not (all_distinct (story_refs o))
    then some "audit story refs must be unique"
    else elim (validate_decision o o.outcome) [
      | some message ↦ some message
      | none ↦ validate_articles o
    ]

unfoldable pub accept_coherence : CaseCoherenceAuditOutput → Option ContractError
unfolding model_validate coherence_fields validate_coherence
accept_coherence o = model_validate (coherence_fields o) (validate_coherence o)

-- `_SPECULATIVE_DURABILITY_MARKERS`.
abbrev pub speculative_durability_markers : List Text
speculative_durability_markers =
    codes "можлив"
    ∷ codes "ймовір"
    ∷ codes "може "
    ∷ codes "можуть"
    ∷ codes "можна очікувати"
    ∷ codes "очікується"
    ∷ codes "потенцій"
    ∷ []

-- `marker in text`.
unfoldable pub contains : Text → Text → Bool
unfolding after_prefix
contains marker [] = is_empty marker
contains marker (c ∷ t) = is_some (after_prefix marker (c ∷ t)) || contains marker t

pub record CasePublicInterestDiagnosis : Type 0 where
  pub concrete_story_core_uk : Option Text
  pub public_interest_anchor_uk : Option Text
  pub durability_signal_uk : Option Text
  pub hide_signals_uk : List Text

pub data InterestOutcome : Type 0 where
  keep : InterestOutcome
  hide : InterestOutcome
  undecided : InterestOutcome

pub record CasePublicInterestAuditOutput : Type 0 where
  pub diagnosis : CasePublicInterestDiagnosis
  pub reason_uk : Text
  pub outcome : InterestOutcome

unfoldable pub interest_fields : CasePublicInterestAuditOutput → Bool
interest_fields o =
    none_or_at_most 240 o.diagnosis.concrete_story_core_uk
    && none_or_at_most 240 o.diagnosis.public_interest_anchor_uk
    && none_or_at_most 240 o.diagnosis.durability_signal_uk
    && items_at_most 6 o.diagnosis.hide_signals_uk
    && not_blank o.reason_uk
    && at_most 320 o.reason_uk

unfoldable pub validate_interest :
    (Text → Text) → CasePublicInterestDiagnosis → InterestOutcome → Option String
unfolding contains
validate_interest casefold d keep =
    if is_none d.concrete_story_core_uk
    then some "keep requires a concrete story core"
    else if is_none d.public_interest_anchor_uk
    then some "keep requires a public-interest anchor"
    else if is_none d.durability_signal_uk
    then some "keep requires a durability signal"
    else if not (is_empty d.hide_signals_uk)
    then some "keep cannot include hide signals"
    else if holds_of
        (λ signal. any (λ m. contains m (casefold signal)) speculative_durability_markers)
        d.durability_signal_uk
    then some "keep requires an observed durability signal, not a speculative one"
    else none
validate_interest casefold d hide =
    if is_empty d.hide_signals_uk then some "hide requires at least one hide signal" else none
validate_interest casefold d undecided = none

unfoldable pub accept_interest :
    (Text → Text) → CasePublicInterestAuditOutput → Option ContractError
unfolding model_validate interest_fields validate_interest
accept_interest casefold o =
    model_validate (interest_fields o) (validate_interest casefold o.diagnosis o.outcome)

pub record CaseDuplicateDiagnosis : Type 0 where
  pub case_a_core_uk : Option Text
  pub case_b_core_uk : Option Text
  pub shared_specific_core_uk : Option Text
  pub only_broad_overlap_uk : Option Text
  pub merge_blockers_uk : List Text

pub data DuplicateOutcome : Type 0 where
  merge : DuplicateOutcome
  distinct : DuplicateOutcome
  unclear : DuplicateOutcome

pub record CaseDuplicateAuditOutput : Type 0 where
  pub diagnosis : CaseDuplicateDiagnosis
  pub reason_uk : Text
  pub outcome : DuplicateOutcome

unfoldable pub duplicate_fields : CaseDuplicateAuditOutput → Bool
duplicate_fields o =
    none_or_at_most 240 o.diagnosis.case_a_core_uk
    && none_or_at_most 240 o.diagnosis.case_b_core_uk
    && none_or_at_most 240 o.diagnosis.shared_specific_core_uk
    && none_or_at_most 240 o.diagnosis.only_broad_overlap_uk
    && items_at_most 8 o.diagnosis.merge_blockers_uk
    && not_blank o.reason_uk
    && at_most 320 o.reason_uk

unfoldable pub validate_duplicate : CaseDuplicateDiagnosis → DuplicateOutcome → Option String
validate_duplicate d merge =
    if is_none d.shared_specific_core_uk
    then some "merge requires a shared specific core"
    else if not (is_empty d.merge_blockers_uk)
    then some "merge cannot contain merge blockers"
    else none
validate_duplicate d distinct =
    if is_none d.only_broad_overlap_uk
    then some "distinct requires a broad-overlap diagnosis"
    else none
validate_duplicate d unclear = none

unfoldable pub accept_duplicate : CaseDuplicateAuditOutput → Option ContractError
unfolding model_validate duplicate_fields validate_duplicate
accept_duplicate o = model_validate (duplicate_fields o) (validate_duplicate o.diagnosis o.outcome)
